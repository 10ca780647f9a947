-- ===== src/Tests/Clients/Sessions.antt =====
-- A client that opens a document, changes it, and receives messages.
use structur3d.Prelude.{◌+◌, ◌≡◌, refl, some, [], ◌∷◌, ◌++◌, ok, abort, true, false, Outcome}
use structur3d.Platform.Memory.{memory, whole}
use structur3d.Db.Rows.{is_deleted, new_row, upsert_row, collect_garbage}
use structur3d.Db.State
use structur3d.Db.State.{
  Db, connect_i, connect_row, create_row, is_document_garbage, check_type, upsert_i_radius,
  upsert_i_coord,
}
use structur3d.Graph
use structur3d.Graph.{Ptr, Store, Edge, Graph, make_edge, id_at, tree, nil, cons, find_ends}
use structur3d.Wire.Message.{asserted, retracted}
use structur3d.Wire.Client.{receive}
use structur3d.World.{World, Document as Opened}
use structur3d.Document
use structur3d.Vm.Interactors.{
  db_interactor, document_interactor, edge_message, node_message, db_remove_node, db_retract_node,
}
use structur3d.Vm.Network.{network_interactor}
use structur3d.Vm.Handlers.{HoldsGraph}
use structur3d.Vm.Session.{Session, Event, arrived, after, closed, open_document-Session}
use structur3d.Tests.Clients.{impl, balls_db, client, opened, opens, ball}
use structur3d.Vm.Echo.{received_removal-sends}
use structur3d.Data.Codes.{to_integral}

-- The client after it removed the edge of the open document at 6.
abbrev pub edited : World whole (Db memory)
edited = record opened {
  db = record balls_db { edge = new_row true 6 "u" "uuuu" ∷ [] };
  sent = edge_message impl asserted 1 4 6 ∷ [];
  current = some (record {
    id = 2;
    graph = record { edges = []; nodes = 20 ∷ 21 ∷ [] };
    jobs = cons (tree 20 nil) (cons (tree 21 nil) nil) ∷ [];
  });
}

pub removes_edge :
    Document.remove_edge
      (document_interactor impl)
      3
      6
      (record { uid = 100; from = 20; to = 21 })
      opened
    ≡ ok edited
unfolding Document.remove_edge Document.regen_mesh Document.start_job document_interactor
    db_interactor State.disconnect connect_i connect_row is_deleted Graph.disconnect Graph.trees
    Graph.roots Graph.count_nodes Graph.insert Graph.count_edges Graph.zeros Graph.forest_of
    Graph.sub_tree_of Graph.subtrees
removes_edge = refl

-- A message arrives that connects the two nodes again, at 8.
abbrev pub rejoined : World whole (Db memory)
rejoined = record edited {
  db = record balls_db { edge = new_row false 8 "u" "uuuu" ∷ [] };
  current = some (record {
    id = 2;
    graph = record { edges = record { uid = 0; from = 20; to = 21 } ∷ []; nodes = 20 ∷ 21 ∷ [] };
    jobs = cons (tree 20 nil) (cons (tree 21 nil) nil) ∷ [];
  });
}

pub arrives :
    receive (network_interactor impl 0 3 9) (edge_message impl asserted 1 4 8) edited ≡ ok rejoined
unfolding receive network_interactor db_interactor State.connect connect_i connect_row is_deleted
    Graph.connect find_ends make_edge
arrives = refl

abbrev pub session : Session impl 3 opened rejoined
session =
    after opened edited rejoined
      (Event.edge_removed 6 (record { uid = 100; from = 20; to = 21 }) removes_edge)
      (after edited rejoined rejoined (arrived 9 0 (edge_message impl asserted 1 4 8) arrives)
        (closed rejoined))

open_document-Session_example : HoldsGraph rejoined
open_document-Session_example =
    open_document-Session impl 3 (λ n. n + 100) 2 client opened rejoined opens session

abbrev pub value_or :
    World whole (Db memory) → Outcome (World whole (Db memory)) → World whole (Db memory)
value_or w (ok w') = w'
value_or w abort = w

-- The removal of the node 4 arrives at the client that has the document open.
abbrev cut : World whole (Db memory)
cut =
    value_or opened
      (receive (network_interactor impl 0 3 9) (node_message impl retracted 2 (ball 4) 8) opened)

cuts :
    receive (network_interactor impl 0 3 9) (node_message impl retracted 2 (ball 4) 8) opened
    ≡ ok cut
unfolding receive network_interactor db_interactor document_interactor db_remove_node
    db_retract_node State.remove State.create_i create_row State.retract_radius State.retract_coord
    upsert_i_radius upsert_i_coord upsert_row collect_garbage to_integral is_deleted
    Document.remove_node Document.regen_mesh Document.start_job Graph.remove Graph.trees Graph.roots
    Graph.count_nodes Graph.insert Graph.count_edges Graph.zeros Graph.increment Graph.forest_of
    Graph.sub_tree_of Graph.subtrees
cuts = refl

received_removal-sends_example :
    (doc : Opened) × (opened.current ≡ some doc)
    × (cut.sent ≡ opened.sent ++ node_message impl retracted doc.id (ball 4) 9 ∷ [])
received_removal-sends_example = received_removal-sends impl 0 3 9 2 (ball 4) 8 opened cut cuts
