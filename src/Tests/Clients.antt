-- ===== src/Tests/Clients.antt =====
-- Clients over stores of tables: what is sent, and an open document.
mod Sessions
mod InStep
mod Concurrent
mod Replicas
mod Reopening
use structur3d.Prelude.{
  for_each, arith, ℕ, ◌+◌, ◌≡◌, refl, some, none, [], ◌∷◌, ◌++◌, ok, abort, true, false, ◌==◌,
  if◌then◌else◌,
}
use structur3d.Platform.Memory.{memory, whole}
use structur3d.Data.{Coord, Radius, Node, SetOp, union, radius, make_radius, setop}
use structur3d.Data.Codes.{distance_from_origin, from_integral}
use structur3d.Db.Rows.{is_deleted, max_timestamp, last_writer_wins_timestamp, new_row, latest}
use structur3d.Db.State
use structur3d.Db.State.{Db, connect_i, connect_row}
use structur3d.Db.Queries
use structur3d.Db.Queries.{
  sphere, sphere_of, max_radius, farthest, is_alive, any_alive, latest_edges, newest_edge,
  alive_among, entities, typed,
}
use structur3d.Db.Interface.{Database, database_impl}
use structur3d.Graph
use structur3d.Graph.{Ptr, Store, Edge, Graph, make_edge, id_at, tree, nil, cons, find_ends}
use structur3d.Wire.Message.{Message, asserted}
use structur3d.Wire.Client.{receive}
use structur3d.World.{World, on_db}
use structur3d.Document
use structur3d.Vm.Interactors.{db_interactor, document_interactor, edge_message}
use structur3d.Vm.Open.{
  open_document, load_nodes, load_node, push_node, load_edges, edges_from, edges_to,
}
use structur3d.Vm.Replication.{Relays, changes-Relays}
use structur3d.Vm.Disconnections.{disconnect_relays_connect}
use structur3d.Document.Invariant.{IsOpen}
use structur3d.Document.Edits.{Edits, edge_removed, done, next}
use structur3d.Vm.Detached.{open_document-Edits-IsOpen}
use structur3d.Vm.Replica.{Changes, stop, nodes_connected, Changes-replicate}
use structur3d.Vm.Network.{network_interactor}
use structur3d.Vm.Handlers.{HoldsGraph}
use structur3d.Vm.Session.{Session, Event, arrived, after, closed, open_document-Session}
use structur3d.Vm.Graphs.{HasOpened, open_document-HasOpened}

abbrev pub impl : Database whole (Db memory)
impl = database_impl memory

abbrev pub at_x : ℕ → Coord whole
at_x n = record { x = n; y = 0; z = 0 }

abbrev pub of_size : ℕ → Radius whole
of_size n = record { magnitude = n }

abbrev pub ball : ℕ → Node whole
ball n = Node.sphere (record { uid = n; coord = at_x 3; radius = of_size 5 })

-- The document 2 holds the spheres 1 and 4, with an edge from 1 to 4.
abbrev pub balls_db : Db memory
balls_db = record {
  edge = new_row false 1 "u" "uuuu" ∷ [];
  radius = new_row false 1 "u" 5 ∷ new_row false 1 "uuuu" 5 ∷ [];
  coord = new_row false 1 "u" (at_x 3) ∷ new_row false 1 "uuuu" (at_x 3) ∷ [];
  setoperationtype = [];
  document =
      new_row false 1 "u" (record { type = 0; document = "uu" })
      ∷ new_row false 1 "uuuu" (record { type = 0; document = "uu" })
      ∷ [];
  name = [];
}

-- A client with that store. At the address 9 lives a set operation.
abbrev pub joined : SetOp
joined = record { uid = 9; type = union }

abbrev pub some_nodes : Store whole
some_nodes p = if p == 9 then setop joined else ball p

abbrev pub client : World whole (Db memory)
client = record {
  db = balls_db;
  sent = [];
  store = some_nodes;
  next = 20;
  current = none;
  documents = [];
}

changes-Relays_example :
    Relays impl ((document_interactor impl).create 3 2 6)
    × Relays impl ((document_interactor impl).remove 3 2 6)
    × Relays impl ((document_interactor impl).connect 4 1 6)
    × Relays impl ((document_interactor impl).upsert 1 (radius (of_size 8)) 6)
changes-Relays_example = changes-Relays impl 3 2 4 1 1 (radius (of_size 8)) 6 tt

-- The client after it disconnected 1 and 4 at 6.
abbrev disconnected : World whole (Db memory)
disconnected = record client {
  db = record balls_db { edge = new_row true 6 "u" "uuuu" ∷ [] };
  sent = edge_message impl asserted 1 4 6 ∷ [];
}

disconnects : (document_interactor impl).disconnect 1 4 6 client ≡ ok disconnected
unfolding document_interactor db_interactor State.disconnect connect_i connect_row is_deleted
disconnects = refl

disconnect_relays_connect_example :
    (m : Message whole) × (disconnected.sent ≡ [] ++ m ∷ [])
    × (impl.disconnect balls_db 1 4 6 ≡ ok disconnected.db)
    × ((v : World whole (Db memory))
        → receive (db_interactor impl) m v ≡ on_db (λ db. impl.connect db 1 4 6) v)
disconnect_relays_connect_example =
    disconnect_relays_connect impl 1 4 6 client disconnected disconnects

-- The client after it opened the document 2.
abbrev pub opened : World whole (Db memory)
opened = record client {
  store = Graph.update (Graph.update some_nodes 20 (ball 1)) 21 (ball 4);
  next = 22;
  current = some (record {
    id = 2;
    graph = record { edges = record { uid = 100; from = 20; to = 21 } ∷ []; nodes = 20 ∷ 21 ∷ [] };
    jobs = [];
  });
}

pub opens : open_document impl (λ n. n + 100) 2 client ≡ ok opened
unfolding open_document load_nodes load_node push_node load_edges edges_from edges_to make_edge
    entities typed from_integral sphere sphere_of max_radius farthest make_radius latest
    last_writer_wins_timestamp max_timestamp is_deleted distance_from_origin Queries.edges
    alive_among is_alive any_alive latest_edges newest_edge
opens = refl
