-- ===== src/Vm/Network.antt =====
-- `makeNetworkInteractor` of src/vm/ViewmodelImpl.cpp: what arrives changes the store and the open
-- document.
use structur3d.Prelude.{ℕ, Option, none, some, Outcome, ok, ◌>>=◌, ◌==◌, if◌then◌else◌}
use structur3d.Platform.{Floats}
use structur3d.Data.{Uid, Timestamp, Attribute, coord, radius, set_operation_type, name}
use structur3d.Graph
use structur3d.Graph.{Ptr}
use structur3d.World.{Document, World, Interactor}
use structur3d.Document.{on_graph, on_nodes, set_coord, set_radius, set_type, remove_node}
use structur3d.Db.Interface.{Database}
use structur3d.Vm.Interactors.{db_interactor, document_interactor}

module _ {f : Floats} {S : Type 0} where
  -- Only `create` asks whether a document is open, and whether it is the one of the message.
  unfoldable pub network_create : Ptr → Uid → Option Document → World f S → Outcome (World f S)
  network_create node document none w = ok w
  network_create node document (some doc) w =
      if doc.id == document then on_graph (λ _ g. ok (Graph.create g node)) w else ok w

  unfoldable pub network_update : Uid → Attribute f → World f S → Outcome (World f S)
  unfolding set_coord set_radius set_type
  network_update entity (coord c) = on_nodes entity (set_coord c)
  network_update entity (radius r) = on_nodes entity (set_radius r)
  network_update entity (set_operation_type t) = on_nodes entity (set_type t)
  network_update entity (name n) = λ w. ok w

  -- `fresh` is the uid of a new edge; `clock` and `fuel` are for the call of the document's `remove`,
  -- which removes from the store once more and sends a message of its own.
  unfoldable pub network_interactor : Database f S → (fresh fuel : ℕ) → Timestamp → Interactor f S
  unfolding network_create network_update remove_node db_interactor document_interactor
  network_interactor d fresh fuel clock = record {
    create = λ node document now w. (db_interactor d).create node document now w >>= λ w'.
        network_create node document w'.current w';
    connect = λ from to now w.
        (db_interactor d).connect from to now w
        >>= on_graph (λ store g. Graph.connect store g fresh from to);
    upsert = λ entity attribute now w.
        (db_interactor d).upsert entity attribute now w >>= network_update entity attribute;
    remove = λ node document now w.
        (db_interactor d).remove node document now w
        >>= remove_node (document_interactor d) fuel clock node;
    disconnect = λ from to now w.
        (db_interactor d).disconnect from to now w
        >>= on_graph (λ store g. ok (Graph.disconnect store g from to));
  }
