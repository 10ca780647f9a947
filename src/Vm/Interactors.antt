-- ===== src/Vm/Interactors.antt =====
-- `makeDBInteractor` and `makeDocumentInteractor` of src/vm/ViewmodelImpl.cpp.
use structur3d.Prelude.{Outcome, ok, ◌>>=◌}
use structur3d.Platform.{Floats}
use structur3d.Data.{
  Uid, Timestamp, Node, NodeType, Attribute, id, setop, coord, radius, set_operation_type, name,
}
use structur3d.Wire.Message.{Change, asserted, retracted, Message, edge, update, node}
use structur3d.World.{World, Interactor, on_db, send}
use structur3d.Db.Interface.{Database}

module _ {f : Floats} {S : Type 0} (d : Database f S) where
  unfoldable pub db_create_node : Node f → Uid → Timestamp → World f S → Outcome (World f S)
  db_create_node (Node.sphere s) document now w =
      on_db (λ db. d.create db s.uid NodeType.sphere document now) w
      >>= on_db (λ db. d.upsert_radius db s.uid s.radius now)
      >>= on_db (λ db. d.upsert_coord db s.uid s.coord now)
  db_create_node (setop o) document now w =
      on_db (λ db. d.create db o.uid NodeType.set_operation document now) w
      >>= on_db (λ db. d.upsert_set_operation_type db o.uid o.type now)

  unfoldable pub db_upsert : Uid → Attribute f → Timestamp → World f S → Outcome (World f S)
  db_upsert entity (coord c) now w = on_db (λ db. d.upsert_coord db entity c now) w
  db_upsert entity (radius r) now w = on_db (λ db. d.upsert_radius db entity r now) w
  db_upsert entity (set_operation_type t) now w =
      on_db (λ db. d.upsert_set_operation_type db entity t now) w
  db_upsert entity (name n) now w = on_db (λ db. d.upsert_name db entity n now) w

  unfoldable pub db_retract_node : Node f → Timestamp → World f S → Outcome (World f S)
  db_retract_node (Node.sphere s) now w =
      on_db (λ db. d.retract_radius db s.uid s.radius now) w
      >>= on_db (λ db. d.retract_coord db s.uid s.coord now)
  db_retract_node (setop o) now w = on_db (λ db. d.retract_set_operation_type db o.uid o.type now) w

  unfoldable pub db_remove_node : Node f → Uid → Timestamp → World f S → Outcome (World f S)
  unfolding db_retract_node
  db_remove_node nd document now w =
      on_db (λ db. d.remove db (id nd) document now) w >>= db_retract_node nd now

  unfoldable pub db_interactor : Interactor f S
  unfolding db_create_node db_upsert db_remove_node
  db_interactor = record {
    create = λ ptr document now w. db_create_node (w.store ptr) document now w;
    connect = λ from to now w. on_db (λ db. d.connect db from to now) w;
    upsert = db_upsert;
    remove = λ ptr document now w. db_remove_node (w.store ptr) document now w;
    disconnect = λ from to now w. on_db (λ db. d.disconnect db from to now) w;
  }

  -- The message of a node that is created or removed: both kinds of nodes are sent alike.
  abbrev pub node_message : Change → Uid → Node f → Timestamp → Message f
  node_message change document nd now = record {
    payload = node (record { document = document; node = nd; create = change });
    timestamp = now;
  }

  abbrev pub edge_message : Change → Uid → Uid → Timestamp → Message f
  edge_message change from to now = record {
    payload = edge (record { from = from; to = to; deleted = change });
    timestamp = now;
  }

  abbrev pub update_message : Uid → Attribute f → Timestamp → Message f
  update_message entity attribute now = record {
    payload = update (record { uid = entity; attribute = attribute });
    timestamp = now;
  }

  -- Names are not sent.
  unfoldable pub send_update : Uid → Attribute f → Timestamp → World f S → Outcome (World f S)
  send_update entity (coord c) now w = send (update_message entity (coord c) now) w
  send_update entity (radius r) now w = send (update_message entity (radius r) now) w
  send_update entity (set_operation_type t) now w =
      send (update_message entity (set_operation_type t) now) w
  send_update entity (name n) now w = ok w

  -- The message of `disconnect` asserts the edge.
  unfoldable pub document_interactor : Interactor f S
  unfolding db_interactor send_update
  document_interactor = record {
    create = λ ptr document now w. db_interactor.create ptr document now w >>= λ w'.
        send (node_message asserted document (w'.store ptr) now) w';
    connect = λ from to now w.
        db_interactor.connect from to now w >>= send (edge_message asserted from to now);
    upsert = λ entity attribute now w.
        db_interactor.upsert entity attribute now w >>= send_update entity attribute now;
    remove = λ ptr document now w. db_interactor.remove ptr document now w >>= λ w'.
        send (node_message retracted document (w'.store ptr) now) w';
    disconnect = λ from to now w.
        db_interactor.disconnect from to now w >>= send (edge_message asserted from to now);
  }
