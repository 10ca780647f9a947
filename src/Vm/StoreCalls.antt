-- ===== src/Vm/StoreCalls.antt =====
-- What the database's interactor does with a node, as one call of the store.
use structur3d.Prelude.{◌≡◌, ap, inl, inr, ◌∙◌, Outcome, ◌>>=◌, Outcome-cases}
use mathlib.Core.Path.{fun_ext}
use structur3d.Platform.{Floats}
use structur3d.Data.{Uid, Timestamp, Node, NodeType, setop}
use structur3d.World.{World, on_db}
use structur3d.Db.Interface.{Database}
use structur3d.Vm.Interactors.{db_create_node, db_remove_node}

module _ {f : Floats} {S : Type 0} where
  pub on_db-on_db :
      (c c' : S → Outcome S) (w : World f S)
      → (on_db c w >>= on_db c') ≡ on_db (λ db. c db >>= c') w
  on_db-on_db c c' w = elim (Outcome-cases (c w.db)) [
    | inl e ↦ rw (e, ◌>>=◌)
    | inr (db, e) ↦ rw (e, ◌>>=◌)
  ]

  pub create_call : Database f S → Node f → Uid → Timestamp → S → Outcome S
  create_call d (Node.sphere s) document now db =
      d.create db s.uid NodeType.sphere document now
      >>= (λ db. d.upsert_radius db s.uid s.radius now)
      >>= (λ db. d.upsert_coord db s.uid s.coord now)
  create_call d (setop o) document now db =
      d.create db o.uid NodeType.set_operation document now
      >>= (λ db. d.upsert_set_operation_type db o.uid o.type now)

  pub db_create_node-on_db :
      (d : Database f S) (nd : Node f) (document : Uid) (now : Timestamp) (w : World f S)
      → db_create_node d nd document now w ≡ on_db (create_call d nd document now) w
  unfolding db_create_node create_call
  db_create_node-on_db d (Node.sphere s) document now w =
      ap (λ m. m >>= on_db (λ db. d.upsert_coord db s.uid s.coord now))
        (on_db-on_db (λ db. d.create db s.uid NodeType.sphere document now)
          (λ db. d.upsert_radius db s.uid s.radius now) w)
      ∙ on_db-on_db
          (λ db.
            d.create db s.uid NodeType.sphere document now
            >>= (λ db. d.upsert_radius db s.uid s.radius now))
          (λ db. d.upsert_coord db s.uid s.coord now) w
  db_create_node-on_db d (setop o) document now w =
      on_db-on_db (λ db. d.create db o.uid NodeType.set_operation document now)
        (λ db. d.upsert_set_operation_type db o.uid o.type now) w

  pub remove_call : Database f S → Node f → Uid → Timestamp → S → Outcome S
  remove_call d (Node.sphere s) document now db = d.remove db s.uid document now >>= (λ db.
      d.retract_radius db s.uid s.radius now >>= λ db. d.retract_coord db s.uid s.coord now)
  remove_call d (setop o) document now db =
      d.remove db o.uid document now >>= (λ db. d.retract_set_operation_type db o.uid o.type now)

  pub db_remove_node-on_db :
      (d : Database f S) (nd : Node f) (document : Uid) (now : Timestamp) (w : World f S)
      → db_remove_node d nd document now w ≡ on_db (remove_call d nd document now) w
  unfolding db_remove_node remove_call
  db_remove_node-on_db d (Node.sphere s) document now w =
      ap (λ k. on_db (λ db. d.remove db s.uid document now) w >>= k)
        (fun_ext (
          on_db-on_db (λ db. d.retract_radius db s.uid s.radius now)
            (λ db. d.retract_coord db s.uid s.coord now)))
      ∙ on_db-on_db (λ db. d.remove db s.uid document now)
          (λ db.
            d.retract_radius db s.uid s.radius now >>= λ db. d.retract_coord db s.uid s.coord now)
          w
  db_remove_node-on_db d (setop o) document now w =
      on_db-on_db (λ db. d.remove db o.uid document now)
        (λ db. d.retract_set_operation_type db o.uid o.type now) w
