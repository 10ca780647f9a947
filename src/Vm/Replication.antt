-- ===== src/Vm/Replication.antt =====
-- What a peer's store becomes when it handles the messages that a change of a document sends.
use structur3d.Prelude.{
  ◌≡◌, refl, sym, ap, inl, inr, ◌∙◌, [], ◌∷◌, ◌++◌, Outcome, ok, abort, ◌>>=◌, arith, Outcome-cases,
}
use structur3d.Platform.{Floats}
use structur3d.Data.{Uid, Timestamp, Node, Attribute, coord, radius, set_operation_type, name}
use structur3d.Graph.{Ptr, update}
use structur3d.Wire.Message.{asserted, retracted, Message}
use structur3d.Wire.Client.{receive}
use structur3d.World.{World, on_db, send, allocate}
use structur3d.Db.Interface.{Database}
use structur3d.Vm.Interactors.{
  db_create_node, db_remove_node, db_interactor, node_message, edge_message, update_message,
  document_interactor,
}
use structur3d.Vm.StoreCalls.{create_call, db_create_node-on_db, remove_call, db_remove_node-on_db}

-- Whether the attribute is sent at all: all but names are.
abbrev pub IsSent : {f : Floats} → Attribute f → Type 0
IsSent (name n) = ⊥
IsSent _ = Unit

module _ {f : Floats} {S : Type 0} where
  -- The action sends one message. A peer with the same store that handles the message by calls of its
  -- store alone comes to the same store as the sender.
  abbrev pub Relays : Database f S → (World f S → Outcome (World f S)) → Type 0
  Relays d act =
      (w w' : World f S)
      → act w ≡ ok w'
      → (m : Message f) × (w'.sent ≡ w.sent ++ m ∷ [])
        × ((v : World f S)
            → v.db ≡ w.db
            → (v' : World f S) × (receive (db_interactor d) m v ≡ ok v') × (v'.db ≡ w'.db))

  -- An action that is a call of the store and then a message, where the peer makes the same call.
  relay :
      (d : Database f S) (call : S → Outcome S) (m : Message f)
      (act : World f S → Outcome (World f S)) (w w' : World f S)
      → act w ≡ (on_db call w >>= send m)
      → ((v : World f S)
          → (u : World f S) × (u.db ≡ v.db) × (receive (db_interactor d) m v ≡ on_db call u))
      → act w ≡ ok w'
      → (m : Message f) × (w'.sent ≡ w.sent ++ m ∷ [])
        × ((v : World f S)
            → v.db ≡ w.db
            → (v' : World f S) × (receive (db_interactor d) m v ≡ ok v') × (v'.db ≡ w'.db))
  relay d call m act w w' is_call peer h = elim (Outcome-cases (call w.db)) [
    | inl e ↦ let bad : abort ≡ ok w' = sym (rw (e, ◌>>=◌) at is_call) ∙ h in absurd (cc)
    | inr (db, e) ↦
        let done : ok (record w { db = db; sent = w.sent ++ m ∷ [] }) ≡ ok w' =
          sym (rw (e, ◌>>=◌) at is_call) ∙ h in
        (
          m,
          ground arith,
          λ v same.
              let (u, unchanged, call_eq) = peer v in
              let here : call u.db ≡ ok db = ap call (unchanged ∙ same) ∙ e in
              (record u { db = db }, call_eq ∙ rw (here, ◌>>=◌), ground arith),
        )
  ]

  on_db-send :
      (call : S → Outcome S) (message : Node f → Message f) (ptr : Ptr) (w : World f S)
      → (on_db call w >>= λ w'. send (message (w'.store ptr)) w')
        ≡ (on_db call w >>= send (message (w.store ptr)))
  on_db-send call message ptr w = elim (Outcome-cases (call w.db)) [
    | inl e ↦ rw (e, ◌>>=◌)
    | inr (db, e) ↦ rw (e, ◌>>=◌)
  ]

  pub update_self : (w : World f S) (nd : Node f) → update w.store w.next nd w.next ≡ nd
  update_self w nd = ground arith

  pub create-Relays :
      (d : Database f S) (ptr : Ptr) (document : Uid) (now : Timestamp)
      → Relays d ((document_interactor d).create ptr document now)
  unfolding document_interactor receive
  create-Relays d ptr document now w w' =
      let nd = w.store ptr in
      let call = create_call d nd document now in
      relay d call (node_message d asserted document nd now)
        ((document_interactor d).create ptr document now) w w'
        (ap (λ m. m >>= λ w'. send (node_message d asserted document (w'.store ptr) now) w')
            (db_create_node-on_db d nd document now w)
          ∙ on_db-send call (λ nd. node_message d asserted document nd now) ptr w)
        λ v. (
          allocate nd v,
          refl,
          ap (λ n. db_create_node d n document now (allocate nd v)) (update_self v nd)
              ∙ db_create_node-on_db d nd document now (allocate nd v),
        )

  pub remove-Relays :
      (d : Database f S) (ptr : Ptr) (document : Uid) (now : Timestamp)
      → Relays d ((document_interactor d).remove ptr document now)
  unfolding document_interactor receive
  remove-Relays d ptr document now w w' =
      let nd = w.store ptr in
      let call = remove_call d nd document now in
      relay d call (node_message d retracted document nd now)
        ((document_interactor d).remove ptr document now) w w'
        (ap (λ m. m >>= λ w'. send (node_message d retracted document (w'.store ptr) now) w')
            (db_remove_node-on_db d nd document now w)
          ∙ on_db-send call (λ nd. node_message d retracted document nd now) ptr w)
        λ v. (
          allocate nd v,
          refl,
          ap (λ n. db_remove_node d n document now (allocate nd v)) (update_self v nd)
              ∙ db_remove_node-on_db d nd document now (allocate nd v),
        )

  pub connect-Relays :
      (d : Database f S) (from to : Uid) (now : Timestamp)
      → Relays d ((document_interactor d).connect from to now)
  unfolding document_interactor receive
  connect-Relays d from to now w w' =
      relay d (λ db. d.connect db from to now) (edge_message d asserted from to now)
        ((document_interactor d).connect from to now) w w' refl λ v. (v, refl, refl)

  pub upsert-Relays :
      (d : Database f S) (entity : Uid) (attribute : Attribute f) (now : Timestamp)
      → IsSent attribute
      → Relays d ((document_interactor d).upsert entity attribute now)
  unfolding document_interactor receive
  upsert-Relays d entity (coord c) now sent w w' =
      relay d (λ db. d.upsert_coord db entity c now) (update_message d entity (coord c) now)
        ((document_interactor d).upsert entity (coord c) now) w w' refl λ v. (v, refl, refl)
  upsert-Relays d entity (radius r) now sent w w' =
      relay d (λ db. d.upsert_radius db entity r now) (update_message d entity (radius r) now)
        ((document_interactor d).upsert entity (radius r) now) w w' refl λ v. (v, refl, refl)
  upsert-Relays d entity (set_operation_type t) now sent w w' =
      relay d (λ db. d.upsert_set_operation_type db entity t now)
        (update_message d entity (set_operation_type t) now)
        ((document_interactor d).upsert entity (set_operation_type t) now) w w' refl
        λ v. (v, refl, refl)
  upsert-Relays d entity (name n) now sent w w' = absurd sent

  -- Over any store, each of these changes through the document's interactor sends one message, and a
  -- peer with the same store that handles it by calls of its store alone comes to the same store:
  -- creating and removing a node, connecting two, and changing an attribute that is not a name.
  pub changes-Relays :
      (d : Database f S) (ptr : Ptr) (document from to entity : Uid) (attribute : Attribute f)
      (now : Timestamp)
      → IsSent attribute
      → Relays d ((document_interactor d).create ptr document now)
        × Relays d ((document_interactor d).remove ptr document now)
        × Relays d ((document_interactor d).connect from to now)
        × Relays d ((document_interactor d).upsert entity attribute now)
  changes-Relays d ptr document from to entity attribute now sent = (
    create-Relays d ptr document now,
    remove-Relays d ptr document now,
    connect-Relays d from to now,
    upsert-Relays d entity attribute now sent,
  )
