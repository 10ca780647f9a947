-- ===== src/Vm/Concurrent.antt =====
-- Two clients over tables that change attributes at the same time, and then exchange their messages.
use structur3d.Prelude.{
  ℕ, ◌≡◌, refl, sym, ◌∙◌, ap, subst, inl, inr, some, Bool-cases, List, [], ◌∷◌, ◌++◌, map, pick, In,
  In-append, In-pick_iff, Outcome, ok, >>=-eq-ok, ok-injective, for_each, for_each-append,
  for_each-view, arith, All, All-append, In-All, append_assoc, append-nil,
}
use structur3d.Platform.{Platform, IsSql, rows}
use structur3d.Data.{Uid, Timestamp, Attribute, coord, radius, set_operation_type, name}
use structur3d.Wire.Message.{Message}
use structur3d.Wire.Client.{receive}
use structur3d.World.{World, on_db, send}
use structur3d.Db.Rows.{Row}
use structur3d.Db.State.{Db, upsert_radius}
use structur3d.Db.Interface.{database_impl}
use structur3d.Db.Queries.Names.{IsText}
use structur3d.Db.Upserts.{
  Upsert, moved, resized, retyped, named, perform, IsAccepted, AllAccepted, as_naming,
}
use structur3d.Db.Queries.NameHistory.{Naming}
use structur3d.Db.Upserts.Converge.{Agree, upserts_converge}
use structur3d.Vm.Interactors.{
  db_upsert, document_interactor, db_interactor, update_message, send_update,
}
use structur3d.Vm.Network.{network_interactor, network_update}
use structur3d.Vm.Leaves.{on_db-then, send-LeavesDb, network_update-LeavesDb}

module _ {p : Platform} where
  abbrev pub entity_of : Upsert p → Uid
  entity_of (moved m) = m.entity
  entity_of (resized r) = r.entity
  entity_of (retyped t) = t.entity
  entity_of (named n) = n.entity

  abbrev pub attribute_of : Upsert p → Attribute p.floats
  attribute_of (moved m) = coord m.coord
  attribute_of (resized r) = radius r.radius
  attribute_of (retyped t) = set_operation_type t.type
  attribute_of (named n) = name n.name

  abbrev pub time_of : Upsert p → Timestamp
  time_of (moved m) = m.timestamp
  time_of (resized r) = r.timestamp
  time_of (retyped t) = t.timestamp
  time_of (named n) = n.timestamp

  -- Names are not sent.
  abbrev pub IsShared : Upsert p → Type 0
  IsShared (named n) = ⊥
  IsShared _ = Unit

  -- The user's change of an attribute, and its message.
  abbrev pub edit : Upsert p → World p.floats (Db p) → Outcome (World p.floats (Db p))
  edit u = (document_interactor (database_impl p)).upsert (entity_of u) (attribute_of u) (time_of u)

  abbrev pub message_of : Upsert p → Message p.floats
  message_of u = update_message (database_impl p) (entity_of u) (attribute_of u) (time_of u)

  db_upsert-perform :
      (u : Upsert p) (w : World p.floats (Db p))
      → db_upsert (database_impl p) (entity_of u) (attribute_of u) (time_of u) w
        ≡ on_db (perform u) w
  unfolding db_upsert
  db_upsert-perform (moved m) w = refl
  db_upsert-perform (resized r) w = refl
  db_upsert-perform (retyped t) w = refl
  db_upsert-perform (named n) w = refl

  send_update-shared :
      (u : Upsert p) (w : World p.floats (Db p))
      → IsShared u
      → send_update (database_impl p) (entity_of u) (attribute_of u) (time_of u) w
        ≡ send (message_of u) w
  unfolding send_update
  send_update-shared (moved m) w shared = refl
  send_update-shared (resized r) w shared = refl
  send_update-shared (retyped t) w shared = refl
  send_update-shared (named n) w shared = absurd shared

  edit-called :
      (u : Upsert p) (w w' : World p.floats (Db p))
      → IsShared u
      → edit u w ≡ ok w'
      → (perform u w.db ≡ ok w'.db) × (w'.sent ≡ w.sent ++ message_of u ∷ [])
  unfolding document_interactor db_interactor
  edit-called u w w' shared h =
      let d = database_impl p in
      let (v, called, sent) =
        >>=-eq-ok (db_upsert d (entity_of u) (attribute_of u) (time_of u) w)
          (send_update d (entity_of u) (attribute_of u) (time_of u)) h in
      let called' : on_db (perform u) w ≡ ok v = sym (db_upsert-perform u w) ∙ called in
      let sent' : send (message_of u) v ≡ ok w' = sym (send_update-shared u v shared) ∙ sent in
      let (db, _, done) = >>=-eq-ok (perform u w.db) (λ db. ok (record w { db = db })) called' in
      (
        on_db-then (perform u) (send (message_of u)) w w' (send-LeavesDb λ _. message_of u)
            (rw called' sent'),
        sym (ap (λ (x : World p.floats (Db p)). x.sent) (ok-injective sent'))
            ∙ ap (λ (x : World p.floats (Db p)). x.sent ++ message_of u ∷ [])
                (sym (ok-injective done)),
      )

  edits-called :
      (us : List (Upsert p)) (w w' : World p.floats (Db p))
      → All IsShared us
      → for_each us edit w ≡ ok w'
      → (for_each us perform w.db ≡ ok w'.db) × (w'.sent ≡ w.sent ++ map message_of us)
  edits-called [] w w' shared h = (
    ap ok (ap (λ (x : World p.floats (Db p)). x.db) (ok-injective h)),
    sym (ap (λ (x : World p.floats (Db p)). x.sent) (ok-injective h)) ∙ sym (append-nil w.sent),
  )
  edits-called (u ∷ us) w w' (here, shared) h =
      let (v, first, rest) = >>=-eq-ok (edit u w) (for_each us edit) h in
      let (called, sent) = edit-called u w v here first in
      let (called', sent') = edits-called us v w' shared rest in
      (
        rw called called',
        sent'
            ∙ (ap (λ (s : List (Message p.floats)). s ++ map message_of us) sent
                ∙ append_assoc w.sent (message_of u ∷ []) (map message_of us)),
      )

  received-called :
      (fresh fuel : ℕ) (clock : Timestamp) (u : Upsert p) (w w' : World p.floats (Db p))
      → receive (network_interactor (database_impl p) fresh fuel clock) (message_of u) w ≡ ok w'
      → perform u w.db ≡ ok w'.db
  unfolding receive network_interactor db_interactor
  received-called fresh fuel clock u w w' h =
      on_db-then (perform u) (network_update (entity_of u) (attribute_of u)) w w'
        (network_update-LeavesDb (entity_of u) (attribute_of u)) (rw (db_upsert-perform u w) at h)

  -- A call that comes back was accepted.
  perform-IsAccepted : (u : Upsert p) (db db' : Db p) → perform u db ≡ ok db' → IsAccepted u
  unfolding upsert_radius
  perform-IsAccepted (moved m) db db' h = tt
  perform-IsAccepted (resized r) db db' h =
      elim (Bool-cases (p.le p.zero_f (p.stored r.radius.magnitude))) [
        | inl fits ↦ fits
        | inr fails ↦ let bad = rw (fails, upsert_radius) at h in absurd (cc)
      ]
  perform-IsAccepted (retyped t) db db' h = tt
  perform-IsAccepted (named n) db db' h = tt

  performed-AllAccepted :
      (us : List (Upsert p)) (db db' : Db p) → for_each us perform db ≡ ok db' → AllAccepted us
  performed-AllAccepted [] db db' h u i = absurd i
  performed-AllAccepted (x ∷ us) db db' h u i =
      let (mid, first, rest) = >>=-eq-ok (perform x db) (for_each us perform) h in
      elim i [
        | inl same ↦ subst IsAccepted (sym same) (perform-IsAccepted x db mid first)
        | inr j ↦ performed-AllAccepted us mid db' rest u j
      ]

  IsShared-no_name : (u : Upsert p) (n : Naming) → IsShared u → ¬ (as_naming u ≡ some n)
  IsShared-no_name (moved m) n shared h = cc
  IsShared-no_name (resized r) n shared h = cc
  IsShared-no_name (retyped t) n shared h = cc
  IsShared-no_name (named x) n shared h = absurd shared

  no_names : (us : List (Upsert p)) (n : Naming) → All IsShared us → ¬ In n (pick as_naming us)
  no_names us n shared i =
      let (u, j, e) = (In-pick_iff as_naming n us).0 i in
      IsShared-no_name u n (In-All IsShared us u shared j) e

module _ {p : Platform} (laws : IsSql p.sql) (fresh fuel : ℕ) (clock : Timestamp) where
  -- What arrives at a client of the tables.
  abbrev pub get : Message p.floats → World p.floats (Db p) → Outcome (World p.floats (Db p))
  get = receive (network_interactor (database_impl p) fresh fuel clock)

  -- Two clients with the same tables change attributes, each by itself, and send them; then each gets all
  -- messages that the other has sent. Where all of it comes back, and the names in the tables are texts, their
  -- tables agree: on the last writes of coordinates, radii and types of every entity, on the names, and
  -- on edges and documents. The changes may be of the same attributes of the same entities, at any times.
  pub concurrent_clients :
      (us vs : List (Upsert p)) (w w' w'' v v' v'' : World p.floats (Db p))
      → All IsShared us
      → All IsShared vs
      → ((r : Row (List ℕ)) → In r (rows p.sql w.db.name) → IsText r.value)
      → v.db ≡ w.db
      → for_each us edit w ≡ ok w'
      → for_each vs edit v ≡ ok v'
      → for_each (map message_of vs) get w' ≡ ok w''
      → for_each (map message_of us) get v' ≡ ok v''
      → (w'.sent ≡ w.sent ++ map message_of us)
        × (v'.sent ≡ v.sent ++ map message_of vs)
        × Agree laws w''.db v''.db
  concurrent_clients us vs w w' w'' v v' v'' shared shared' texts same mine others got given =
      let (called, sent) = edits-called us w w' shared mine in
      let (called', sent') = edits-called vs v v' shared' others in
      let view = λ (x : World p.floats (Db p)). x.db in
      let heard =
        for_each-view message_of view get perform (received-called fresh fuel clock) vs w' w''
          got in
      let heard' =
        for_each-view message_of view get perform (received-called fresh fuel clock) us v' v''
          given in
      let first = for_each-append us vs perform w.db w'.db w''.db called heard in
      let second = for_each-append vs us perform w.db v'.db v''.db (rw (← same) called') heard' in
      let (a, b, left, right, agree, _, _) =
        upserts_converge laws w.db (us ++ vs) (vs ++ us)
          (performed-AllAccepted (us ++ vs) w.db w''.db first)
          (record {
            called =
                λ n i. absurd (no_names (us ++ vs) n (All-append IsShared us vs shared shared') i);
            stored = texts;
          })
          (λ x. ground (arith, In-append x us vs, In-append x vs us)) in
      let one : a ≡ w''.db = ok-injective (sym left ∙ first) in
      let two : b ≡ v''.db = ok-injective (sym right ∙ second) in
      (sent, sent', rw (one, two) at agree)
