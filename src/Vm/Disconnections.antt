-- ===== src/Vm/Disconnections.antt =====
-- What a peer does with the message that disconnecting two nodes sends.
use structur3d.Prelude.{◌≡◌, refl, inl, inr, [], ◌∷◌, ◌++◌, ok, ◌>>=◌, arith, Outcome-cases}
use structur3d.Platform.{Floats}
use structur3d.Data.{Uid, Timestamp}
use structur3d.Wire.Message.{asserted, Message}
use structur3d.Wire.Client.{receive}
use structur3d.World.{World, on_db}
use structur3d.Db.Interface.{Database}
use structur3d.Vm.Interactors.{db_interactor, edge_message, document_interactor}

module _ {f : Floats} {S : Type 0} where
  -- Disconnecting two nodes, where it comes back, disconnects them in the store and sends one
  -- message, at which a peer that changes its store alone makes the call that connects them.
  pub disconnect_relays_connect :
      (d : Database f S) (from to : Uid) (now : Timestamp) (w w' : World f S)
      → (document_interactor d).disconnect from to now w ≡ ok w'
      → (m : Message f) × (w'.sent ≡ w.sent ++ m ∷ [])
        × (d.disconnect w.db from to now ≡ ok w'.db)
        × ((v : World f S)
            → receive (db_interactor d) m v ≡ on_db (λ db. d.connect db from to now) v)
  unfolding document_interactor receive
  disconnect_relays_connect d from to now w w' h =
      elim (Outcome-cases (d.disconnect w.db from to now)) [
        | inl e ↦ let bad = rw (e, ◌>>=◌) at h in absurd (cc)
        | inr (db, e) ↦
            let m = edge_message d asserted from to now in
            let done : ok (record w { db = db; sent = w.sent ++ m ∷ [] }) ≡ ok w' =
              rw (e, ◌>>=◌) at h in
            (m, ground arith, ground arith, λ v. refl)
      ]
