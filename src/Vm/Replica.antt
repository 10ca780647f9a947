-- ===== src/Vm/Replica.antt =====
-- A history of changes at one client, and a peer that gets its messages.
use mathlib.Core.List.{append_cancel_left}
use structur3d.Prelude.{
  ◌≡◌, refl, sym, ◌∙◌, ap, List, [], ◌∷◌, ◌++◌, append_assoc, append-nil, Outcome, ok, for_each,
  for_each-append,
}
use structur3d.Platform.{Floats}
use structur3d.Data.{Uid, Timestamp, Attribute}
use structur3d.Graph.{Ptr}
use structur3d.World.{World}
use structur3d.Db.Interface.{Database}
use structur3d.Wire.Message.{Message}
use structur3d.Wire.Client.{receive}
use structur3d.Vm.Interactors.{db_interactor, document_interactor}
use structur3d.Vm.Replication.{
  IsSent, Relays, create-Relays, remove-Relays, connect-Relays, upsert-Relays,
}

module _ {f : Floats} {S : Type 0} (d : Database f S) where
  -- A call of the document's interactor that comes back, but for `disconnect` and a change of a name; or
  -- something that is between the client and its memory.
  pub data Change (w w' : World f S) : Type 0 where
    node_created :
        (ptr : Ptr) (document : Uid) (now : Timestamp)
        → (document_interactor d).create ptr document now w ≡ ok w'
        → Change w w'
    node_removed :
        (ptr : Ptr) (document : Uid) (now : Timestamp)
        → (document_interactor d).remove ptr document now w ≡ ok w'
        → Change w w'
    nodes_connected :
        (from to : Uid) (now : Timestamp)
        → (document_interactor d).connect from to now w ≡ ok w'
        → Change w w'
    attribute_changed :
        (entity : Uid) (a : Attribute f) (now : Timestamp)
        → IsSent a
        → (document_interactor d).upsert entity a now w ≡ ok w'
        → Change w w'
    memory_changed : w'.db ≡ w.db → w'.sent ≡ w.sent → Change w w'

  pub data Changes : World f S → World f S → Type 0 where
    stop : (w : World f S) → Changes w w
    after : (w u v : World f S) → Change w u → Changes u v → Changes w v

  -- The messages were sent on the way from the one client to the other, and a peer with the store of the
  -- one comes to the store of the other.
  record Follows (w w' : World f S) : Type 0 where
    messages : List (Message f)
    sent : w'.sent ≡ w.sent ++ messages
    handled :
        (v : World f S)
        → v.db ≡ w.db
        → (v' : World f S) × (for_each messages (receive (db_interactor d)) v ≡ ok v')
          × (v'.db ≡ w'.db)

  relayed :
      (act : World f S → Outcome (World f S)) (w w' : World f S)
      → Relays d act
      → act w ≡ ok w'
      → Follows w w'
  relayed act w w' relays h =
      let (m, sent, peer) = relays w w' h in
      record {
        messages = m ∷ [];
        sent = sent;
        handled = λ v same. let (v', received, db) = peer v same in (v', rw received refl, db);
      }

  Change-Follows : (w w' : World f S) → Change w w' → Follows w w'
  Change-Follows w w' (node_created ptr document now h) =
      relayed _ w w' (create-Relays d ptr document now) h
  Change-Follows w w' (node_removed ptr document now h) =
      relayed _ w w' (remove-Relays d ptr document now) h
  Change-Follows w w' (nodes_connected from to now h) =
      relayed _ w w' (connect-Relays d from to now) h
  Change-Follows w w' (attribute_changed entity a now is_sent h) =
      relayed _ w w' (upsert-Relays d entity a now is_sent) h
  Change-Follows w w' (memory_changed db sent) = record {
    messages = [];
    sent = sent ∙ sym (append-nil w.sent);
    handled = λ v same. (v, refl, same ∙ sym db);
  }

  Changes-Follows : (w w' : World f S) → Changes w w' → Follows w w'
  Changes-Follows w _ (stop _) = record {
    messages = [];
    sent = sym (append-nil w.sent);
    handled = λ v same. (v, refl, same);
  }
  Changes-Follows w w' (after _ u _ change rest) =
      let first = Change-Follows w u change in
      let later = Changes-Follows u w' rest in
      record {
        messages = first.messages ++ later.messages;
        sent =
            later.sent
            ∙ (ap (λ s. s ++ later.messages) first.sent
                ∙ append_assoc w.sent first.messages later.messages);
        handled = λ v same.
            let (t, handled_first, db) = first.handled v same in
            let (v', handled_later, db') = later.handled t db in
            (
              v',
              for_each-append first.messages later.messages (receive (db_interactor d)) v t v'
                  handled_first handled_later,
              db',
            );
      }

  -- After any history of changes at a client, a peer that had the same store and handles the messages
  -- that the client sent, in order and by calls of its store alone, comes to the client's store. The
  -- changes are: creating and removing nodes, connecting two, changing an attribute that is not a
  -- name, and anything between the client and its memory that neither touches the store nor sends.
  pub Changes-replicate :
      (w w' v : World f S)
      → Changes w w'
      → v.db ≡ w.db
      → (ms : List (Message f)) → w'.sent ≡ w.sent ++ ms
      → (v' : World f S) × (for_each ms (receive (db_interactor d)) v ≡ ok v') × (v'.db ≡ w'.db)
  Changes-replicate w w' v changes same ms sent =
      let follows = Changes-Follows w w' changes in
      let equal : follows.messages ≡ ms =
        append_cancel_left w.sent follows.messages ms (sym follows.sent ∙ sent) in
      let (v', handled, db) = follows.handled v same in (v', rw equal at handled, db)
