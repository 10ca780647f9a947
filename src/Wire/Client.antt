-- ===== src/Wire/Client.antt =====
-- src/wire/ClientImpl.cpp. `connect`, `sync` and `send` have no body there.
use structur3d.Prelude.{Outcome, ok}
use structur3d.Platform.{Floats}
use structur3d.Data.{Uid, Timestamp, Node}
use structur3d.Wire.Message.{
  Change, asserted, retracted, Payload, Message, edge, update, node, confirm,
}
use structur3d.World.{World, Interactor, allocate}

module _ {f : Floats} {S : Type 0} (i : Interactor f S) where
  unfoldable pub process_edge : Change → Uid → Uid → Timestamp → World f S → Outcome (World f S)
  process_edge asserted from to t = i.connect from to t
  process_edge retracted from to t = i.disconnect from to t

  -- The two `switch`es of `process(CreateDelete)` are the same for both kinds of nodes.
  unfoldable pub process_create_delete :
      Change → Uid → Node f → Timestamp → World f S → Outcome (World f S)
  process_create_delete asserted document copy t w = i.create w.next document t (allocate copy w)
  process_create_delete retracted document copy t w = i.remove w.next document t (allocate copy w)

  unfoldable pub process_payload : Payload f → Timestamp → World f S → Outcome (World f S)
  unfolding process_edge process_create_delete
  process_payload (edge e) t w = process_edge e.deleted e.from e.to t w
  process_payload (update u) t w = i.upsert u.uid u.attribute t w
  process_payload (node c) t w = process_create_delete c.create c.document c.node t w
  process_payload (confirm c) t w = ok w

  unfoldable pub process : Message f → World f S → Outcome (World f S)
  unfolding process_payload
  process message w = process_payload message.payload message.timestamp w

  unfoldable pub receive : Message f → World f S → Outcome (World f S)
  unfolding process
  receive message w = process message w
