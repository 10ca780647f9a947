-- ===== src/Tests/Clients/Replicas.antt =====
-- A peer that gets the messages of a client.
use structur3d.Prelude.{for_each, ◌≡◌, refl, [], ◌∷◌, ok, false}
use structur3d.Platform.Memory.{memory, whole}
use structur3d.Db.Rows.{is_deleted, new_row}
use structur3d.Db.State
use structur3d.Db.State.{Db, connect_i, connect_row}
use structur3d.Wire.Message.{asserted}
use structur3d.Wire.Client.{receive}
use structur3d.World.{World}
use structur3d.Vm.Interactors.{db_interactor, document_interactor, edge_message}
use structur3d.Vm.Replica.{Changes, stop, nodes_connected, Changes-replicate}
use structur3d.Tests.Clients.{impl, balls_db, client, opened}

-- The client after it connected 4 to 1 at 6.
abbrev linked : World whole (Db memory)
linked = record client {
  db = record balls_db { edge = new_row false 6 "uuuu" "u" ∷ new_row false 1 "u" "uuuu" ∷ [] };
  sent = edge_message impl asserted 4 1 6 ∷ [];
}

links : (document_interactor impl).connect 4 1 6 client ≡ ok linked
unfolding document_interactor db_interactor State.connect connect_i connect_row is_deleted
links = refl

-- A peer with the same store that has opened the document.
abbrev peer : World whole (Db memory)
peer = opened

Changes-replicate_example :
    (v' : World whole (Db memory)) × (for_each
        (edge_message impl asserted 4 1 6 ∷ [])
        (receive (db_interactor impl))
        peer
      ≡ ok v')
    × (v'.db ≡ linked.db)
Changes-replicate_example =
    Changes-replicate impl client linked peer
      (Changes.after client linked linked (nodes_connected 4 1 6 links) (stop linked)) refl
      (edge_message impl asserted 4 1 6 ∷ []) refl
