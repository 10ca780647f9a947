-- ===== src/Tests/Clients/Concurrent.antt =====
-- Two clients that have the same document open and move the same sphere.
use structur3d.Prelude.{◌≡◌, refl, [], ◌∷◌, ◌++◌, map, List, ok, for_each}
use structur3d.Platform.Memory.{memory, whole, list_engine-IsSql}
use structur3d.Db.Rows.{is_deleted, upsert_row, collect_garbage}
use structur3d.Db.State.{Db, upsert_coord, upsert_radius, upsert_i_coord, upsert_i_radius}
use structur3d.Db.Upserts.{Upsert, moved, resized}
use structur3d.Db.Upserts.Converge.{Agree}
use structur3d.Graph.{access, access_loop}
use structur3d.World.{World}
use structur3d.Document.{set_coord, set_radius}
use structur3d.Wire.Client.{receive}
use structur3d.Vm.Interactors.{document_interactor, db_interactor, db_upsert, send_update}
use structur3d.Vm.Network.{network_interactor, network_update}
use structur3d.Vm.Concurrent.{edit, message_of, get, concurrent_clients}
use structur3d.Tests.Clients.{opened, at_x, of_size}
use structur3d.Tests.Clients.Sessions.{value_or}

-- The one client moves the sphere 1 at 5 and gives it another size; the other one moves it at 7.
abbrev mine : List (Upsert memory)
mine =
    moved (record { entity = 1; coord = at_x 6; timestamp = 5 })
    ∷ resized (record { entity = 1; radius = of_size 2; timestamp = 6 })
    ∷ []

abbrev theirs : List (Upsert memory)
theirs = moved (record { entity = 1; coord = at_x 8; timestamp = 7 }) ∷ []

abbrev changed : List (Upsert memory) → World whole (Db memory)
changed us = value_or opened (for_each us edit opened)

abbrev exchanged : List (Upsert memory) → List (Upsert memory) → World whole (Db memory)
exchanged us vs =
    value_or opened
      (for_each (map message_of vs) (get {p = memory} list_engine-IsSql 0 3 9) (changed us))

changes_mine : for_each mine edit opened ≡ ok (changed mine)
unfolding document_interactor db_interactor db_upsert send_update upsert_coord upsert_radius
    upsert_i_coord upsert_i_radius upsert_row collect_garbage is_deleted
changes_mine = refl

changes_theirs : for_each theirs edit opened ≡ ok (changed theirs)
unfolding document_interactor db_interactor db_upsert send_update upsert_coord upsert_radius
    upsert_i_coord upsert_i_radius upsert_row collect_garbage is_deleted
changes_theirs = refl

gets_theirs :
    for_each (map message_of theirs) (get {p = memory} list_engine-IsSql 0 3 9) (changed mine)
    ≡ ok (exchanged mine theirs)
unfolding receive network_interactor network_update access access_loop set_coord set_radius
    document_interactor db_interactor db_upsert send_update upsert_coord upsert_radius
    upsert_i_coord upsert_i_radius upsert_row collect_garbage is_deleted
gets_theirs = refl

gets_mine :
    for_each (map message_of mine) (get {p = memory} list_engine-IsSql 0 3 9) (changed theirs)
    ≡ ok (exchanged theirs mine)
unfolding receive network_interactor network_update access access_loop set_coord set_radius
    document_interactor db_interactor db_upsert send_update upsert_coord upsert_radius
    upsert_i_coord upsert_i_radius upsert_row collect_garbage is_deleted
gets_mine = refl

concurrent_clients_example :
    ((changed mine).sent ≡ opened.sent ++ map message_of mine)
    × ((changed theirs).sent ≡ opened.sent ++ map message_of theirs)
    × Agree {p = memory} list_engine-IsSql (exchanged mine theirs).db (exchanged theirs mine).db
concurrent_clients_example =
    concurrent_clients {p = memory} list_engine-IsSql 0 3 9 mine theirs opened (changed mine)
      (exchanged mine theirs) opened (changed theirs) (exchanged theirs mine) (tt, (tt, tt))
      (tt, tt) (λ r i. absurd i) refl changes_mine changes_theirs gets_theirs gets_mine
