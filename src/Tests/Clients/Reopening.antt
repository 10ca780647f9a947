-- ===== src/Tests/Clients/Reopening.antt =====
-- A store that calls lead to, and one that an edge locks.
use structur3d.Prelude.{ℕ, In, ◌≡◌, ◌≢◌, refl, some, inl, inr, Outcome, ok, abort, arith}
use structur3d.Platform.Memory.{memory, whole, list_engine-IsSql, letter_uuids-IsCodec}
use structur3d.Data.{NodeType, union, make_radius}
use structur3d.Data.Codes.{distance_from_origin, from_integral}
use structur3d.Db.Rows.{is_deleted, max_timestamp, last_writer_wins_timestamp, latest}
use structur3d.Db.State.{
  Db, make_database, connect, create, upsert_radius, upsert_i_radius, upsert_coord,
  upsert_set_operation_type,
}
use structur3d.Db.Queries
use structur3d.Db.Queries.{IdWithType, sphere_of, max_radius, farthest}
use structur3d.Db.Queries.EdgeStore.{Timely}
use structur3d.Db.Interface.{database_impl}
use structur3d.Db.Interface.Edges.{created, radius_upserted, coord_upserted, type_upserted}
use structur3d.Db.Reached.{Reached, empty, changed, connected}
use structur3d.World.{World}
use structur3d.Vm.Graphs.{HasOpened}
use structur3d.Vm.Open.{open_document, load_node}
use structur3d.Vm.Reopening.{reached-opens}
use structur3d.Wire.Message.{asserted}
use structur3d.Wire.Client.{receive}
use structur3d.Vm.Interactors.{edge_message}
use structur3d.Vm.Network.{network_interactor}
use structur3d.Vm.Locked.{received_loop-locks}
use structur3d.Tests.Clients.{impl, balls_db, at_x, of_size, client, ball}

abbrev or_else : Db memory → Outcome (Db memory) → Db memory
or_else db (ok db') = db'
or_else db abort = db

abbrev db1 : Db memory
db1 = or_else (make_database memory) (create (make_database memory) 1 NodeType.sphere 2 1)

abbrev db2 : Db memory
db2 = or_else db1 (upsert_radius db1 1 (of_size 5) 2)

abbrev db3 : Db memory
db3 = or_else db2 (upsert_coord db2 1 (at_x 3) 3)

abbrev db4 : Db memory
db4 = or_else db3 (create db3 4 NodeType.set_operation 2 4)

abbrev db5 : Db memory
db5 = or_else db4 (upsert_set_operation_type db4 4 union 5)

abbrev db6 : Db memory
db6 = or_else db5 (connect db5 4 1 6)

step1 : create (make_database memory) 1 NodeType.sphere 2 1 ≡ ok db1
unfolding create
step1 = refl

step2 : upsert_radius db1 1 (of_size 5) 2 ≡ ok db2
unfolding upsert_radius upsert_i_radius create
step2 = refl

step3 : upsert_coord db2 1 (at_x 3) 3 ≡ ok db3
unfolding upsert_coord
step3 = refl

step4 : create db3 4 NodeType.set_operation 2 4 ≡ ok db4
unfolding create
step4 = refl

step5 : upsert_set_operation_type db4 4 union 5 ≡ ok db5
unfolding upsert_set_operation_type
step5 = refl

step6 : connect db5 4 1 6 ≡ ok db6
unfolding connect
step6 = refl

four_is_not_one : ◌≢◌ {A = ℕ} 4 1
four_is_not_one e = omega arith

db6-Reached : Reached memory db6
db6-Reached = connected db5 db6 4 1 6 four_is_not_one step6 (
    changed db4 db5 (λ db. upsert_set_operation_type db 4 union 5) (type_upserted 4 union 5) step5
      (changed db3 db4 (λ db. create db 4 NodeType.set_operation 2 4)
        (created 4 NodeType.set_operation 2 4) step4
        (changed db2 db3 (λ db. upsert_coord db 1 (at_x 3) 3) (coord_upserted 1 (at_x 3) 3) step3
          (changed db1 db2 (λ db. upsert_radius db 1 (of_size 5) 2)
            (radius_upserted 1 (of_size 5) 2) step2
            (changed (make_database memory) db1 (λ db. create db 1 NodeType.sphere 2 1)
              (created 1 NodeType.sphere 2 1) step1 empty)))))

abbrev reached : World whole (Db memory)
reached = record client { db = db6 }

reached-opens_example :
    (u : World whole (Db memory)) × (open_document (database_impl memory) (λ n. n) 2 reached ≡ ok u)
    × HasOpened (database_impl memory) 2 u
reached-opens_example =
    reached-opens {p = memory} list_engine-IsSql letter_uuids-IsCodec (λ n. n) 2 reached db6-Reached

-- The document holds the sphere 1, which the store has.
abbrev sphere_1 : IdWithType
sphere_1 = record { uid = 1; type = NodeType.sphere }

is_entity : In sphere_1 (Queries.entities balls_db 2)
unfolding Queries.entities Queries.typed from_integral is_deleted
is_entity = inl refl

is_stored : load_node (database_impl memory) balls_db sphere_1 ≡ ok (some (ball 1))
unfolding load_node Queries.sphere sphere_of max_radius farthest distance_from_origin make_radius
    is_deleted latest last_writer_wins_timestamp max_timestamp
is_stored = refl

no_loop : Timely {p = memory} balls_db 1 1 7
unfolding is_deleted
no_loop r i e = elim i [ inl q ↦ rw q (omega arith) | inr bad ↦ absurd bad ]

received_loop-locks_example :
    (receive (network_interactor impl 0 3 9) (edge_message impl asserted 1 1 7) client ≡ abort)
    × (db' : Db memory) × (connect balls_db 1 1 7 ≡ ok db')
    × ((v : World whole (Db memory)) → v.db ≡ db' → open_document impl (λ n. n) 2 v ≡ abort)
received_loop-locks_example =
    received_loop-locks {p = memory} list_engine-IsSql letter_uuids-IsCodec 0 3 9 (λ n. n) 2
      sphere_1 (ball 1) 7 client is_entity is_stored no_loop
