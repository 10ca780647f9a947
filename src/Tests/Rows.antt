-- ===== src/Tests/Rows.antt =====
-- Tables of numbers.
use structur3d.Prelude.{ℕ, ◌≡◌, refl, ◌↔◌, ◌⊎◌, true, false, List, [], ◌∷◌, map, In, arith}
use structur3d.Platform.{rows}
use structur3d.Platform.Memory.{list_engine, list_engine-IsSql}
use structur3d.Db.Rows.{
  Row, is_deleted, max_timestamp, last_writer_wins_timestamp, new_row, upsert_row, latest,
}
use structur3d.Db.Rows.Newest.{IsNewest}
use structur3d.Db.Rows.History.{Write, row_of, replay, latest-replay}
use structur3d.Db.Rows.Convergence.{late_upsert_resurrects}

abbrev no_rows : List (Row ℕ)
no_rows = []

abbrev early : Write ℕ
early = record { entity = "a"; value = 7; timestamp = 1 }

abbrev late : Write ℕ
late = record { entity = "a"; value = 9; timestamp = 4 }

abbrev other : Write ℕ
other = record { entity = "b"; value = 2; timestamp = 2 }

-- The older write of "a" arrives after the newer one.
abbrev writes : List (Write ℕ)
writes = late ∷ other ∷ early ∷ []

writes_a : latest list_engine (replay list_engine no_rows writes) "a" ≡ row_of late ∷ []
unfolding latest replay upsert_row is_deleted max_timestamp last_writer_wins_timestamp
writes_a = refl

latest-replay_example :
    In (row_of late) (latest list_engine (replay list_engine no_rows writes) "a")
    ↔ IsNewest (λ s. In s (map row_of writes) ⊎ In s (rows list_engine no_rows)) "a" (row_of late)
latest-replay_example = latest-replay list_engine-IsSql no_rows writes "a" (row_of late)

abbrev one_row : List (Row ℕ)
one_row = row_of other ∷ []

late_upsert_resurrects_example :
    (latest list_engine
        (upsert_row list_engine (upsert_row list_engine one_row "b" 5 3 false) "b" 5 6 true)
        "b"
      ≡ [])
    × In (new_row false 3 "b" 5) (
        latest list_engine
          (upsert_row list_engine (upsert_row list_engine one_row "b" 5 6 true) "b" 5 3 false)
          "b")
late_upsert_resurrects_example =
    late_upsert_resurrects list_engine-IsSql one_row "b" 5 5 3 6 (λ s i l. ground arith)
      (omega arith)
