-- ===== src/Tests/Columns.antt =====
-- Attributes in buffers, and a column of radii.
use structur3d.Prelude.{ℕ, ok, ◌≡◌, refl, some, List, [], ◌∷◌, false, arith}
use structur3d.Platform.Memory.{list_engine-IsSql, memory, whole}
use structur3d.Platform.Bitsery.{Buffers}
use structur3d.Platform.Bitsery.Cells.{cells, cells-IsBitsery}
use structur3d.Utils.Serialize.{radius_bytes}
use structur3d.Utils.Serialize.RoundTrip.{Survives, attribute-Survives}
use structur3d.Data
use structur3d.Data.{Coord, Radius, Name, SetOperationType}
use structur3d.Db.Rows.{Row, new_row, is_deleted}
use structur3d.Db.Priority.{preferred_radius}
use structur3d.Db.Column.{AttributeColumns, ColumnAttribute, Column, column_row, upsert, latest}
use structur3d.Db.Column.Latest.{latest-upsert}

abbrev of_size : ℕ → Radius whole
of_size n = record { magnitude = n }

-- The buffer has two more bytes behind those that were written, and a read that fails changes nothing.
abbrev loose : {A : Type 0} → Buffers A
loose = record { spare = λ bs. 0 ∷ 0 ∷ []; broken = λ old bs. old }

abbrev radii : Column (Radius whole)
radii = record {
  attribute = ColumnAttribute.radius;
  preferred = preferred_radius;
  serializator = record { codec = radius_bytes cells; buffers = loose };
  initial = of_size 0;
}

-- A radius of the entity 1, and a coordinate of it that is newer.
abbrev attributes : List (Row AttributeColumns)
attributes =
    column_row radii "u" (3 ∷ 0 ∷ 0 ∷ [], 1) 2 false
    ∷ new_row false 9 "u" (record { colid = 0; attrib = 7 ∷ []; size = 1 })
    ∷ []

latest-upsert_example :
    (table' : List (Row AttributeColumns)) × (upsert memory radii attributes 1 (of_size 5) 4
      ≡ ok table')
    × (latest memory radii table' 1 ≡ some (of_size 5))
unfolding preferred_radius is_deleted
latest-upsert_example =
    latest-upsert memory list_engine-IsSql radii attributes 1 (of_size 5) 4
      (attribute-Survives cells cells-IsBitsery loose loose loose loose (Data.radius (of_size 5))
        tt)
      refl λ s i l. ground arith

abbrev hello : Name
hello = record { value = 72 ∷ 105 ∷ [] }

attribute-Survives_example : Survives cells loose loose loose loose (Data.name hello)
attribute-Survives_example =
    attribute-Survives cells cells-IsBitsery loose loose loose loose (Data.name hello)
      (omega arith, (omega arith, tt))
