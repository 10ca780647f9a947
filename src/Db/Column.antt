-- ===== src/Db/Column.antt =====
-- include/db/column/Column.h, include/db/utils/crdt_utils.h and include/db/ColumnDB.h: one table of
-- serialized attributes, in which a column holds the values of one attribute.
pub mod Latest
use structur3d.Prelude.{
  ℕ, ◌≡◌, Bool, true, false, ◌&&◌, ◌||◌, String, Option, none, some, List, [], ◌∷◌, map, ltb, ◌==◌,
  str_eq, Outcome, ok, ◌>>=◌,
}
use structur3d.Platform.{Platform}
use structur3d.Data.{Uid, Timestamp, Coord, Radius, Name, SetOperationType, union}
use structur3d.Platform.Bitsery.{Bytes}
use structur3d.Utils.Serialize.{Serializator, serialize, deserialize}
use structur3d.Db.Rows.{Row, is_deleted, is_at, max_timestamp, new_row}
use structur3d.Db.Priority.{
  preferred_coord, preferred_radius, preferred_name, preferred_set_operation_type,
}

pub data ColumnAttribute : Type 0 where
  coordinate radius name set_operation_type : ColumnAttribute

-- include/utils/to_underlying.h
abbrev pub to_underlying : ColumnAttribute → ℕ
to_underlying coordinate = 0
to_underlying radius = 1
to_underlying name = 2
to_underlying set_operation_type = 3

-- The columns of the table that are not of every `Row`.
pub record AttributeColumns : Type 0 where
  pub colid : ℕ
  pub attrib : List ℕ
  pub size : ℕ

pub record Column (T : Type 0) : Type 0 where
  pub attribute : ColumnAttribute
  pub preferred : T → T → T
  pub serializator : Serializator T
  -- `T value{}`
  pub initial : T

-- `deleted == is_deleted(false) && colid == to_underlying(attribute) && entity == entity_id`
abbrev pub is_live_in : ℕ → String → Row AttributeColumns → Bool
is_live_in colid e r = r.deleted == is_deleted false && r.value.colid == colid && str_eq r.entity e

-- What `CRDTCollectGarbage<attribute>` removes.
abbrev pub is_column_garbage : ℕ → String → ℕ → Row AttributeColumns → Bool
is_column_garbage colid e t r =
    r.value.colid == colid
    && ltb r.timestamp t
    && (str_eq r.entity e || r.deleted == is_deleted true)

module _ {T : Type 0} (column : Column T) where
  abbrev pub colid_of : ℕ
  colid_of = to_underlying column.attribute

  -- The row that `upsert` and `retract` insert.
  abbrev pub column_row : String → Bytes × ℕ → ℕ → Bool → Row AttributeColumns
  column_row e (buffer, size) t deleted =
      new_row deleted t e (record { colid = colid_of; attrib = buffer; size = size })

  -- The result of `deserialize` is not looked at.
  unfoldable pub read_row : Row AttributeColumns → T
  unfolding deserialize
  read_row r = (deserialize column.serializator r.value.attrib column.initial r.value.size).0

  -- `std::reduce`, from the left.
  unfoldable pub reduce : T → List T → T
  reduce best [] = best
  reduce best (v ∷ vs) = reduce (column.preferred best v) vs

  unfoldable pub preferred_row : List (Row AttributeColumns) → Option T
  unfolding reduce read_row
  preferred_row [] = none
  preferred_row (r ∷ rs) = some (reduce (read_row r) (map read_row (r ∷ rs)))

module _ (p : Platform) {T : Type 0} (column : Column T)
    (table : p.Table (Row AttributeColumns)) where
  -- The statements of the transaction: collect garbage, then insert.
  abbrev pub put_row : String → Bytes × ℕ → Timestamp → Bool → p.Table (Row AttributeColumns)
  put_row e written t deleted =
      p.insert_into (column_row column e written t deleted)
        (p.remove_from (is_column_garbage (colid_of column) e t) table)

  -- The transaction of `upsert` and `retract`.
  unfoldable pub put : String → T → Timestamp → Bool → Outcome (p.Table (Row AttributeColumns))
  unfolding serialize
  put e thing t deleted =
      serialize column.serializator thing >>= λ written. ok (put_row e written t deleted)

  unfoldable pub upsert : Uid → T → Timestamp → Outcome (p.Table (Row AttributeColumns))
  unfolding put
  upsert entity thing t = put (p.to_string entity) thing t false

  unfoldable pub retract : Uid → T → Timestamp → Outcome (p.Table (Row AttributeColumns))
  unfolding put
  retract entity thing t = put (p.to_string entity) thing t true

  -- `LastWriterWinsTimestamp<attribute>`
  unfoldable pub last_timestamp : String → Option ℕ
  last_timestamp e = max_timestamp (p.select (is_live_in (colid_of column) e) table)

  unfoldable pub latest_rows : String → List (Row AttributeColumns)
  unfolding last_timestamp
  latest_rows e =
      let newest = last_timestamp e in
      p.select (λ r. is_live_in (colid_of column) e r && is_at newest r.timestamp) table

  unfoldable pub latest : Uid → Option T
  unfolding preferred_row latest_rows
  latest entity = preferred_row column (latest_rows (p.to_string entity))

  unfoldable pub newer_than : Uid → Timestamp → List T
  unfolding read_row
  newer_than entity t =
      let eid = p.to_string entity in
      map (read_row column)
        (p.select (λ r. is_live_in (colid_of column) eid r && ltb t r.timestamp) table)

-- `ColumnDB`, on an empty file.
pub record ColumnDb (p : Platform) : Type 0 where
  pub attribute : p.Table (Row AttributeColumns)
  pub coordinate : Column (Coord p.floats)
  pub radius : Column (Radius p.floats)
  pub name : Column Name
  pub set_operation_type : Column SetOperationType

unfoldable pub make_column_db :
    (p : Platform)
    → Serializator (Coord p.floats)
    → Serializator (Radius p.floats)
    → Serializator Name
    → Serializator SetOperationType
    → ColumnDb p
unfolding preferred_coord preferred_radius preferred_name preferred_set_operation_type
make_column_db p coords radii names types = record {
  attribute = p.create_table (Row AttributeColumns);
  coordinate = record {
    attribute = ColumnAttribute.coordinate;
    preferred = preferred_coord;
    serializator = coords;
    initial = record { x = p.zero_f; y = p.zero_f; z = p.zero_f };
  };
  radius = record {
    attribute = ColumnAttribute.radius;
    preferred = preferred_radius;
    serializator = radii;
    initial = record { magnitude = p.zero_f };
  };
  name = record {
    attribute = ColumnAttribute.name;
    preferred = preferred_name;
    serializator = names;
    initial = record { value = [] };
  };
  set_operation_type = record {
    attribute = ColumnAttribute.set_operation_type;
    preferred = preferred_set_operation_type;
    serializator = types;
    initial = union;
  };
}
