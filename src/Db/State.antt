-- ===== src/Db/State.antt =====
-- include/db/DatabaseImpl.h and src/db/DatabaseImpl.cpp: the tables and the calls that change them. A
-- statement that fails leaves its transaction uncommitted, and the exception leaves the call.
use structur3d.Prelude.{
  ℕ, Bool, true, false, ◌&&◌, ◌||◌, String, List, Outcome, ok, abort, ltb, ◌==◌, str_eq,
  if◌then◌else◌,
}
use structur3d.Platform.{Engine, Platform}
use structur3d.Data.{Uid, Timestamp, Coord, Radius, Name, SetOperationType, NodeType}
use structur3d.Data.Codes.{from_operation_type, to_integral}
use structur3d.Db.Rows.{Row, is_deleted, new_row, upsert_row}

pub record DocumentColumns : Type 0 where
  pub type : ℕ
  pub document : String

-- The tables of `DatabaseImpl::tables`, with the columns that are not of every `Row`: `entity_to`;
-- `magnitude`; `x`, `y`, `z`; `type`; `type` and `document`; `name`.
pub record Db (p : Platform) : Type 0 where
  pub edge : p.Table (Row String)
  pub radius : p.Table (Row p.Float)
  pub coord : p.Table (Row (Coord p.floats))
  pub setoperationtype : p.Table (Row ℕ)
  pub document : p.Table (Row DocumentColumns)
  pub name : p.Table (Row (List ℕ))

-- The constructor of `DatabaseImpl`, on an empty file.
unfoldable pub make_database : (p : Platform) → Db p
make_database p = record {
  edge = p.create_table (Row String);
  radius = p.create_table (Row p.Float);
  coord = p.create_table (Row (Coord p.floats));
  setoperationtype = p.create_table (Row ℕ);
  document = p.create_table (Row DocumentColumns);
  name = p.create_table (Row (List ℕ));
}

-- `CHECK (type = 0 or type = 1 or type = 2)`
abbrev pub check_type : ℕ → Bool
check_type n = n == 0 || n == 1 || n == 2

-- What `connectI` removes: older rows of the edge, and older tombstones of any edge.
abbrev pub is_edge_garbage : String → String → ℕ → Row String → Bool
is_edge_garbage from to t r =
    (str_eq r.entity from && str_eq r.value to && ltb r.timestamp t)
    || (ltb r.timestamp t && r.deleted == is_deleted true)

-- What `createI` removes: older rows of the entity in the document, and every tombstone.
abbrev pub is_document_garbage : String → String → ℕ → Row DocumentColumns → Bool
is_document_garbage eid doc t r =
    (str_eq r.entity eid && str_eq r.value.document doc && ltb r.timestamp t)
    || r.deleted == is_deleted true

module _ (sql : Engine) where
  -- The transaction of `connectI` on the table of edges.
  unfoldable pub connect_row :
      sql.Table (Row String) → String → String → ℕ → Bool → sql.Table (Row String)
  connect_row table eid eid_to timestamp deleted =
      sql.insert_into (new_row deleted timestamp eid eid_to)
        (sql.remove_from (is_edge_garbage eid eid_to timestamp) table)

  -- The transaction of `createI` on the table of documents.
  unfoldable pub create_row :
      sql.Table (Row DocumentColumns)
      → String
      → ℕ
      → String
      → ℕ
      → Bool
      → sql.Table (Row DocumentColumns)
  create_row table eid type doc timestamp deleted =
      let columns : DocumentColumns = record { type = type; document = doc } in
      sql.insert_into (new_row deleted timestamp eid columns)
        (sql.remove_from (is_document_garbage eid doc timestamp) table)

-- The coordinates that their columns give back.
abbrev pub stored_coord : (p : Platform) → Coord p.floats → Coord p.floats
stored_coord p c = record { x = p.stored c.x; y = p.stored c.y; z = p.stored c.z }

module _ {p : Platform} where
  unfoldable pub upsert_i_coord : Db p → Uid → Coord p.floats → Timestamp → Bool → Outcome (Db p)
  upsert_i_coord db entity coord timestamp deleted =
      let eid = p.to_string entity in
      ok (record db {
        coord = upsert_row p.sql db.coord eid (stored_coord p coord) timestamp deleted;
      })

  unfoldable pub upsert_i_set_operation_type :
      Db p → Uid → SetOperationType → Timestamp → Bool → Outcome (Db p)
  unfolding from_operation_type
  upsert_i_set_operation_type db entity type timestamp deleted =
      let eid = p.to_string entity in
      let code = from_operation_type type in
      let table = upsert_row p.sql db.setoperationtype eid code timestamp deleted in
      if check_type code then ok (record db { setoperationtype = table }) else abort

  unfoldable pub upsert_i_name : Db p → Uid → Name → Timestamp → Bool → Outcome (Db p)
  upsert_i_name db entity name timestamp deleted =
      let eid = p.to_string entity in
      ok (record db { name = upsert_row p.sql db.name eid name.value timestamp deleted })

  -- The statement that would collect the garbage is built and not run.
  unfoldable pub upsert_i_radius : Db p → Uid → Radius p.floats → Timestamp → Bool → Outcome (Db p)
  unfolding is_deleted
  upsert_i_radius db entity radius timestamp deleted =
      let eid = p.to_string entity in
      let magnitude = p.stored radius.magnitude in
      let table = p.insert_into (new_row deleted timestamp eid magnitude) db.radius in
      if p.le p.zero_f magnitude then ok (record db { radius = table }) else abort

  unfoldable pub connect_i : Db p → Uid → Uid → Timestamp → Bool → Outcome (Db p)
  unfolding connect_row
  connect_i db entity entity_to timestamp deleted =
      let eid = p.to_string entity in
      let eid_to = p.to_string entity_to in
      ok (record db { edge = connect_row p.sql db.edge eid eid_to timestamp deleted })

  unfoldable pub create_i : Db p → Uid → NodeType → Uid → Timestamp → Bool → Outcome (Db p)
  unfolding create_row to_integral
  create_i db entity type document timestamp deleted =
      let eid = p.to_string entity in
      let doc = p.to_string document in
      let table = create_row p.sql db.document eid (to_integral type) doc timestamp deleted in
      ok (record db { document = table })

  unfoldable pub upsert_coord : Db p → Uid → Coord p.floats → Timestamp → Outcome (Db p)
  unfolding upsert_i_coord
  upsert_coord db entity coord timestamp = upsert_i_coord db entity coord timestamp false

  -- The code passes `false`.
  unfoldable pub retract_coord : Db p → Uid → Coord p.floats → Timestamp → Outcome (Db p)
  unfolding upsert_i_coord
  retract_coord db entity coord timestamp = upsert_i_coord db entity coord timestamp false

  unfoldable pub upsert_radius : Db p → Uid → Radius p.floats → Timestamp → Outcome (Db p)
  unfolding upsert_i_radius
  upsert_radius db entity radius timestamp = upsert_i_radius db entity radius timestamp false

  unfoldable pub retract_radius : Db p → Uid → Radius p.floats → Timestamp → Outcome (Db p)
  unfolding upsert_i_radius
  retract_radius db entity radius timestamp = upsert_i_radius db entity radius timestamp true

  unfoldable pub upsert_set_operation_type :
      Db p → Uid → SetOperationType → Timestamp → Outcome (Db p)
  unfolding upsert_i_set_operation_type
  upsert_set_operation_type db entity type timestamp =
      upsert_i_set_operation_type db entity type timestamp false

  unfoldable pub retract_set_operation_type :
      Db p → Uid → SetOperationType → Timestamp → Outcome (Db p)
  unfolding upsert_i_set_operation_type
  retract_set_operation_type db entity type timestamp =
      upsert_i_set_operation_type db entity type timestamp true

  unfoldable pub upsert_name : Db p → Uid → Name → Timestamp → Outcome (Db p)
  unfolding upsert_i_name
  upsert_name db entity name timestamp = upsert_i_name db entity name timestamp false

  unfoldable pub retract_name : Db p → Uid → Name → Timestamp → Outcome (Db p)
  unfolding upsert_i_name
  retract_name db entity name timestamp = upsert_i_name db entity name timestamp true

  unfoldable pub connect : Db p → Uid → Uid → Timestamp → Outcome (Db p)
  unfolding connect_i
  connect db entity entity_to timestamp = connect_i db entity entity_to timestamp false

  unfoldable pub disconnect : Db p → Uid → Uid → Timestamp → Outcome (Db p)
  unfolding connect_i
  disconnect db entity entity_to timestamp = connect_i db entity entity_to timestamp true

  unfoldable pub create : Db p → Uid → NodeType → Uid → Timestamp → Outcome (Db p)
  unfolding create_i
  create db entity type document timestamp = create_i db entity type document timestamp false

  unfoldable pub remove : Db p → Uid → Uid → Timestamp → Outcome (Db p)
  unfolding create_i
  remove db entity document timestamp = create_i db entity NodeType.sphere document timestamp true
