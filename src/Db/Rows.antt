-- ===== src/Db/Rows.antt =====
-- The statements that every table of src/db/DatabaseImpl.cpp shares: the templates
-- `LastWriterWinsTimestamp` and `CRDTCollectGarbage`, and the transaction that uses them.
pub mod Newest
pub mod History
pub mod Convergence
pub mod Fresh
use structur3d.Prelude.{
  ℕ, ◌≤◌, ◌<◌, ◌≡◌, refl, Bool, true, false, ◌&&◌, ◌||◌, String, Option, none, some, List, [], ◌∷◌,
  In, inl, inr, max, arith, ltb, ◌==◌, str_eq, if◌then◌else◌,
}
use structur3d.Platform.{Engine}

-- A row of a table whose own columns are `value`.
pub record Row (V : Type 0) : Type 0 where
  pub deleted : ℕ
  pub timestamp : ℕ
  pub entity : String
  pub value : V

unfoldable pub is_deleted : Bool → ℕ
is_deleted true = 1
is_deleted false = 0

-- An equation with the result of a subquery that has no rows does not hold.
abbrev pub is_at : Option ℕ → ℕ → Bool
is_at none t = false
is_at (some m) t = t == m

module _ {V : Type 0} where
  -- SQL's `max`: no value of no rows
  unfoldable pub max_timestamp : List (Row V) → Option ℕ
  max_timestamp [] = none
  max_timestamp (r ∷ rs) = elim (max_timestamp rs) [
    | none ↦ some r.timestamp
    | some m ↦ some (max r.timestamp m)
  ]

  -- `deleted == is_deleted(false) && entity == entity_id`
  abbrev pub is_live : String → Row V → Bool
  is_live e r = r.deleted == is_deleted false && str_eq r.entity e

  -- `timestamp < timestamp && (entity == entity_id || deleted == is_deleted(true))`
  abbrev pub is_garbage : String → ℕ → Row V → Bool
  is_garbage e t r = ltb r.timestamp t && (str_eq r.entity e || r.deleted == is_deleted true)

  abbrev pub new_row : Bool → ℕ → String → V → Row V
  new_row d t e v = record { deleted = is_deleted d; timestamp = t; entity = e; value = v }

module _ (sql : Engine) {V : Type 0} where
  unfoldable pub last_writer_wins_timestamp : sql.Table (Row V) → String → Option ℕ
  unfolding is_deleted
  last_writer_wins_timestamp table e = max_timestamp (sql.select (is_live e) table)

  unfoldable pub collect_garbage : sql.Table (Row V) → String → ℕ → sql.Table (Row V)
  collect_garbage table e t = sql.remove_from (is_garbage e t) table

  -- The transaction of `upsertI`: collect garbage, then insert.
  unfoldable pub upsert_row : sql.Table (Row V) → String → V → ℕ → Bool → sql.Table (Row V)
  unfolding collect_garbage
  upsert_row table e v t d = sql.insert_into (new_row d t e v) (collect_garbage table e t)

  -- `SELECT … WHERE deleted = 0 AND entity = e AND timestamp = LastWriterWinsTimestamp`
  unfoldable pub latest : sql.Table (Row V) → String → List (Row V)
  unfolding last_writer_wins_timestamp
  latest table e =
      let newest = last_writer_wins_timestamp table e in
      sql.select (λ r. is_live e r && is_at newest r.timestamp) table
