-- ===== src/Db/Rows/History.antt =====
-- What a table holds after a history of transactions, in whatever order they arrive.
use structur3d.Prelude.{
  ℕ, ◌<◌, ◌≡◌, ◌↔◌, ◌⊎◌, Bool, true, false, String, List, [], ◌∷◌, map, In, arith, eq_iff,
}
use structur3d.Platform.{Engine, IsSql, rows}
use structur3d.Db.Rows.{Row, is_deleted, is_garbage, new_row, upsert_row, latest}
use structur3d.Db.Rows.Newest.{IsNewest, IsNewest-iff, In-latest}

-- A call of an upsert.
pub record Write (V : Type 0) : Type 0 where
  pub entity : String
  pub value : V
  pub timestamp : ℕ

module _ {V : Type 0} where
  abbrev pub row_of : Write V → Row V
  row_of w = new_row false w.timestamp w.entity w.value

  pub garbage-live :
      (e : String) (t : ℕ) (s : Row V)
      → is_garbage e t s ≡ true
      → s.deleted ≡ 0
      → (s.timestamp < t) × (s.entity ≡ e)
  unfolding is_deleted
  garbage-live e t s h l = ground (arith, eq_iff s.entity e)

  pub older-garbage :
      (e : String) (t : ℕ) (s : Row V) → s.timestamp < t → s.entity ≡ e → is_garbage e t s ≡ true
  older-garbage e t s h p = ground (arith, eq_iff s.entity e)

module _ (sql : Engine) {V : Type 0} where
  unfoldable pub replay : sql.Table (Row V) → List (Write V) → sql.Table (Row V)
  replay table [] = table
  replay table (w ∷ ws) = replay (upsert_row sql table w.entity w.value w.timestamp false) ws

module _ {sql : Engine} (laws : IsSql sql) {V : Type 0} where
  pub In-upsert_row :
      (table : sql.Table (Row V)) (e : String) (v : V) (t : ℕ) (d : Bool) (r : Row V)
      → In r (rows sql (upsert_row sql table e v t d))
        ↔ ((r ≡ new_row d t e v) ⊎ (In r (rows sql table) × (is_garbage e t r ≡ false)))
  unfolding upsert_row
  In-upsert_row table e v t d r = ground (
    arith,
    laws.in-insert r (new_row d t e v) (sql.remove_from (is_garbage e t) table),
    laws.in-remove r (is_garbage e t) table,
  )

  -- An upsert leaves the newest live rows those of the table and the new row together.
  upsert_row-IsNewest :
      (E : Row V → Type 0) (table : sql.Table (Row V)) (w : Write V) (e : String) (r : Row V)
      → let after = upsert_row sql table w.entity w.value w.timestamp false in
        IsNewest (λ s. E s ⊎ In s (rows sql after)) e r
        ↔ IsNewest (λ s. (s ≡ row_of w) ⊎ E s ⊎ In s (rows sql table)) e r
  unfolding is_deleted
  upsert_row-IsNewest E table w e r = (
    λ n. record {
      member = ground (arith, stored r, n.member);
      live = n.live;
      newest = λ s i l. ground (
        arith,
        i,
        stored s,
        stored (row_of w),
        n.newest s,
        n.newest (row_of w),
        garbage-live w.entity w.timestamp s,
      );
    },
    λ n. record {
      member =
          ground
            (arith, stored r, n.member, n.newest (row_of w), garbage-live w.entity w.timestamp r);
      live = n.live;
      newest = λ s i l. ground (arith, stored s, n.newest s, i);
    },
  )
    where
      stored :
          (s : Row V)
          → In s (rows sql (upsert_row sql table w.entity w.value w.timestamp false)) ↔ (
              (s ≡ row_of w)
              ⊎ (In s (rows sql table) × (is_garbage w.entity w.timestamp s ≡ false)))
      stored = In-upsert_row table w.entity w.value w.timestamp false

  pub replay-IsNewest :
      (table : sql.Table (Row V)) (ws : List (Write V)) (e : String) (r : Row V)
      → IsNewest (λ s. In s (rows sql (replay sql table ws))) e r
        ↔ IsNewest (λ s. In s (map row_of ws) ⊎ In s (rows sql table)) e r
  unfolding replay
  replay-IsNewest table [] e r = IsNewest-iff _ _ e r λ s _. ground arith
  replay-IsNewest table (w ∷ ws) e r =
      let after = upsert_row sql table w.entity w.value w.timestamp false in
      let (to, from) = replay-IsNewest after ws e r in
      let (to', from') = upsert_row-IsNewest (λ s. In s (map row_of ws)) table w e r in
      let (to'', from'') =
        IsNewest-iff (λ s. (s ≡ row_of w) ⊎ In s (map row_of ws) ⊎ In s (rows sql table))
          (λ s. In s (map row_of (w ∷ ws)) ⊎ In s (rows sql table)) e r (λ s _. ground arith) in
      (λ n. to'' (to' (to n)), λ n. from (from' (from'' n)))

  -- After any history of upserts into a table, in any order of arrival, the query for the last write
  -- of an entity selects just the newest live rows among the writes of the history and the rows that
  -- the table held before.
  pub latest-replay :
      (table : sql.Table (Row V)) (ws : List (Write V)) (e : String) (r : Row V)
      → In r (latest sql (replay sql table ws) e)
        ↔ IsNewest (λ s. In s (map row_of ws) ⊎ In s (rows sql table)) e r
  latest-replay table ws e r =
      let (to, from) = In-latest laws (replay sql table ws) e r in
      let (to', from') = replay-IsNewest table ws e r in (λ i. to' (to i), λ n. from (from' n))
