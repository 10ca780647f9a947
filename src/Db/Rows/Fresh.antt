-- ===== src/Db/Rows/Fresh.antt =====
-- A row that is newer than every live one is the last write.
use structur3d.Prelude.{ℕ, ◌<◌, ◌≡◌, refl, ap, ◌⊎◌, inl, inr, ◌↔◌, false, String, In, arith}
use structur3d.Platform.{Engine, IsSql, rows}
use structur3d.Db.Rows.{Row, is_deleted, new_row, upsert_row, latest}
use structur3d.Db.Rows.Newest.{IsLive, IsNewest, In-latest}
use structur3d.Db.Rows.History.{In-upsert_row}

module _ {V : Type 0} where
  -- Every live row of the entity is older.
  abbrev pub AllOlder : (Row V → Type 0) → String → ℕ → Type 0
  AllOlder M e t = (s : Row V) → M s → IsLive e s → s.timestamp < t

  IsNewest-fresh :
      (N : Row V → Type 0) (new r : Row V) (e : String)
      → N new
      → IsLive e new
      → ((s : Row V) → N s → IsLive e s → (s ≡ new) ⊎ (s.timestamp < new.timestamp))
      → IsNewest N e r ↔ (r ≡ new)
  IsNewest-fresh N new r e here live only = (
    λ n. elim (only r n.member n.live) [
      | inl same ↦ same
      | inr older ↦ absurd (omega (arith, n.newest new here live))
    ],
    λ same. rw same (record {
      member = here;
      live = live;
      newest = λ s m l. elim (only s m l) [
        | inl q ↦ omega (arith, ap (λ (x : Row V). x.timestamp) q)
        | inr older ↦ omega arith
      ];
    }),
  )

module _ {sql : Engine} (laws : IsSql sql) {V : Type 0} (table : sql.Table (Row V)) where
  -- After an upsert that is newer than every live row of its entity.
  pub In-latest_upserted :
      (e : String) (v : V) (t : ℕ) (r : Row V)
      → AllOlder (λ s. In s (rows sql table)) e t
      → In r (latest sql (upsert_row sql table e v t false) e) ↔ (r ≡ new_row false t e v)
  unfolding is_deleted
  In-latest_upserted e v t r older =
      let new = new_row false t e v in
      let after = upsert_row sql table e v t false in
      let stored = λ (s : Row V). In-upsert_row laws table e v t false s in
      let (to, from) = In-latest laws after e r in
      let (to', from') =
        IsNewest-fresh (λ s. In s (rows sql after)) new r e ((stored new).1 (inl refl)) (refl, refl)
          λ s i l. elim ((stored s).0 i) [ inl same ↦ inl same | inr (j, _) ↦ inr (older s j l) ] in
      (λ i. to' (to i), λ q. from (from' q))

  -- The same without the removal of garbage.
  pub In-latest_inserted :
      (e : String) (v : V) (t : ℕ) (r : Row V)
      → AllOlder (λ s. In s (rows sql table)) e t
      → In r (latest sql (sql.insert_into (new_row false t e v) table) e)
        ↔ (r ≡ new_row false t e v)
  unfolding is_deleted
  In-latest_inserted e v t r older =
      let new = new_row false t e v in
      let after = sql.insert_into new table in
      let stored = λ (s : Row V). laws.in-insert s new table in
      let (to, from) = In-latest laws after e r in
      let (to', from') =
        IsNewest-fresh (λ s. In s (rows sql after)) new r e ((stored new).1 (inl refl)) (refl, refl)
          λ s i l. elim ((stored s).0 i) [ inl same ↦ inl same | inr j ↦ inr (older s j l) ] in
      (λ i. to' (to i), λ q. from (from' q))
