-- ===== src/Db/Rows/Convergence.antt =====
-- In which order transactions arrive, and what of it shows in the query for the last write.
use structur3d.Prelude.{
  ℕ, ◌<◌, ◌≡◌, refl, ◌↔◌, ◌⊎◌, ◌≢◌, inl, Bool, true, false, String, List, [], map, In, arith,
  nil_of_no_In, In-map_same,
}
use structur3d.Platform.{Engine, IsSql, rows}
use structur3d.Db.Rows.{Row, is_deleted, new_row, upsert_row, latest}
use structur3d.Db.Rows.Newest.{IsLive, IsNewest-iff, In-latest}
use structur3d.Db.Rows.History.{
  Write, row_of, replay, latest-replay, In-upsert_row, garbage-live, older-garbage,
}

module _ {sql : Engine} (laws : IsSql sql) {V : Type 0} (table : sql.Table (Row V)) where
  -- Two histories of the same writes, in different orders or with repetitions, leave the same last
  -- writes of every entity.
  pub replay_order :
      (vs ws : List (Write V)) (e : String) (r : Row V)
      → ((w : Write V) → In w vs ↔ In w ws)
      → In r (latest sql (replay sql table vs) e) ↔ In r (latest sql (replay sql table ws) e)
  replay_order vs ws e r h =
      let (to, from) = latest-replay laws table vs e r in
      let (to', from') = latest-replay laws table ws e r in
      let (same, same') =
        IsNewest-iff (λ s. In s (map row_of vs) ⊎ In s (rows sql table))
          (λ s. In s (map row_of ws) ⊎ In s (rows sql table)) e r
          λ s _. ground (arith, In-map_same row_of s vs ws h) in
      (λ i. from' (same (to i)), λ i. from (same' (to' i)))

  -- A transaction on one entity leaves the last writes of every other entity as they were.
  pub latest-upsert_row_other :
      (e f : String) (v : V) (t : ℕ) (d : Bool) (r : Row V)
      → e ≢ f
      → In r (latest sql (upsert_row sql table e v t d) f) ↔ In r (latest sql table f)
  latest-upsert_row_other e f v t d r h =
      let after = upsert_row sql table e v t d in
      let (to, from) = In-latest laws after f r in
      let (to', from') = In-latest laws table f r in
      let (same, same') =
        IsNewest-iff (λ s. In s (rows sql after)) (λ s. In s (rows sql table)) f r
          λ s l.
            ground (arith, In-upsert_row laws table e v t d s, garbage-live e t s, h, l.0, l.1) in
      (λ i. from' (same (to i)), λ i. from (same' (to' i)))

  retract-no-live :
      (e : String) (v : V) (t : ℕ)
      → ((s : Row V) → In s (rows sql table) → IsLive e s → s.timestamp < t)
      → (r : Row V) → IsLive e r
      → ¬ In r (rows sql (upsert_row sql table e v t true))
  unfolding is_deleted
  retract-no-live e v t h r l i =
      ground (arith, In-upsert_row laws table e v t true r, older-garbage e t r, h r, l.0, l.1)

  -- A retraction that is newer than all live rows of its entity leaves the entity without a value.
  pub latest-retract :
      (e : String) (v : V) (t : ℕ)
      → ((s : Row V) → In s (rows sql table) → IsLive e s → s.timestamp < t)
      → latest sql (upsert_row sql table e v t true) e ≡ []
  latest-retract e v t h = nil_of_no_In _ λ r i.
      let n = (In-latest laws (upsert_row sql table e v t true) e r).0 i in
      retract-no-live e v t h r n.live n.member

module _ {sql : Engine} (laws : IsSql sql) {V : Type 0} (table : sql.Table (Row V)) where
  -- Retractions do not commute with upserts. Let all live rows of an entity be older than a write at
  -- `t`, and let its retraction follow at a later `u`. If the two arrive in that order, the entity has
  -- no value; if the older write arrives last, it comes back as the value of the entity.
  pub late_upsert_resurrects :
      (e : String) (v w : V) (t u : ℕ)
      → ((s : Row V) → In s (rows sql table) → IsLive e s → s.timestamp < t)
      → t < u
      → (latest sql (upsert_row sql (upsert_row sql table e v t false) e w u true) e ≡ [])
        × In
            (new_row false t e v)
            (latest sql (upsert_row sql (upsert_row sql table e w u true) e v t false) e)
  unfolding is_deleted
  late_upsert_resurrects e v w t u h lt =
      let once = upsert_row sql table e v t false in
      let gone = upsert_row sql table e w u true in
      (
        latest-retract laws once e w u
            λ s i l. ground (arith, In-upsert_row laws table e v t false s, i, h s, l.0, l.1),
        (In-latest laws (upsert_row sql gone e v t false) e (new_row false t e v)).1 record {
          member = (In-upsert_row laws gone e v t false (new_row false t e v)).1 (inl refl);
          live = (refl, refl);
          newest = λ s i l. ground (
            arith,
            In-upsert_row laws gone e v t false s,
            i,
            retract-no-live laws table e w u (λ s i l. omega (arith, h s i l)) s,
            l.0,
            l.1,
          );
        },
      )
