-- ===== src/Db/Rows/Newest.antt =====
-- What `latest` selects: the live rows of an entity whose timestamp no live row of it exceeds.
use structur3d.Prelude.{
  ℕ, ◌≤◌, ◌≡◌, refl, sym, ◌∙◌, ◌↔◌, true, false, ◌&&◌, String, none, some, List, [], ◌∷◌, In, inl,
  inr, arith, eq_iff, Option-cases, dec_lt, nil_of_no_In,
}
use mathlib.Core.Bool.{false≢true}
use structur3d.Platform.{Engine, IsSql, rows}
use structur3d.Db.Rows.{
  Row, is_deleted, max_timestamp, is_live, latest, last_writer_wins_timestamp, is_at,
}

module _ {V : Type 0} where
  pub max_timestamp-none : (rs : List (Row V)) → max_timestamp rs ≡ none → rs ≡ []
  unfolding max_timestamp
  max_timestamp-none [] h = refl
  max_timestamp-none (r ∷ rs) h = ground arith

  pub le-max_timestamp :
      (rs : List (Row V)) (m : ℕ) (r : Row V)
      → max_timestamp rs ≡ some m
      → In r rs
      → r.timestamp ≤ m
  unfolding max_timestamp
  le-max_timestamp [] m r h i = absurd i
  le-max_timestamp (s ∷ rs) m r h i = elim (Option-cases (max_timestamp rs)) [
    | inl e ↦ ground (arith, max_timestamp-none rs e)
    | inr (k, e) ↦ ground (arith, le-max_timestamp rs k r e)
  ]

  pub max_timestamp-attained :
      (rs : List (Row V)) (m : ℕ)
      → max_timestamp rs ≡ some m
      → (r : Row V) × In r rs × (r.timestamp ≡ m)
  unfolding max_timestamp
  max_timestamp-attained [] m h = cc
  max_timestamp-attained (s ∷ rs) m h = elim (Option-cases (max_timestamp rs)) [
    | inl e ↦ (s, inl refl, ground arith)
    | inr (k, e) ↦
        let (r, i, at) = max_timestamp-attained rs k e in
        elim (dec_lt s.timestamp k) [
          | yes below ↦ (r, inr i, ground arith)
          | no above ↦ (s, inl refl, ground arith)
        ]
  ]

  -- The row is a live one of the entity.
  abbrev pub IsLive : String → Row V → Type 0
  IsLive e r = (r.deleted ≡ 0) × (r.entity ≡ e)

  pub is_live_iff : (e : String) (r : Row V) → (is_live e r ≡ true) ↔ IsLive e r
  unfolding is_deleted
  is_live_iff e r = ground (arith, eq_iff r.entity e)

  is_live-at_iff :
      (e : String) (r : Row V) (m : ℕ)
      → (is_live e r && is_at (some m) r.timestamp ≡ true) ↔ (IsLive e r × (r.timestamp ≡ m))
  is_live-at_iff e r m = ground (arith, is_live_iff e r)

  is_live-at_none : (e : String) (r : Row V) → is_live e r && is_at none r.timestamp ≡ false
  is_live-at_none e r = ground arith

  -- Among the rows that `M` holds, a live one of the entity, and none of those is newer.
  pub record IsNewest (M : Row V → Type 0) (e : String) (r : Row V) : Type 0 where
    pub member : M r
    pub live : IsLive e r
    pub newest : (s : Row V) → M s → IsLive e s → s.timestamp ≤ r.timestamp

  pub IsNewest-iff :
      (M N : Row V → Type 0) (e : String) (r : Row V)
      → ((s : Row V) → IsLive e s → M s ↔ N s)
      → IsNewest M e r ↔ IsNewest N e r
  IsNewest-iff M N e r h = (
    λ n. record {
      member = (h r n.live).0 n.member;
      live = n.live;
      newest = λ s i l. n.newest s ((h s l).1 i) l;
    },
    λ n. record {
      member = (h r n.live).1 n.member;
      live = n.live;
      newest = λ s i l. n.newest s ((h s l).0 i) l;
    },
  )

module _ {sql : Engine} (laws : IsSql sql) {V : Type 0} where
  -- The query for the last write selects the newest live rows of the entity, and no other.
  pub In-latest :
      (table : sql.Table (Row V)) (e : String) (r : Row V)
      → In r (latest sql table e) ↔ IsNewest (λ s. In s (rows sql table)) e r
  unfolding latest last_writer_wins_timestamp
  In-latest table e r = elim (Option-cases (last_writer_wins_timestamp sql table e)) [
    | inl empty ↦ (
      λ i. absurd (false≢true (sym (is_live-at_none e r) ∙ (rw empty at selected.0 i).1)),
      λ n. absurd (rw (max_timestamp-none _ empty) at live_selected r n.member n.live),
    )
    | inr (m, found) ↦
        let (top, i, at) = max_timestamp-attained _ m found in
        let (stored, live) = (laws.in-select top _ table).0 i in
        (
          λ i.
              let (member, test) = rw found at selected.0 i in
              let (live, at) = (is_live-at_iff e r m).0 test in
              record {
                member = member;
                live = live;
                newest = λ s j l. rw at (le-max_timestamp _ m s found (live_selected s j l));
              },
          λ n.
              let below = le-max_timestamp _ m r found (live_selected r n.member n.live) in
              let above = n.newest top stored ((is_live_iff e top).0 live) in
              let same : r.timestamp ≡ m = omega arith in
              selected.1 (n.member, rw found ((is_live-at_iff e r m).1 (n.live, same))),
        )
  ]
    where
      selected : In r (latest sql table e) ↔ (
          In r (rows sql table)
          × (is_live e r && is_at (last_writer_wins_timestamp sql table e) r.timestamp ≡ true))
      selected = laws.in-select r _ table

      live_selected :
          (s : Row V) → In s (rows sql table) → IsLive e s → In s (sql.select (is_live e) table)
      live_selected s i l = (laws.in-select s _ table).1 (i, (is_live_iff e s).1 l)

  -- It selects nothing just where the entity has no live row.
  pub latest-nil_iff :
      (table : sql.Table (Row V)) (e : String)
      → (latest sql table e ≡ []) ↔ ((r : Row V) → In r (rows sql table) → ¬ IsLive e r)
  unfolding last_writer_wins_timestamp
  latest-nil_iff table e = (
    λ none_latest r i l. elim (Option-cases (last_writer_wins_timestamp sql table e)) [
      | inl empty ↦ absurd (rw (max_timestamp-none _ empty) at live_selected r i l)
      | inr (m, found) ↦
          let (top, j, at) = max_timestamp-attained _ m found in
          let (stored, live) = (laws.in-select top _ table).0 j in
          absurd (
            rw none_latest at (In-latest table e top).1 record {
              member = stored;
              live = (is_live_iff e top).0 live;
              newest = λ s k q. rw at (le-max_timestamp _ m s found (live_selected s k q));
            })
    ],
    λ no_live. nil_of_no_In _ λ r i. let n = (In-latest table e r).0 i in no_live r n.member n.live,
  )
    where
      live_selected :
          (s : Row V) → In s (rows sql table) → IsLive e s → In s (sql.select (is_live e) table)
      live_selected s i l = (laws.in-select s _ table).1 (i, (is_live_iff e s).1 l)
