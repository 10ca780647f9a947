-- ===== src/Db/Queries/Edges.antt =====
-- `DatabaseImpl::edges` against the rows of the table, and after a history of calls on one edge.
use structur3d.Prelude.{
  ℕ, ◌≤◌, ◌≡◌, refl, sym, ◌∙◌, ap, inl, inr, ◌↔◌, true, false, ◌&&◌, none, some, String, List, [],
  ◌∷◌, map, In, arith, ◌==◌, str_eq, eq_iff, Option-cases, Bool-cases, In-map,
}
use mathlib.Core.Bool.{false≢true}
use structur3d.Platform.{Platform, IsSql, rows}
use structur3d.Data.{Uid}
use structur3d.Db.Rows.{Row, is_at}
use structur3d.Db.Rows.Newest.{max_timestamp-none, le-max_timestamp, max_timestamp-attained}
use structur3d.Db.State.{Db}
use structur3d.Db.Queries.{any_alive, is_alive, newest_edge, latest_edges, alive_among, edges}

-- A row of the edge.
abbrev pub IsEdge : String → String → Row String → Type 0
IsEdge from to r = (r.entity ≡ from) × (r.value ≡ to)

-- Among the rows that `M` holds, one of the edge, and none of those is newer.
pub record IsNewestEdge (M : Row String → Type 0) (from to : String) (r : Row String) : Type 0 where
  pub member : M r
  pub edge : IsEdge from to r
  pub newest : (s : Row String) → M s → IsEdge from to s → s.timestamp ≤ r.timestamp

-- The last word on the edge is that it stands.
pub record Stands (M : Row String → Type 0) (from to : String) : Type 0 where
  pub row : Row String
  pub is_newest : IsNewestEdge M from to row
  pub alive : row.deleted ≡ 0

any_alive_iff :
    (rs : List (Row String))
    → (any_alive rs ≡ true) ↔ ((r : Row String) × In r rs × (r.deleted ≡ 0))
unfolding any_alive
any_alive_iff [] = (λ h. cc, λ (r, i, e). absurd i)
any_alive_iff (r ∷ rs) = elim (Bool-cases (r.deleted == 0)) [
  | inl here ↦ (λ h. (r, inl refl, ground arith), λ h. rw here)
  | inr there ↦ rw there (
    λ h. let (s, i, e) = (any_alive_iff rs).0 h in (s, inr i, e),
    λ (s, i, e). elim i [ inl q ↦ ground arith | inr j ↦ (any_alive_iff rs).1 (s, j, e) ],
  )
]

IsEdge-iff :
    (from to : String) (r : Row String)
    → (str_eq r.entity from && str_eq r.value to ≡ true) ↔ IsEdge from to r
IsEdge-iff from to r = ground (arith, eq_iff r.entity from, eq_iff r.value to)

IsEdge-at_iff :
    (from to : String) (r : Row String) (m : ℕ)
    → (str_eq r.entity from && str_eq r.value to && is_at (some m) r.timestamp ≡ true)
      ↔ (IsEdge from to r × (r.timestamp ≡ m))
IsEdge-at_iff from to r m = ground (arith, eq_iff r.entity from, eq_iff r.value to)

IsEdge-at_none :
    (from to : String) (r : Row String)
    → str_eq r.entity from && str_eq r.value to && is_at none r.timestamp ≡ false
IsEdge-at_none from to r = ground arith

module _ {p : Platform} (laws : IsSql p.sql) (db : Db p) where
  abbrev pub StoredEdge : Row String → Type 0
  StoredEdge r = In r (rows p.sql db.edge)

  In-latest_edges :
      (from to : String) (r : Row String)
      → In r (latest_edges db from to) ↔ IsNewestEdge StoredEdge from to r
  unfolding latest_edges newest_edge
  In-latest_edges from to r = elim (Option-cases (newest_edge db from to)) [
    | inl empty ↦ (
      λ i. absurd (false≢true (sym (IsEdge-at_none from to r) ∙ (rw empty at selected.0 i).1)),
      λ n. absurd (rw (max_timestamp-none _ empty) at of_edge r n.member n.edge),
    )
    | inr (m, found) ↦
        let (top, i, at) = max_timestamp-attained _ m found in
        let (kept, test) = (laws.in-select top _ db.edge).0 i in
        (
          λ i.
              let (member, test) = rw found at selected.0 i in
              let (edge, at) = (IsEdge-at_iff from to r m).0 test in
              record {
                member = member;
                edge = edge;
                newest = λ s j l. rw at (le-max_timestamp _ m s found (of_edge s j l));
              },
          λ n.
              let below = le-max_timestamp _ m r found (of_edge r n.member n.edge) in
              let above = n.newest top kept ((IsEdge-iff from to top).0 test) in
              let same : r.timestamp ≡ m = omega arith in
              selected.1 (n.member, rw found ((IsEdge-at_iff from to r m).1 (n.edge, same))),
        )
  ]
    where
      selected : In r (latest_edges db from to) ↔ (
          In r (rows p.sql db.edge)
          × (str_eq r.entity from && str_eq r.value to && is_at (newest_edge db from to) r.timestamp
              ≡ true))
      selected = laws.in-select r _ db.edge

      of_edge :
          (s : Row String)
          → In s (rows p.sql db.edge)
          → IsEdge from to s
          → In s (p.select (λ r. str_eq r.entity from && str_eq r.value to) db.edge)
      of_edge s i l = (laws.in-select s _ db.edge).1 (i, (IsEdge-iff from to s).1 l)

  -- The query says that an edge stands just where one of its newest rows is no tombstone.
  pub is_alive_iff : (from to : String) → (is_alive db from to ≡ true) ↔ Stands StoredEdge from to
  unfolding is_alive
  is_alive_iff from to = (
    λ h.
        let (r, i, e) = (any_alive_iff (latest_edges db from to)).0 h in
        record { row = r; is_newest = (In-latest_edges from to r).0 i; alive = e },
    λ s.
        (any_alive_iff (latest_edges db from to)).1
          (s.row, (In-latest_edges from to s.row).1 s.is_newest, s.alive),
  )

  In-alive_among :
      (from : String) (tos : List String) (x : Uid)
      → In x (alive_among db from tos)
        ↔ ((to : String) × In to tos × (is_alive db from to ≡ true) × (x ≡ p.of_string to))
  unfolding alive_among
  In-alive_among from [] x = (λ i. absurd i, λ (to, i, a, e). absurd i)
  In-alive_among from (t ∷ tos) x = elim (Bool-cases (is_alive db from t)) [
    | inl alive ↦ rw alive (
      λ i. elim i [
        | inl e ↦ (t, inl refl, alive, e)
        | inr j ↦ let (to, k, a, e) = (In-alive_among from tos x).0 j in (to, inr k, a, e)
      ],
      λ (to, i, a, e). elim i [
        | inl q ↦ inl (e ∙ ap p.of_string q)
        | inr j ↦ inr ((In-alive_among from tos x).1 (to, j, a, e))
      ],
    )
    | inr dead ↦ rw dead (
      λ i. let (to, k, a, e) = (In-alive_among from tos x).0 i in (to, inr k, a, e),
      λ (to, i, a, e). elim i [
        | inl q ↦ absurd (false≢true (sym dead ∙ rw q at a))
        | inr j ↦ (In-alive_among from tos x).1 (to, j, a, e)
      ],
    )
  ]

  In-targets :
      (from : String) (r : Row String)
      → StoredEdge r
      → r.entity ≡ from
      → In r.value (p.group_by (map (λ s. s.value) (p.select (λ s. str_eq s.entity from) db.edge)))
  In-targets from r i e = (laws.in-group r.value _).1 (
      In-map (λ s. s.value) r _
        ((laws.in-select r (λ s. str_eq s.entity from) db.edge).1 (i, (eq_iff r.entity from).1 e)))

  -- The edges of an entity are the uids that are read from the targets of its standing edges:
  -- those of whose newest rows one is no tombstone.
  pub edges_iff :
      (e x : Uid)
      → In x (edges db e)
        ↔ ((to : String) × Stands StoredEdge (p.to_string e) to × (x ≡ p.of_string to))
  unfolding edges
  edges_iff e x = (
    λ i.
        let (to, _, a, q) = (In-alive_among (p.to_string e) _ x).0 i in
        (to, (is_alive_iff (p.to_string e) to).0 a, q),
    λ (to, s, q). (In-alive_among (p.to_string e) _ x).1 (
      to,
      (rw s.is_newest.edge.1 at
          (In-targets (p.to_string e) s.row s.is_newest.member s.is_newest.edge.0)),
      (is_alive_iff (p.to_string e) to).1 s,
      q,
    ),
  )
