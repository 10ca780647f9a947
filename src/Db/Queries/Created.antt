-- ===== src/Db/Queries/Created.antt =====
-- What the queries find of a node that was written last.
use structur3d.Prelude.{
  ℕ, ◌<◌, ◌≡◌, refl, sym, ◌∙◌, ap, subst, ◌⊎◌, inl, inr, ◌↔◌, true, Option, some, List, [], ◌∷◌, In,
  ok, ◌>>=◌, arith, Bool-cases, Option-cases,
}
use structur3d.Platform.{Platform, IsSql, rows}
use structur3d.Data.{Uid, Coord, Sphere, SetOperationType, make_radius}
use structur3d.Data.Codes.{distance_from_origin, from_operation_type, to_operation_type_iff}
use structur3d.Db.Rows.{Row, is_live, latest}
use structur3d.Db.Rows.Newest.{IsLive, is_live_iff}
use structur3d.Db.State.{Db}
use structur3d.Db.Queries.{sphere, sphere_of, max_radius, farthest, setop}

module _ (p : Platform) where
  max_radius-copies :
      (best : p.Float) (rs : List (Row p.Float))
      → ((r : Row p.Float) → In r rs → r.value ≡ best)
      → max_radius p best rs ≡ best
  unfolding max_radius
  max_radius-copies best [] h = refl
  max_radius-copies best (r ∷ rs) h = elim (Bool-cases (p.lt best r.value)) [
    | inl more ↦ rw (more, h r (inl refl)) (max_radius-copies best rs (λ s i. h s (inr i)))
    | inr less ↦ rw less (max_radius-copies best rs (λ s i. h s (inr i)))
  ]

  farthest-copies :
      (best : Coord p.floats) (rs : List (Row (Coord p.floats)))
      → ((r : Row (Coord p.floats)) → In r rs → r.value ≡ best)
      → farthest p best rs ≡ best
  unfolding farthest
  farthest-copies best [] h = refl
  farthest-copies best (r ∷ rs) h =
      elim (Bool-cases (p.lt (distance_from_origin best) (distance_from_origin r.value))) [
        | inl more ↦ rw (more, h r (inl refl)) (farthest-copies best rs (λ s i. h s (inr i)))
        | inr less ↦ rw less (farthest-copies best rs (λ s i. h s (inr i)))
      ]

  sphere_made :
      (e : Uid) (m m' : p.Float) (c c' : Coord p.floats)
      → m' ≡ m
      → c' ≡ c
      → p.le p.zero_f m ≡ true
      → ◌>>=◌ {B = Option (Sphere p.floats)}
          (make_radius {f = p.floats} m')
          (λ radius. ok (some (record { uid = e; coord = c'; radius = radius })))
        ≡ ok (some (record { uid = e; coord = c; radius = record { magnitude = m } }))
  unfolding make_radius
  sphere_made e m m' c c' q q' fits = rw (q, q', fits)

  sphere_of-copies :
      (e : Uid) (m : p.Float) (c : Coord p.floats) (rs : List (Row p.Float))
      (cs : List (Row (Coord p.floats))) (r0 : Row p.Float) (c0 : Row (Coord p.floats))
      → p.le p.zero_f m ≡ true
      → In r0 rs
      → In c0 cs
      → ((r : Row p.Float) → In r rs → r.value ≡ m)
      → ((r : Row (Coord p.floats)) → In r cs → r.value ≡ c)
      → sphere_of p e rs cs
        ≡ ok (some (record { uid = e; coord = c; radius = record { magnitude = m } }))
  unfolding sphere_of
  sphere_of-copies e m c [] cs r0 c0 fits i j h k = absurd i
  sphere_of-copies e m c (r ∷ rs) [] r0 c0 fits i j h k = absurd j
  sphere_of-copies e m c (r ∷ rs) (x ∷ cs) r0 c0 fits i j h k =
      let first = h r (inl refl) in
      let first' = k x (inl refl) in
      sphere_made e m (max_radius p r.value (r ∷ rs)) c (farthest p x.value (x ∷ cs))
        (max_radius-copies r.value (r ∷ rs) (λ s l. h s l ∙ sym first) ∙ first)
        (farthest-copies x.value (x ∷ cs) (λ s l. k s l ∙ sym first') ∙ first') fits

  module _ (laws : IsSql p.sql) (db : Db p) (e : Uid) where
    -- Where the entity has a live row in the table of documents, and the last writes of its radius and
    -- of its coordinates are just one row each, the sphere is found with their values.
    pub sphere-found :
        (m : p.Float) (c : Coord p.floats) (d0 : Row _) (r0 : Row p.Float)
        (c0 : Row (Coord p.floats))
        → p.le p.zero_f m ≡ true
        → In d0 (rows p.sql db.document)
        → IsLive (p.to_string e) d0
        → ((r : Row p.Float) → In r (latest p.sql db.radius (p.to_string e)) ↔ (r ≡ r0))
        → r0.value ≡ m
        → ((r : Row (Coord p.floats)) → In r (latest p.sql db.coord (p.to_string e)) ↔ (r ≡ c0))
        → c0.value ≡ c
        → sphere db e ≡ ok (some (record { uid = e; coord = c; radius = record { magnitude = m } }))
    unfolding sphere
    sphere-found m c d0 r0 c0 fits i live radii r_eq coords c_eq =
        elim (Option-cases
          (p.newest (λ r. r.timestamp) (p.select (is_live (p.to_string e)) db.document))) [
            | inl absent ↦ absurd (
                subst (In d0) (laws.newest-none _ _ absent) (
                  (laws.in-select d0 _ db.document).1 (i, (is_live_iff (p.to_string e) d0).1 live)))
            | inr (row, found) ↦
                rw (found, sphere)
                  (sphere_of-copies e m c (latest p.sql db.radius (p.to_string e))
                    (latest p.sql db.coord (p.to_string e)) r0 c0 fits ((radii r0).1 refl)
                    ((coords c0).1 refl)
                    (λ r j. ap (λ (x : Row p.Float). x.value) ((radii r).0 j) ∙ r_eq)
                    (λ r j. ap (λ (x : Row (Coord p.floats)). x.value) ((coords r).0 j) ∙ c_eq))
          ]

    -- Where a live row of the operation's type is newer than every other live one of the entity, the
    -- operation is found with its type.
    pub setop-found :
        (type : SetOperationType) (t0 : Row ℕ)
        → In t0 (rows p.sql db.setoperationtype)
        → IsLive (p.to_string e) t0
        → ((s : Row ℕ)
            → In s (rows p.sql db.setoperationtype)
            → IsLive (p.to_string e) s
            → (s ≡ t0) ⊎ (s.timestamp < t0.timestamp))
        → t0.value ≡ from_operation_type type
        → setop db e ≡ some (record { uid = e; type = type })
    unfolding setop
    setop-found type t0 i live only value_eq =
        elim (Option-cases
          (p.newest (λ r. r.timestamp) (p.select (is_live (p.to_string e)) db.setoperationtype))) [
            | inl absent ↦ absurd (
                subst (In t0) (laws.newest-none _ _ absent) (
                  (laws.in-select t0 _ db.setoperationtype).1
                    (i, (is_live_iff (p.to_string e) t0).1 live)))
            | inr (row, found) ↦
                let (j, above) = laws.newest-some _ _ found in
                let (stored, test) = (laws.in-select row _ db.setoperationtype).0 j in
                let newest = above t0 (
                  (laws.in-select t0 _ db.setoperationtype).1
                    (i, (is_live_iff (p.to_string e) t0).1 live)) in
                let same : row ≡ t0 =
                  elim (only row stored ((is_live_iff (p.to_string e) row).0 test)) [
                    | inl q ↦ q
                    | inr older ↦ absurd (omega arith)
                  ] in
                rw (
                  found,
                  setop,
                  (to_operation_type_iff row.value type).1
                      (ap (λ (x : Row ℕ). x.value) same ∙ value_eq),
                )
          ]
