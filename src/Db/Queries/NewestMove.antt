-- ===== src/Db/Queries/NewestMove.antt =====
-- The newest of the moves of a sphere decides where it stands, in any order of arrival.
use structur3d.Prelude.{
  ◌≡◌, ◌≢◌, ◌<◌, refl, sym, ◌∙◌, ap, subst, ◌⊎◌, inl, inr, some, List, [], ◌∷◌, map, In, In-map,
  In-map_iff, arith, ok, >>=-eq-ok, ok-injective, for_each, Option-cases,
}
use mathlib.Core.Option.{some-injective}
use structur3d.Platform.{Platform, IsSql, IsOrdered, rows}
use structur3d.Data.{Uid, Coord, Sphere, make_radius}
use structur3d.Db.Rows.{Row, latest, is_live, is_deleted}
use structur3d.Db.Rows.Newest.{IsNewest, IsLive, In-latest}
use structur3d.Db.Rows.History.{row_of, replay, replay-IsNewest}
use structur3d.Db.State.{Db, stored_coord}
use structur3d.Db.Queries.{sphere, sphere_of, max_radius, farthest}
use structur3d.Db.Queries.Spheres.{sphere-IsSphereOf}
use structur3d.Db.Queries.SphereHistory.{Move, write_of, move, for_each-move}

module _ (p : Platform) where
  sphere_of-moved :
      (e : Uid) (rs : List (Row p.Float)) (cs cs' : List (Row (Coord p.floats)))
      (s : Sphere p.floats)
      → sphere_of p e rs cs ≡ ok (some s)
      → cs' ≢ []
      → (s' : Sphere p.floats) × (sphere_of p e rs cs' ≡ ok (some s')) × (s'.radius ≡ s.radius)
  unfolding sphere_of
  sphere_of-moved e [] cs cs' s h ne = absurd (cc)
  sphere_of-moved e (r ∷ rs) [] cs' s h ne = absurd (cc)
  sphere_of-moved e (r ∷ rs) (c ∷ cs) [] s h ne = absurd (ne refl)
  sphere_of-moved e (r ∷ rs) (c ∷ cs) (c' ∷ cs') s h ne =
      let (radius, made, done) =
        >>=-eq-ok (make_radius {f = p.floats} (max_radius p r.value (r ∷ rs))) _ h in
      (
        record { uid = e; coord = farthest p c'.value (c' ∷ cs'); radius = radius },
        rw made refl,
        ap (λ (x : Sphere p.floats). x.radius) (some-injective _ s (ok-injective done)),
      )

  -- Other coordinates of a sphere that is found, with a newest live row of its entity.
  sphere-moved :
      (db : Db p) (coords : p.Table (Row (Coord p.floats))) (e : Uid) (s : Sphere p.floats)
      → sphere db e ≡ ok (some s)
      → latest p.sql coords (p.to_string e) ≢ []
      → (s' : Sphere p.floats) × (sphere (record db { coord = coords }) e ≡ ok (some s'))
        × (s'.radius ≡ s.radius)
  unfolding sphere
  sphere-moved db coords e s h ne =
      elim (Option-cases
        (p.newest (λ r. r.timestamp) (p.select (is_live (p.to_string e)) db.document))) [
          | inl absent ↦ let bad = rw (absent, sphere) at h in absurd (cc)
          | inr (row, found) ↦
              let (s', here, same) =
                sphere_of-moved e (latest p.sql db.radius (p.to_string e))
                  (latest p.sql db.coord (p.to_string e)) (latest p.sql coords (p.to_string e)) s
                  (rw (found, sphere) at h) ne in
              (s', rw (found, sphere) here, same)
        ]

module _ {p : Platform} (laws : IsSql p.sql) (ordered : IsOrdered p.floats) (db : Db p) where
  -- The move is among the moves; every other one of its entity, and every live row of it before them, is
  -- older.
  pub record IsNewestMove (ms : List (Move p)) (m : Move p) : Type 0 where
    pub here : In m ms
    pub others :
        (n : Move p)
        → In n ms
        → p.to_string n.entity ≡ p.to_string m.entity
        → (n.timestamp < m.timestamp) ⊎ (n ≡ m)
    pub stored :
        (r : Row (Coord p.floats))
        → In r (rows p.sql db.coord)
        → IsLive (p.to_string m.entity) r
        → r.timestamp < m.timestamp

  abbrev Written : List (Move p) → Row (Coord p.floats) → Type 0
  Written ms r = In r (map row_of (map write_of ms)) ⊎ In r (rows p.sql db.coord)

  Written-newest :
      (ms : List (Move p)) (m : Move p) (r : Row (Coord p.floats))
      → IsNewestMove ms m
      → Written ms r
      → IsLive (p.to_string m.entity) r
      → (r.timestamp < m.timestamp) ⊎ (r ≡ row_of (write_of m))
  Written-newest ms m r newest (inl i) live =
      let (w, j, is_row) = (In-map_iff row_of r (map write_of ms)).0 i in
      let (n, k, is_write) = (In-map_iff write_of w ms).0 j in
      let same : r ≡ row_of (write_of n) = is_row ∙ ap row_of is_write in
      elim (newest.others n k (sym (ap (λ (x : Row _). x.entity) same) ∙ live.1)) [
        | inl older ↦ inl (rw same older)
        | inr is_m ↦ inr (same ∙ ap (λ x. row_of (write_of x)) is_m)
      ]
  Written-newest ms m r newest (inr i) live = inl (newest.stored r i live)

  move-IsNewest :
      (ms : List (Move p)) (m : Move p)
      → IsNewestMove ms m
      → IsNewest (Written ms) (p.to_string m.entity) (row_of (write_of m))
  unfolding is_deleted
  move-IsNewest ms m newest = record {
    member = inl (In-map row_of (write_of m) (map write_of ms) (In-map write_of m ms newest.here));
    live = (refl, refl);
    newest = λ s i l. elim (Written-newest ms m s newest i l) [
      | inl older ↦ omega arith
      | inr same ↦ rw same (omega arith)
    ];
  }

  -- After any moves of spheres, none of which fails, in any order of arrival and with repetitions: a sphere
  -- that was found before is found with the same radius, and at the coordinates of its newest move, as
  -- their columns give them back, where every other move of it and every live row of its coordinates before
  -- them is older.
  pub newest_move-decides :
      (ms : List (Move p)) (m : Move p) (s : Sphere p.floats)
      → IsNewestMove ms m
      → sphere db m.entity ≡ ok (some s)
      → (db' : Db p) × (s' : Sphere p.floats) × (for_each ms move db ≡ ok db')
        × (sphere db' m.entity ≡ ok (some s'))
        × (s'.coord ≡ stored_coord p m.coord)
        × (s'.radius ≡ s.radius)
  newest_move-decides ms m s newest found =
      let coords = replay p.sql db.coord (map write_of ms) in
      let e = p.to_string m.entity in
      let (to, from) = replay-IsNewest laws db.coord (map write_of ms) e (row_of (write_of m)) in
      let listed =
        (In-latest laws coords e (row_of (write_of m))).1 (from (move-IsNewest ms m newest)) in
      let (s', found', radius_eq) =
        sphere-moved p db coords m.entity s found
          (λ empty. subst (In (row_of (write_of m))) empty listed) in
      let best =
        (sphere-IsSphereOf p ordered laws (record db { coord = coords }) m.entity s'
          found').coord_best in
      let held = (replay-IsNewest laws db.coord (map write_of ms) e best.row).0 best.held in
      let is_newest : best.row ≡ row_of (write_of m) =
        elim (Written-newest ms m best.row newest held.member held.live) [
          | inl older ↦ absurd (
              omega (
                arith,
                held.newest (row_of (write_of m)) (move-IsNewest ms m newest).member
                    (move-IsNewest ms m newest).live,
              ))
          | inr same ↦ same
        ] in
      (
        record db { coord = coords },
        s',
        for_each-move ms db,
        found',
        best.value_eq ∙ ap (λ (r : Row _). r.value) is_newest,
        radius_eq,
      )
