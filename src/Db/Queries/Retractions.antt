-- ===== src/Db/Queries/Retractions.antt =====
-- What the retractions of a sphere's values leave.
use structur3d.Prelude.{
  ◌≡◌, refl, sym, ◌↔◌, inl, inr, true, false, ap, In, arith, ok, Bool-cases, ok-injective,
}
use structur3d.Platform.{Platform, IsSql, rows}
use structur3d.Data.{Uid, Timestamp, Coord, Radius}
use structur3d.Db.Rows.{Row, is_deleted, new_row, latest}
use structur3d.Db.Rows.Newest.{IsNewest-iff, In-latest}
use structur3d.Db.Rows.History.{In-upsert_row}
use structur3d.Db.State.{Db, stored_coord, retract_coord, retract_radius}
use structur3d.Db.Queries.Spheres.{NoLive}

module _ {p : Platform} (laws : IsSql p.sql) where
  -- After a retraction of coordinates that comes back, the entity has a live row of coordinates
  -- all the same.
  pub retract_coord-live :
      (db db' : Db p) (e : Uid) (c : Coord p.floats) (now : Timestamp)
      → retract_coord db e c now ≡ ok db'
      → ¬ NoLive p db'.coord e
  unfolding retract_coord is_deleted
  retract_coord-live db db' e c now h gone =
      let new = new_row false now (p.to_string e) (stored_coord p c) in
      gone new
        (rw (← ap (λ (x : Db p). x.coord) (ok-injective h)) (
          (In-upsert_row laws db.coord (p.to_string e) (stored_coord p c) now false new).1
            (inl refl)))
        (refl, refl)

  radius_table :
      (db db' : Db p) (e : Uid) (r : Radius p.floats) (now : Timestamp)
      → retract_radius db e r now ≡ ok db'
      → db'.radius
        ≡ p.insert_into (new_row true now (p.to_string e) (p.stored r.magnitude)) db.radius
  unfolding retract_radius
  radius_table db db' e r now h = elim (Bool-cases (p.le p.zero_f (p.stored r.magnitude))) [
    | inl fits ↦ sym (ap (λ (x : Db p). x.radius) (ok-injective (rw (fits, retract_radius) at h)))
    | inr small ↦ let bad = rw (small, retract_radius) at h in absurd (cc)
  ]

  -- A retraction of a radius that is not refused changes the newest live radius rows of no entity.
  pub retract_radius-latest :
      (db db' : Db p) (e f : Uid) (r : Radius p.floats) (now : Timestamp) (row : Row p.Float)
      → retract_radius db e r now ≡ ok db'
      → In row (latest p.sql db'.radius (p.to_string f))
        ↔ In row (latest p.sql db.radius (p.to_string f))
  unfolding retract_radius is_deleted
  retract_radius-latest db db' e f r now row h =
      let tomb = new_row true now (p.to_string e) (p.stored r.magnitude) in
      let (to, from) = In-latest laws (p.insert_into tomb db.radius) (p.to_string f) row in
      let (to', from') = In-latest laws db.radius (p.to_string f) row in
      let (same, same') =
        IsNewest-iff (λ s. In s (rows p.sql (p.insert_into tomb db.radius)))
          (λ s. In s (rows p.sql db.radius)) (p.to_string f) row
          λ s l. ground (arith, laws.in-insert s tomb db.radius, l.0, l.1) in
      rw (radius_table db db' e r now h) (λ i. from' (same (to i)), λ i. from (same' (to' i)))
