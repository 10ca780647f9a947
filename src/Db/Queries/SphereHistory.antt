-- ===== src/Db/Queries/SphereHistory.antt =====
-- What `sphere` answers after a history of calls.
use structur3d.Prelude.{
  ◌≡◌, refl, ◌⊎◌, Bool, false, some, List, [], ◌∷◌, map, In, Outcome, ok, for_each,
}
use structur3d.Platform.{Platform, IsSql, IsOrdered, rows}
use structur3d.Data.{Uid, Timestamp, Coord, Sphere}
use structur3d.Data.Codes.{distance_from_origin}
use structur3d.Db.Rows.{Row, upsert_row}
use structur3d.Db.Rows.Newest.{IsNewest}
use structur3d.Db.Rows.History.{Write, row_of, replay, replay-IsNewest}
use structur3d.Db.State.{Db, upsert_coord, stored_coord}
use structur3d.Db.Queries.{sphere}
use structur3d.Db.Queries.Spheres.{IsBestOf, NewestRadius, NewestCoord, sphere-IsSphereOf}

-- The arguments of a call of `upsert` with coordinates.
pub record Move (p : Platform) : Type 0 where
  pub entity : Uid
  pub coord : Coord p.floats
  pub timestamp : Timestamp

module _ {p : Platform} where
  abbrev pub write_of : Move p → Write (Coord p.floats)
  write_of m = record {
    entity = p.to_string m.entity;
    value = stored_coord p m.coord;
    timestamp = m.timestamp;
  }

  abbrev pub move : Move p → Db p → Outcome (Db p)
  move m db = upsert_coord db m.entity m.coord m.timestamp

  pub for_each-move :
      (ms : List (Move p)) (db : Db p)
      → for_each ms move db ≡ ok (record db { coord = replay p.sql db.coord (map write_of ms) })
  unfolding replay upsert_coord
  for_each-move [] db = refl
  for_each-move (m ∷ ms) db = for_each-move ms (record db {
    coord =
        upsert_row p.sql db.coord (p.to_string m.entity) (stored_coord p m.coord) m.timestamp false;
  })

IsBestOf-iff :
    {A F : Type 0} (lt : F → F → Bool) (key : A → F) (M N : Row A → Type 0) (a : A)
    → ((r : Row A) → (M r → N r) × (N r → M r))
    → IsBestOf lt key M a
    → IsBestOf lt key N a
IsBestOf-iff lt key M N a h b = record {
  row = b.row;
  held = (h b.row).0 b.held;
  value_eq = b.value_eq;
  none_larger = λ r n. b.none_larger r ((h r).1 n);
}

module _ {p : Platform} (laws : IsSql p.sql) (ordered : IsOrdered p.floats) where
  -- No call of a history of upserts of coordinates fails, whatever the entities and the order of
  -- arrival. After it, a sphere that is found stands at coordinates of a newest live row among the
  -- calls, as their columns give them back, and the rows before them, such that none of these is
  -- farther from the origin; and its radius is one that the newest live radius rows before the
  -- history hold.
  pub sphere-moves :
      (db : Db p) (ms : List (Move p)) (e : Uid)
      → (db' : Db p) × (for_each ms move db ≡ ok db')
        × ((s : Sphere p.floats)
            → sphere db' e ≡ ok (some s)
            → IsBestOf p.lt distance_from_origin
                (IsNewest
                  (λ r. In r (map row_of (map write_of ms)) ⊎ In r (rows p.sql db.coord))
                  (p.to_string e))
                s.coord
              × IsBestOf p.lt (λ x. x) (NewestRadius db e) s.radius.magnitude)
  sphere-moves db ms e =
      let db' : Db p = record db { coord = replay p.sql db.coord (map write_of ms) } in
      (
        db',
        for_each-move ms db,
        λ s h.
            let found = sphere-IsSphereOf p ordered laws db' e s h in
            (
              IsBestOf-iff p.lt distance_from_origin (NewestCoord db' e) _ s.coord
                  (replay-IsNewest laws db.coord (map write_of ms) (p.to_string e))
                  found.coord_best,
              found.radius_best,
            ),
      )
