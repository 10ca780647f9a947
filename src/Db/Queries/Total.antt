-- ===== src/Db/Queries/Total.antt =====
-- `DatabaseImpl::sphere` comes back, and `edges` has no loop.
use structur3d.Prelude.{
  ◌≡◌, ◌≢◌, refl, sym, ◌∙◌, inl, inr, true, Option, none, some, List, [], ◌∷◌, In, ok, Option-cases,
  Bool-cases, ap,
}
use structur3d.Platform.{Platform, IsSql, IsCodec, rows}
use structur3d.Data.{Uid, Coord, Sphere, make_radius}
use structur3d.Db.Rows.{Row, latest, is_live}
use structur3d.Db.Rows.Newest.{In-latest}
use structur3d.Db.State.{Db}
use structur3d.Db.Queries.{sphere, sphere_of, max_radius, farthest, edges}
use structur3d.Db.Queries.Spheres.{NewestRadius}
use structur3d.Db.Queries.Edges.{edges_iff}

module _ (p : Platform) where
  max_radius-not_negative :
      (best : p.Float) (rs : List (Row p.Float))
      → p.le p.zero_f best ≡ true
      → ((r : Row p.Float) → In r rs → p.le p.zero_f r.value ≡ true)
      → p.le p.zero_f (max_radius p best rs) ≡ true
  unfolding max_radius
  max_radius-not_negative best [] h k = h
  max_radius-not_negative best (r ∷ rs) h k = elim (Bool-cases (p.lt best r.value)) [
    | inl more ↦ rw more (max_radius-not_negative r.value rs (k r (inl refl)) (λ s i. k s (inr i)))
    | inr less ↦ rw less (max_radius-not_negative best rs h (λ s i. k s (inr i)))
  ]

  sphere_of-total :
      (e : Uid) (rs : List (Row p.Float)) (cs : List (Row (Coord p.floats)))
      → ((r : Row p.Float) → In r rs → p.le p.zero_f r.value ≡ true)
      → (o : Option (Sphere p.floats)) × (sphere_of p e rs cs ≡ ok o)
  unfolding sphere_of make_radius
  sphere_of-total e [] cs h = (none, refl)
  sphere_of-total e (r ∷ rs) [] h = (none, refl)
  sphere_of-total e (r ∷ rs) (c ∷ cs) h = (
    some (record {
      uid = e;
      coord = farthest p c.value (c ∷ cs);
      radius = record { magnitude = max_radius p r.value (r ∷ rs) };
    }),
    rw (max_radius-not_negative r.value (r ∷ rs) (h r (inl refl)) h) refl,
  )

  module _ (laws : IsSql p.sql) (db : Db p) where
    -- The query for a sphere comes back where no newest live radius row of it is negative.
    pub sphere-total :
        (e : Uid)
        → ((r : Row p.Float) → NewestRadius db e r → p.le p.zero_f r.value ≡ true)
        → (o : Option (Sphere p.floats)) × (sphere db e ≡ ok o)
    unfolding sphere
    sphere-total e h =
        elim (Option-cases
          (p.newest (λ r. r.timestamp) (p.select (is_live (p.to_string e)) db.document))) [
            | inl absent ↦ (none, rw (absent, sphere) refl)
            | inr (row, found) ↦
                let (o, done) =
                  sphere_of-total e (latest p.sql db.radius (p.to_string e))
                    (latest p.sql db.coord (p.to_string e))
                    (λ r i. h r ((In-latest laws db.radius (p.to_string e) r).0 i)) in
                (o, rw (found, sphere) done)
          ]

    -- No entity has an edge to itself, where no row of an edge has the same uid at both ends.
    pub edges-no_loop :
        IsCodec p.uuids
        → ((r : Row _) → In r (rows p.sql db.edge) → p.of_string r.entity ≢ p.of_string r.value)
        → (e : Uid) → ¬ In e (edges db e)
    edges-no_loop codec apart e i =
        let (to, stands, q) = (edges_iff laws db e e).0 i in
        apart stands.row stands.is_newest.member (
          ap p.of_string stands.is_newest.edge.0
          ∙ (codec e ∙ (q ∙ ap p.of_string (sym stands.is_newest.edge.1))))
