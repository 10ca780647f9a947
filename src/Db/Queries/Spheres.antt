-- ===== src/Db/Queries/Spheres.antt =====
-- `DatabaseImpl::sphere` against the rows of the tables.
use structur3d.Prelude.{
  ◌≡◌, refl, sym, subst, ◌⊎◌, inl, inr, Bool, false, none, some, List, [], ◌∷◌, In, arith, ◌↔◌, ok,
  Option-cases,
}
use structur3d.Platform.{Floats, Platform, IsSql, IsOrdered, rows}
use structur3d.Data.{Uid, Coord, Sphere}
use structur3d.Data.Codes.{distance_from_origin}
use structur3d.Db.Rows.{Row, latest, is_live}
use structur3d.Db.Rows.Newest.{IsLive, IsNewest, In-latest, is_live_iff, latest-nil_iff}
use structur3d.Db.State.{Db}
use structur3d.Db.Queries.{sphere, sphere_of, max_radius, farthest}
use structur3d.Db.Queries.Best.{IsBest, max_radius-IsBest, farthest-IsBest}

-- The best value of the rows that `M` holds.
pub record IsBestOf {A F : Type 0} (lt : F → F → Bool) (key : A → F) (M : Row A → Type 0) (a : A)
    : Type 0 where
  pub row : Row A
  pub held : M row
  pub value_eq : a ≡ row.value
  pub none_larger : (r : Row A) → M r → lt (key a) (key r.value) ≡ false

IsBest-IsBestOf :
    (f : Floats) {A : Type 0} (key : A → f.Float) (M : Row A → Type 0) (r : Row A)
    (rs : List (Row A)) (b : A)
    → ((s : Row A) → In s (r ∷ rs) ↔ M s)
    → IsBest f key r.value (r ∷ rs) b
    → IsBestOf f.lt key M b
IsBest-IsBestOf f key M r rs b h best = elim best.attained [
  | inl e ↦ record {
    row = r;
    held = (h r).0 (inl refl);
    value_eq = e;
    none_larger = λ s m. best.rows_le s ((h s).1 m);
  }
  | inr (w, i, e) ↦ record {
    row = w;
    held = (h w).0 i;
    value_eq = e;
    none_larger = λ s m. best.rows_le s ((h s).1 m);
  }
]

module _ {p : Platform} where
  -- The rows from which a query answers.
  abbrev pub NewestRadius : Db p → Uid → Row p.Float → Type 0
  NewestRadius db e = IsNewest (λ s. In s (rows p.sql db.radius)) (p.to_string e)

  abbrev pub NewestCoord : Db p → Uid → Row (Coord p.floats) → Type 0
  NewestCoord db e = IsNewest (λ s. In s (rows p.sql db.coord)) (p.to_string e)

  -- What the sphere of an entity has to be.
  pub record IsSphereOf (db : Db p) (e : Uid) (s : Sphere p.floats) : Type 0 where
    pub same_uid : s.uid ≡ e
    pub radius_best : IsBestOf p.lt (λ x. x) (NewestRadius db e) s.radius.magnitude
    pub coord_best : IsBestOf p.lt distance_from_origin (NewestCoord db e) s.coord

module _ (p : Platform) where
  -- The answer of the last part of `sphere`, where there are rows of both kinds.
  sphere_of-cons :
      (e : Uid) (r : Row p.Float) (rs : List (Row p.Float)) (c : Row (Coord p.floats))
      (cs : List (Row (Coord p.floats))) (s : Sphere p.floats)
      → sphere_of p e (r ∷ rs) (c ∷ cs) ≡ ok (some s)
      → (s.uid ≡ e)
        × (s.radius.magnitude ≡ max_radius p r.value (r ∷ rs))
        × (s.coord ≡ farthest p c.value (c ∷ cs))
  unfolding sphere_of
  sphere_of-cons e r rs c cs s h = ground arith

  module _ (ordered : IsOrdered p.floats) where
    sphere_of-some :
        (e : Uid) (M : Row p.Float → Type 0) (N : Row (Coord p.floats) → Type 0)
        (rs : List (Row p.Float)) (cs : List (Row (Coord p.floats))) (s : Sphere p.floats)
        → ((r : Row p.Float) → In r rs ↔ M r)
        → ((c : Row (Coord p.floats)) → In c cs ↔ N c)
        → sphere_of p e rs cs ≡ ok (some s)
        → (s.uid ≡ e)
          × IsBestOf p.lt (λ x. x) M s.radius.magnitude
          × IsBestOf p.lt distance_from_origin N s.coord
    sphere_of-some e M N [] cs s h k eq = absurd (unfold sphere_of in cc)
    sphere_of-some e M N (r ∷ rs) [] s h k eq = absurd (unfold sphere_of in cc)
    sphere_of-some e M N (r ∷ rs) (c ∷ cs) s h k eq =
        let (uid_eq, radius_eq, coord_eq) = sphere_of-cons e r rs c cs s eq in
        (
          uid_eq,
          subst (IsBestOf p.lt (λ x. x) M) (sym radius_eq) (
              IsBest-IsBestOf p.floats (λ x. x) M r rs (max_radius p r.value (r ∷ rs)) h
                (max_radius-IsBest p ordered r.value (r ∷ rs))),
          subst (IsBestOf p.lt distance_from_origin N) (sym coord_eq) (
              IsBest-IsBestOf p.floats distance_from_origin N c cs (farthest p c.value (c ∷ cs)) k
                (farthest-IsBest p ordered c.value (c ∷ cs))),
        )

    -- A sphere that the query finds has the uid that was asked for, the largest of the magnitudes that
    -- the newest live radius rows of the entity hold, and, of the coordinates that its newest live
    -- coordinate rows hold, one that none is farther from the origin than.
    pub sphere-IsSphereOf :
        IsSql p.sql
        → (db : Db p) (e : Uid) (s : Sphere p.floats) → sphere db e ≡ ok (some s)
        → IsSphereOf db e s
    unfolding sphere
    sphere-IsSphereOf laws db e s h =
        elim (Option-cases
          (p.newest (λ r. r.timestamp) (p.select (is_live (p.to_string e)) db.document))) [
            | inl absent ↦ let missing = rw (absent, sphere) at h in absurd (cc)
            | inr (row, found) ↦
                let (u, m, c) =
                  sphere_of-some e (NewestRadius db e) (NewestCoord db e) _ _ s
                    (In-latest laws db.radius (p.to_string e))
                    (In-latest laws db.coord (p.to_string e)) (rw (found, sphere) at h) in
                record { same_uid = u; radius_best = m; coord_best = c }
          ]

  -- No row of the table is a live one of the entity.
  abbrev pub NoLive : {V : Type 0} → p.Table (Row V) → Uid → Type 0
  NoLive {V} table e = (r : Row V) → In r (rows p.sql table) → ¬ IsLive (p.to_string e) r

  sphere_of-none :
      (e : Uid) (rs : List (Row p.Float)) (cs : List (Row (Coord p.floats)))
      → (sphere_of p e rs cs ≡ ok none) ↔ ((rs ≡ []) ⊎ (cs ≡ []))
  unfolding sphere_of
  sphere_of-none e [] cs = (λ _. inl refl, λ _. refl)
  sphere_of-none e (r ∷ rs) [] = (λ _. inr refl, λ _. refl)
  sphere_of-none e (r ∷ rs) (c ∷ cs) = ground arith

  module _ (laws : IsSql p.sql) (db : Db p) (e : Uid) where
    lookup-none_iff :
        (p.newest (λ r. r.timestamp) (p.select (is_live (p.to_string e)) db.document) ≡ none)
        ↔ NoLive db.document e
    lookup-none_iff = (
      λ h r i l.
          subst (In r) (laws.newest-none _ _ h)
            ((laws.in-select r _ db.document).1 (i, (is_live_iff _ r).1 l)),
      λ h.
          elim (Option-cases
            (p.newest (λ r. r.timestamp) (p.select (is_live (p.to_string e)) db.document))) [
              | inl absent ↦ absent
              | inr (row, found) ↦
                  let (i, _) = laws.newest-some _ _ found in
                  let (stored, live) = (laws.in-select row _ db.document).0 i in
                  absurd (h row stored ((is_live_iff _ row).0 live))
            ],
    )

    -- The query finds no sphere just where the entity has no live row in the table of documents, none
    -- in that of the radii, or none in that of the coordinates.
    pub sphere-none_iff :
        (sphere db e ≡ ok none) ↔ (NoLive db.document e ⊎ NoLive db.radius e ⊎ NoLive db.coord e)
    unfolding sphere
    sphere-none_iff =
        elim (Option-cases
          (p.newest (λ r. r.timestamp) (p.select (is_live (p.to_string e)) db.document))) [
            | inl absent ↦ (λ _. inl (lookup-none_iff.0 absent), λ _. rw (absent, sphere))
            | inr (row, found) ↦ (
              λ h. ground (
                arith,
                (sphere_of-none e (latest p.sql db.radius (p.to_string e))
                      (latest p.sql db.coord (p.to_string e))).0
                    (rw (found, sphere) at h),
                latest-nil_iff laws db.radius (p.to_string e),
                latest-nil_iff laws db.coord (p.to_string e),
              ),
              λ h.
                  rw (found, sphere)
                    (ground (
                      arith,
                      sphere_of-none e (latest p.sql db.radius (p.to_string e))
                          (latest p.sql db.coord (p.to_string e)),
                      latest-nil_iff laws db.radius (p.to_string e),
                      latest-nil_iff laws db.coord (p.to_string e),
                      lookup-none_iff,
                    )),
            )
          ]
