-- ===== src/Db/Queries/Best.antt =====
-- The two loops of `sphere`, which keep the best of the rows by `<` on floats.
use structur3d.Prelude.{
  ◌≡◌, refl, ◌⊎◌, inl, inr, true, false, List, [], ◌∷◌, In, arith, if◌then◌else◌, Bool-cases,
}
use structur3d.Platform.{Floats, Platform, IsOrdered}
use structur3d.Data.{Coord}
use structur3d.Data.Codes.{distance_from_origin}
use structur3d.Db.Rows.{Row}
use structur3d.Db.Queries.{max_radius, farthest}

module _ (f : Floats) {A : Type 0} (key : A → f.Float) where
  -- The loop, for any key.
  climb : A → List (Row A) → A
  climb best [] = best
  climb best (r ∷ rs) = climb (if f.lt (key best) (key r.value) then r.value else best) rs

  -- The result is the first value or that of a row, and neither the first nor a row's is larger.
  pub record IsBest (first : A) (rs : List (Row A)) (best : A) : Type 0 where
    pub attained : (best ≡ first) ⊎ ((r : Row A) × In r rs × (best ≡ r.value))
    pub first_le : f.lt (key best) (key first) ≡ false
    pub rows_le : (r : Row A) → In r rs → f.lt (key best) (key r.value) ≡ false

  -- With the reason why no row before the last step is larger.
  record Climbs (first : A) (rs : List (Row A)) (best : A) : Type 0 where
    is_best : IsBest first rs best
    climbed : (best ≡ first) ⊎ (f.lt (key first) (key best) ≡ true)

  module _ (laws : IsOrdered f) where
    not_lt_below :
        (x b c : A)
        → f.lt (key x) (key c) ≡ false
        → f.lt (key b) (key c) ≡ true
        → f.lt (key x) (key b) ≡ false
    not_lt_below x b c h up = ground (arith, laws.lt_trans (key x) (key b) (key c))

    not_lt_above :
        (x b c : A)
        → (x ≡ b) ⊎ (f.lt (key b) (key x) ≡ true)
        → f.lt (key b) (key c) ≡ false
        → f.lt (key x) (key c) ≡ false
    not_lt_above x b c h e = ground (arith, laws.lt_trans (key b) (key x) (key c))

    Climbs-up :
        (first : A) (r : Row A) (rs : List (Row A)) (b : A)
        → f.lt (key first) (key r.value) ≡ true
        → Climbs r.value rs b
        → Climbs first (r ∷ rs) b
    Climbs-up first r rs b up ih = record {
      is_best = record {
        attained = elim ih.is_best.attained [
          | inl e ↦ inr (r, inl refl, e)
          | inr (s, i, e) ↦ inr (s, inr i, e)
        ];
        first_le = not_lt_below b first r.value ih.is_best.first_le up;
        rows_le = λ s. elim [ inl e ↦ rw e ih.is_best.first_le | inr i ↦ ih.is_best.rows_le s i ];
      };
      climbed = ground (arith, ih.climbed, laws.lt_trans (key first) (key r.value) (key b));
    }

    Climbs-stay :
        (first : A) (r : Row A) (rs : List (Row A)) (b : A)
        → f.lt (key first) (key r.value) ≡ false
        → Climbs first rs b
        → Climbs first (r ∷ rs) b
    Climbs-stay first r rs b stay ih = record {
      is_best = record {
        attained = elim ih.is_best.attained [ inl e ↦ inl e | inr (s, i, e) ↦ inr (s, inr i, e) ];
        first_le = ih.is_best.first_le;
        rows_le = λ s. elim [
          | inl e ↦ rw e (not_lt_above b first r.value ih.climbed stay)
          | inr i ↦ ih.is_best.rows_le s i
        ];
      };
      climbed = ih.climbed;
    }

    climb-Climbs : (first : A) (rs : List (Row A)) → Climbs first rs (climb first rs)
    unfolding climb
    climb-Climbs first [] = record {
      is_best = record {
        attained = inl refl;
        first_le = laws.lt_irrefl (key first);
        rows_le = λ r i. absurd i;
      };
      climbed = inl refl;
    }
    climb-Climbs first (r ∷ rs) = elim (Bool-cases (f.lt (key first) (key r.value))) [
      | inl up ↦ rw up (Climbs-up first r rs _ up (climb-Climbs r.value rs))
      | inr stay ↦ rw stay (Climbs-stay first r rs _ stay (climb-Climbs first rs))
    ]

module _ (p : Platform) where
  max_radius-climb :
      (best : p.Float) (rs : List (Row p.Float))
      → max_radius p best rs ≡ climb p.floats (λ x. x) best rs
  unfolding max_radius climb
  max_radius-climb best [] = refl
  max_radius-climb best (r ∷ rs) = max_radius-climb (if p.lt best r.value then r.value else best) rs

  farthest-climb :
      (best : Coord p.floats) (rs : List (Row (Coord p.floats)))
      → farthest p best rs ≡ climb p.floats distance_from_origin best rs
  unfolding farthest climb
  farthest-climb best [] = refl
  farthest-climb best (r ∷ rs) =
      farthest-climb
        (if p.lt (distance_from_origin best) (distance_from_origin r.value) then r.value else best)
        rs

  module _ (laws : IsOrdered p.floats) where
    pub max_radius-IsBest :
        (best : p.Float) (rs : List (Row p.Float))
        → IsBest p.floats (λ x. x) best rs (max_radius p best rs)
    max_radius-IsBest best rs =
        rw (max_radius-climb best rs) (climb-Climbs p.floats (λ x. x) laws best rs).is_best

    pub farthest-IsBest :
        (best : Coord p.floats) (rs : List (Row (Coord p.floats)))
        → IsBest p.floats distance_from_origin best rs (farthest p best rs)
    farthest-IsBest best rs =
        rw (farthest-climb best rs)
          (climb-Climbs p.floats distance_from_origin laws best rs).is_best
