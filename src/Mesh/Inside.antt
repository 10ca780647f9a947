-- ===== src/Mesh/Inside.antt =====
-- Which points the minimum or the maximum of several shapes holds (aggregate_of of src/mesh/MeshFactory.cpp).
use structur3d.Prelude.{
  ◌≡◌, refl, Bool, true, false, ◌&&◌, ◌||◌, Option, none, some, List, [], ◌∷◌, arith,
}
use structur3d.Platform.{Floats}
use structur3d.Mesh.{Shapes, combine_all, aggregate_of}

-- A point is inside the minimum of two shapes where it is inside one, and inside the maximum where it is
-- inside both: a shape is negative inside.
pub record IsInside {f : Floats} (l5 : Shapes f) (inside : l5.Shape → Bool) : Type 0 where
  pub inside-min : (s t : l5.Shape) → inside (l5.min s t) ≡ inside s || inside t
  pub inside-max : (s t : l5.Shape) → inside (l5.max s t) ≡ inside s && inside t

module _ {A : Type 0} where
  abbrev pub filled : List A → Bool
  filled [] = false
  filled (s ∷ ss) = true

  abbrev pub is_some : Option A → Bool
  is_some none = false
  is_some (some s) = true

  module _ (inside : A → Bool) where
    abbrev pub any_inside : List A → Bool
    any_inside [] = false
    any_inside (s ∷ ss) = inside s || any_inside ss

    abbrev pub all_inside : List A → Bool
    all_inside [] = true
    all_inside (s ∷ ss) = inside s && all_inside ss

    abbrev pub inside_of : Option A → Bool
    inside_of none = false
    inside_of (some s) = inside s

module _ {f : Floats} {l5 : Shapes f} {inside : l5.Shape → Bool} (laws : IsInside l5 inside) where
  inside-combine_min :
      (s : l5.Shape) (ss : List l5.Shape)
      → inside (combine_all l5 l5.min s ss) ≡ inside s || any_inside inside ss
  unfolding combine_all
  inside-combine_min s [] = ground arith
  inside-combine_min s (t ∷ ss) =
      ground (arith, inside-combine_min (l5.min s t) ss, laws.inside-min s t)

  inside-combine_max :
      (s : l5.Shape) (ss : List l5.Shape)
      → inside (combine_all l5 l5.max s ss) ≡ inside s && all_inside inside ss
  unfolding combine_all
  inside-combine_max s [] = ground arith
  inside-combine_max s (t ∷ ss) =
      ground (arith, inside-combine_max (l5.max s t) ss, laws.inside-max s t)

  pub inside-aggregate_min :
      (ss : List l5.Shape) → inside_of inside (aggregate_of l5 ss l5.min) ≡ any_inside inside ss
  unfolding aggregate_of
  inside-aggregate_min [] = refl
  inside-aggregate_min (s ∷ []) = ground arith
  inside-aggregate_min (s ∷ t ∷ ss) = inside-combine_min s (t ∷ ss)

  pub inside-aggregate_max :
      (ss : List l5.Shape)
      → inside_of inside (aggregate_of l5 ss l5.max) ≡ filled ss && all_inside inside ss
  unfolding aggregate_of
  inside-aggregate_max [] = refl
  inside-aggregate_max (s ∷ []) = ground arith
  inside-aggregate_max (s ∷ t ∷ ss) = inside-combine_max s (t ∷ ss)

  pub filled-aggregate :
      (ss : List l5.Shape) (combine : l5.Shape → l5.Shape → l5.Shape)
      → is_some (aggregate_of l5 ss combine) ≡ filled ss
  unfolding aggregate_of
  filled-aggregate [] combine = refl
  filled-aggregate (s ∷ []) combine = refl
  filled-aggregate (s ∷ t ∷ ss) combine = refl
