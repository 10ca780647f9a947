-- ===== src/Prelude/Lists.antt =====
-- Membership by recursion, which the tactics read, and what the components share about lists.
use Prim.Native.Nat.{ℕ, suc}
use mathlib.Core.Path.{◌≡◌, refl, sym, ap, ◌∙◌, subst}
use mathlib.Core.Logic.{◌⊎◌, inl, inr, ◌↔◌}
use mathlib.Core.Bool.{Bool, true}
use mathlib.Core.Option.{Option, none, some, some-injective}
use mathlib.Core.List.{List, [], ◌∷◌, ◌++◌, map}
use native.Mathlib.Omega.{arith}
use structur3d.Prelude.Tests.{if◌then◌else◌}

module _ {A : Type 0} where
  abbrev pub In : A → List A → Type 0
  In x [] = ⊥
  In x (y ∷ ys) = (x ≡ y) ⊎ In x ys

  abbrev pub All : (A → Type 0) → List A → Type 0
  All P [] = Unit
  All P (x ∷ xs) = P x × All P xs

  abbrev pub length : List A → ℕ
  length [] = 0
  length (x ∷ xs) = suc (length xs)

  pub In-append : (x : A) (xs ys : List A) → In x (xs ++ ys) ↔ (In x xs ⊎ In x ys)
  In-append x [] ys = (λ h. inr h, λ h. elim h [ inl e ↦ absurd e | inr i ↦ i ])
  In-append x (y ∷ xs) ys = ground (arith, In-append x xs ys)

  -- The elements that pass a test, in order.
  abbrev pub keep : (A → Bool) → List A → List A
  keep p [] = []
  keep p (x ∷ xs) = if p x then x ∷ keep p xs else keep p xs

  pub In-keep : (p : A → Bool) (x : A) (xs : List A) → In x (keep p xs) ↔ (In x xs × (p x ≡ true))
  In-keep p x [] = ground arith
  In-keep p x (y ∷ xs) = ground (arith, In-keep p x xs)

pub In-map : {A B : Type 0} (f : A → B) (x : A) (xs : List A) → In x xs → In (f x) (map f xs)
In-map f x [] i = absurd i
In-map f x (y ∷ xs) i = elim i [ inl e ↦ inl (ap f e) | inr j ↦ inr (In-map f x xs j) ]

pub In-map_iff :
    {A B : Type 0} (f : A → B) (y : B) (xs : List A)
    → In y (map f xs) ↔ ((x : A) × In x xs × (y ≡ f x))
In-map_iff f y [] = (λ i. absurd i, λ (x, i, e). absurd i)
In-map_iff f y (a ∷ xs) = (
  λ i. elim i [
    | inl e ↦ (a, inl refl, e)
    | inr j ↦ let (x, k, e) = (In-map_iff f y xs).0 j in (x, inr k, e)
  ],
  λ (x, i, e). elim i [ inl p ↦ inl (e ∙ ap f p) | inr j ↦ inr ((In-map_iff f y xs).1 (x, j, e)) ],
)

pub In-map_append :
    {A B : Type 0} (f : A → B) (y : B) (xs ys : List A)
    → In y (map f (xs ++ ys)) ↔ (In y (map f xs) ⊎ In y (map f ys))
In-map_append f y [] ys = (λ h. inr h, λ h. elim h [ inl e ↦ absurd e | inr i ↦ i ])
In-map_append f y (x ∷ xs) ys = ground (arith, In-map_append f y xs ys)

-- Lists with the same members have the same images.
pub In-map_same :
    {A B : Type 0} (f : A → B) (y : B) (xs ys : List A)
    → ((x : A) → In x xs ↔ In x ys)
    → In y (map f xs) ↔ In y (map f ys)
In-map_same f y xs ys same = (
  λ i. let (x, j, e) = (In-map_iff f y xs).0 i in (In-map_iff f y ys).1 (x, (same x).0 j, e),
  λ i. let (x, j, e) = (In-map_iff f y ys).0 i in (In-map_iff f y xs).1 (x, (same x).1 j, e),
)

-- What a partial function gives on a list.
abbrev pub pick : {A B : Type 0} → (A → Option B) → List A → List B
pick f [] = []
pick f (x ∷ xs) = elim (f x) [ none ↦ pick f xs | some y ↦ y ∷ pick f xs ]

pub In-pick_iff :
    {A B : Type 0} (f : A → Option B) (y : B) (xs : List A)
    → In y (pick f xs) ↔ ((x : A) × In x xs × (f x ≡ some y))
In-pick_iff f y [] = (λ i. absurd i, λ (x, i, e). absurd i)
In-pick_iff {A = A} {B = B} f y (x ∷ xs) = from_head (f x) refl (In-pick_iff f y xs)
  where
    from_head :
        (o : Option B)
        → f x ≡ o
        → (In y (pick f xs) ↔ ((a : A) × In a xs × (f a ≡ some y)))
        → In y (elim o [ none ↦ pick f xs | some z ↦ z ∷ pick f xs ])
          ↔ ((a : A) × In a (x ∷ xs) × (f a ≡ some y))
    from_head none at rest = (
      λ i. let (a, j, e) = rest.0 i in (a, inr j, e),
      λ (a, i, e). elim i [
        | inl same ↦ let bad = sym at ∙ (ap f (sym same) ∙ e) in absurd (cc)
        | inr j ↦ rest.1 (a, j, e)
      ],
    )
    from_head (some z) at rest = (
      λ i. elim i [
        | inl same ↦ (x, inl refl, at ∙ ap some (sym same))
        | inr j ↦ let (a, k, e) = rest.0 j in (a, inr k, e)
      ],
      λ (a, i, e). elim i [
        | inl same ↦ inl (some-injective y z (sym e ∙ (ap f same ∙ at)))
        | inr j ↦ inr (rest.1 (a, j, e))
      ],
    )

pub In-pick_same :
    {A B : Type 0} (f : A → Option B) (y : B) (xs ys : List A)
    → ((x : A) → In x xs ↔ In x ys)
    → In y (pick f xs) ↔ In y (pick f ys)
In-pick_same f y xs ys same = (
  λ i. let (x, j, e) = (In-pick_iff f y xs).0 i in (In-pick_iff f y ys).1 (x, (same x).0 j, e),
  λ i. let (x, j, e) = (In-pick_iff f y ys).0 i in (In-pick_iff f y xs).1 (x, (same x).1 j, e),
)

pub In-All : {A : Type 0} (P : A → Type 0) (xs : List A) (x : A) → All P xs → In x xs → P x
In-All P [] x all i = absurd i
In-All P (y ∷ xs) x (here, all) i = elim i [
  | inl e ↦ subst P (sym e) here
  | inr j ↦ In-All P xs x all j
]

pub All-append :
    {A : Type 0} (P : A → Type 0) (xs ys : List A) → All P xs → All P ys → All P (xs ++ ys)
All-append P [] ys all all' = all'
All-append P (x ∷ xs) ys (here, all) all' = (here, All-append P xs ys all all')

-- A list with no member is empty.
pub nil_of_no_In : {A : Type 0} (xs : List A) → ((x : A) → ¬ In x xs) → xs ≡ []
nil_of_no_In [] h = refl
nil_of_no_In (x ∷ xs) h = absurd (h x (inl refl))
