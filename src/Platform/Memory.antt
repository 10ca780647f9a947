-- ===== src/Platform/Memory.antt =====
-- A platform on which the definitions run: a table is the list of its rows, a uuid prints as as many
-- letters as its number, a float is a whole number. It meets `IsSql`, `IsCodec` and `IsOrdered`.
use Prim.Native.Nat.{◌≤◌}
use structur3d.Prelude.{
  ℕ, zero, suc, ◌+◌, ◌-◌, ◌*◌, ◌≡◌, refl, ap, ◌↔◌, inl, inr, Bool, true, false, not, ◌||◌, String,
  Option, none, some, List, [], ◌∷◌, In, keep, In-keep, arith, ltb, str_eq, eq_iff, if◌then◌else◌,
  Option-cases, Bool-cases,
}
use structur3d.Platform.{Engine, Uuids, Floats, Platform, IsSql, IsCodec, IsOrdered, every}

module _ {A : Type 0} where
  abbrev newest : (A → ℕ) → List A → Option A
  newest key [] = none
  newest key (x ∷ xs) = elim (newest key xs) [
    | none ↦ some x
    | some y ↦ some (if ltb (key x) (key y) then y else x)
  ]

  newest-none : (key : A → ℕ) (xs : List A) → newest key xs ≡ none → xs ≡ []
  newest-none key [] h = refl
  newest-none key (x ∷ xs) h = ground arith

  newest-some :
      (key : A → ℕ) (xs : List A) {x : A}
      → newest key xs ≡ some x
      → In x xs × ((y : A) → In y xs → key y ≤ key x)
  newest-some key [] h = cc
  newest-some key (x ∷ xs) {x = z} h = elim (Option-cases (newest key xs)) [
    | inl e ↦ (
      ground arith,
      λ y. elim [ inl p ↦ ground arith | inr i ↦ ground (arith, newest-none key xs e) ],
    )
    | inr (w, e) ↦
        let (i, upper) = newest-some key xs e in
        (ground arith, λ y. elim [ inl p ↦ ground arith | inr j ↦ ground (arith, upper y j) ])
  ]

abbrev contains : String → List String → Bool
contains s [] = false
contains s (x ∷ xs) = str_eq x s || contains s xs

abbrev group_by : List String → List String
group_by [] = []
group_by (s ∷ xs) = if contains s xs then group_by xs else s ∷ group_by xs

In-contains : (s : String) (xs : List String) → contains s xs ≡ true → In s xs
In-contains s [] h = cc
In-contains s (x ∷ xs) h = ground (arith, eq_iff x s, In-contains s xs)

In-group_by : (s : String) (xs : List String) → In s (group_by xs) ↔ In s xs
In-group_by s [] = ground arith
In-group_by s (x ∷ xs) = elim (Bool-cases (contains x xs)) [
  | inl e ↦ (
    λ i. inr ((In-group_by s xs).0 (rw e at i)),
    λ h. rw e ((In-group_by s xs).1 (elim h [ inl p ↦ rw p (In-contains x xs e) | inr i ↦ i ])),
  )
  | inr e ↦ ground (arith, In-group_by s xs)
]

abbrev pub list_engine : Engine
list_engine = record {
  Table = List;
  create_table = λ A. [];
  insert_into = λ r t. r ∷ t;
  remove_from = λ p t. keep (λ r. not (p r)) t;
  select = keep;
  group_by = group_by;
  newest = newest;
}

In-remove :
    {A : Type 0} (x : A) (p : A → Bool) (t : List A)
    → In x (keep every (keep (λ r. not (p r)) t)) ↔ (In x (keep every t) × (p x ≡ false))
In-remove x p t = ground (
  arith,
  In-keep every x (keep (λ r. not (p r)) t),
  In-keep (λ r. not (p r)) x t,
  In-keep every x t,
)

pub list_engine-IsSql : IsSql list_engine
list_engine-IsSql = record {
  in-create = λ x h. absurd h;
  in-insert = λ x r t. ground (arith, In-keep every x (r ∷ t), In-keep every x t);
  in-remove = λ x p t. In-remove x p t;
  in-select = λ x p t. ground (arith, In-keep every x t, In-keep p x t);
  in-group = In-group_by;
  newest-some = newest-some;
  newest-none = newest-none;
}

abbrev letters : ℕ → String
letters zero = ""
letters (suc n) = String.◌∷◌ "u" (letters n)

abbrev count : String → ℕ
count String.[] = 0
count (String.◌∷◌ c s) = suc (count s)

abbrev pub letter_uuids : Uuids
letter_uuids = record { to_string = letters; of_string = count }

pub letter_uuids-IsCodec : IsCodec letter_uuids
letter_uuids-IsCodec zero = refl
letter_uuids-IsCodec (suc n) = ap suc (letter_uuids-IsCodec n)

abbrev pub whole : Floats
whole = record {
  Float = ℕ;
  zero_f = 0;
  lt = ltb;
  le = λ x y. not (ltb y x);
  add = ◌+◌;
  sub = ◌-◌;
  mul = ◌*◌;
  sqrt = λ x. x;
  abs = λ x. x;
}

pub whole-IsOrdered : IsOrdered whole
whole-IsOrdered = ground arith

abbrev pub memory : Platform
memory = record { sql = list_engine; uuids = letter_uuids; floats = whole; stored = λ x. x }
