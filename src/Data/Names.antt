-- ===== src/Data/Names.antt =====
-- src/data/Name.cpp.
use structur3d.Prelude.{
  ℕ, ◌+◌, ◌≤◌, ◌≡◌, ◌≢◌, refl, ◌↔◌, Bool, true, false, ◌&&◌, ◌||◌, List, [], ◌∷◌, ◌++◌, arith, ltb,
  ◌==◌, if◌then◌else◌, Outcome, ok, abort, suc, zero, All, ◌<◌,
}
use structur3d.Data.{Name}

-- `from`, and the `count` bytes from it on
unfoldable pub run : ℕ → ℕ → List ℕ
run zero from = []
run (suc count) from = from ∷ run count (suc from)

-- The raw string: from the blank to `&`, a backslash, from the quote to `[`, two backslashes, and
-- from `]` to the tilde.
unfoldable pub allowed_characters : List ℕ
allowed_characters = run 7 32 ++ 92 ∷ (run 53 39 ++ 92 ∷ 92 ∷ run 34 93)

unfoldable pub is_allowed : List ℕ → ℕ → Bool
is_allowed [] c = false
is_allowed (a ∷ as') c = a == c || is_allowed as' c

unfoldable pub all_allowed : List ℕ → Bool
unfolding is_allowed
all_allowed [] = true
all_allowed (c ∷ cs) = is_allowed allowed_characters c && all_allowed cs

-- `Name::Name`, with its two assertions
unfoldable pub make_name : List ℕ → Outcome Name
unfolding all_allowed
make_name [] = abort
make_name (c ∷ cs) = if all_allowed (c ∷ cs) then ok (record { value = c ∷ cs }) else abort

-- `operator<` of the strings: the first byte that differs decides, then the length
unfoldable pub less : List ℕ → List ℕ → Bool
less [] [] = false
less [] (b ∷ bs) = true
less (a ∷ as') [] = false
less (a ∷ as') (b ∷ bs) = ltb a b || (a == b && less as' bs)

-- a character of ASCII from the blank to the tilde
abbrev pub IsPrintable : ℕ → Type 0
IsPrintable c = (32 ≤ c) × (c ≤ 126)

is_allowed-append :
    (xs ys : List ℕ) (c : ℕ) → is_allowed (xs ++ ys) c ≡ is_allowed xs c || is_allowed ys c
unfolding is_allowed
is_allowed-append [] ys c = refl
is_allowed-append (x ∷ xs) ys c = ground (arith, is_allowed-append xs ys c)

is_allowed-run : (k n c : ℕ) → (is_allowed (run k n) c ≡ true) ↔ ((n ≤ c) × (c < n + k))
unfolding is_allowed run
is_allowed-run zero n c = ground arith
is_allowed-run (suc k) n c = ground (arith, is_allowed-run k (suc n) c)

is_allowed_iff : (c : ℕ) → (is_allowed allowed_characters c ≡ true) ↔ IsPrintable c
unfolding allowed_characters is_allowed
is_allowed_iff c =
    rw
      (
        is_allowed-append (run 7 32) (92 ∷ (run 53 39 ++ 92 ∷ 92 ∷ run 34 93)) c,
        is_allowed-append (run 53 39) (92 ∷ 92 ∷ run 34 93) c,
      )
      (ground (arith, is_allowed-run 7 32 c, is_allowed-run 53 39 c, is_allowed-run 34 93 c))

all_allowed_iff : (cs : List ℕ) → (all_allowed cs ≡ true) ↔ All IsPrintable cs
unfolding all_allowed
all_allowed_iff [] = ground arith
all_allowed_iff (c ∷ cs) = ground (arith, is_allowed_iff c, all_allowed_iff cs)

-- The constructor of a name accepts just the texts that are not empty and hold only the printable
-- characters of ASCII, blank to tilde, and keeps them as they are.
pub make_name_iff :
    (cs : List ℕ) (n : Name)
    → (make_name cs ≡ ok n) ↔ ((cs ≢ []) × All IsPrintable cs × (n.value ≡ cs))
unfolding make_name
make_name_iff [] n = (λ e. cc, λ h. absurd (h.0 refl))
make_name_iff (c ∷ cs) n = ground (arith, all_allowed_iff (c ∷ cs))
