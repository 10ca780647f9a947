-- ===== src/Utils/RandomString.antt =====
-- src/utils/random_string.cpp, over any generator of numbers.
use structur3d.Prelude.{
  ℕ, zero, suc, ◌≡◌, ◌≢◌, ◌<◌, ◌≤◌, refl, ap, inl, inr, List, [], ◌∷◌, In, All, length, arith,
  Outcome, ok, abort, ◌>>=◌,
}

-- The engine with its state, and `std::uniform_int_distribution` over it: a number from 0 up to the given
-- one.
pub record Generator : Type 1 where
  pub State : Type 0
  pub uniform : ℕ → State → ℕ × State

-- The distribution keeps to its range.
abbrev pub IsUniform : Generator → Type 0
IsUniform g = (most : ℕ) (s : g.State) → (g.uniform most s).0 ≤ most

-- The character at an iterator, which is none behind the last one.
abbrev pub character_at : ℕ → List ℕ → Outcome ℕ
character_at i [] = abort
character_at zero (c ∷ cs) = ok c
character_at (suc i) (c ∷ cs) = character_at i cs

module _ (g : Generator) where
  -- Of no characters the range of the distribution would be from 0 to -1, which it excludes.
  unfoldable pub select_randomly : List ℕ → g.State → Outcome (ℕ × g.State)
  select_randomly [] s = abort
  select_randomly (c ∷ cs) s = ok (g.uniform (length cs) s)

  unfoldable pub random_string : ℕ → List ℕ → g.State → Outcome (List ℕ × g.State)
  unfolding select_randomly
  random_string zero allowed s = ok ([], s)
  random_string (suc n) allowed s = do
    picked ← select_randomly allowed s
    c ← character_at picked.0 allowed
    rest ← random_string n allowed picked.1
    ok (c ∷ rest.0, rest.1)

  character_at-In :
      (i : ℕ) (cs : List ℕ) → i < length cs → (c : ℕ) × (character_at i cs ≡ ok c) × In c cs
  character_at-In i [] h = absurd (omega arith)
  character_at-In zero (c ∷ cs) h = (c, refl, inl refl)
  character_at-In (suc i) (c ∷ cs) h =
      let (x, found, here) = character_at-In i cs (omega arith) in (x, found, inr here)

  -- From a generator that keeps to its range and characters of which there is at least one, a
  -- random string comes back, of the length that was asked for, and of those characters alone.
  pub random_string_lem :
      IsUniform g
      → (n : ℕ) (allowed : List ℕ) (s : g.State) → allowed ≢ []
      → (cs : List ℕ) × (t : g.State) × (random_string n allowed s ≡ ok (cs, t))
        × (length cs ≡ n)
        × All (λ c. In c allowed) cs
  unfolding random_string select_randomly
  random_string_lem uniform zero allowed s some_allowed = ([], s, refl, refl, tt)
  random_string_lem uniform (suc n) [] s some_allowed = absurd (some_allowed refl)
  random_string_lem uniform (suc n) (a ∷ allowed) s some_allowed =
      let picked = g.uniform (length allowed) s in
      let (c, found, here) =
        character_at-In picked.0 (a ∷ allowed) (omega (arith, uniform (length allowed) s)) in
      let (cs, t, done, size, inside) =
        random_string_lem uniform n (a ∷ allowed) picked.1 some_allowed in
      (c ∷ cs, t, rw (found, done) refl, ap suc size, (here, inside))
