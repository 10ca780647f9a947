-- ===== src/Tests/Strings.antt =====
-- Random strings from a generator that counts.
use structur3d.Prelude.{ℕ, suc, ◌≡◌, List, [], ◌∷◌, In, All, length, ok, if◌then◌else◌, ltb, arith}
use structur3d.Utils.RandomString.{Generator, IsUniform, random_string, random_string_lem}

abbrev counter : Generator
counter = record { State = ℕ; uniform = λ most s. (if ltb most s then most else s, suc s) }

counter-IsUniform : IsUniform counter
counter-IsUniform most s = ground arith

abbrev letters : List ℕ
letters = 65 ∷ 66 ∷ []

random_string_lem_example :
    (cs : List ℕ) × (t : ℕ) × (random_string counter 3 letters 0 ≡ ok (cs, t))
    × (length cs ≡ 3)
    × All (λ c. In c letters) cs
random_string_lem_example = random_string_lem counter counter-IsUniform 3 letters 0 (λ e. cc)
