-- ===== src/Platform/Bitsery/Composites.antt =====
-- Each way to put codecs together reads back what its parts read back.
use structur3d.Prelude.{
  ℕ, zero, suc, ◌≡◌, refl, ap, ◌∙◌, ◌≤◌, Option, some, false, List, [], ◌∷◌, ◌++◌, append_assoc, ok,
  length, ltb, All, arith,
}
use structur3d.Platform.Bitsery.{
  Bytes, Codec, ReadsBack, both, via, enumeration, by_value, write_all, read_all, container, resize,
  text,
}

-- What follows the first of two parts is the second and what follows that.
part :
    {A : Type 0} (c : Codec A) (x : A) (bs cs rest : Bytes)
    → (old : A) → ((old : A) (r : Bytes) → c.read old (bs ++ r) ≡ some (x, r))
    → c.read old ((bs ++ cs) ++ rest) ≡ some (x, cs ++ rest)
part c x bs cs rest old h = ap (c.read old) (append_assoc bs cs rest) ∙ h old (cs ++ rest)

pub both-ReadsBack :
    {A B : Type 0} (c : Codec A) (d : Codec B) (a : A) (b : B)
    → ReadsBack c a
    → ReadsBack d b
    → ReadsBack (both c d) (a, b)
unfolding both
both-ReadsBack c d a b first second =
    let (bs, w, r) = first.trip in
    let (cs, w', r') = second.trip in
    record {
      trip = (
        bs ++ cs,
        rw (w, w') refl,
        λ (o, o') rest. rw (part c a bs cs rest o r, r' o' rest) refl,
      );
    }

pub via-ReadsBack :
    {A B : Type 0} (parts : B → A) (build : A → B) (c : Codec A) (b : B)
    → build (parts b) ≡ b
    → ReadsBack c (parts b)
    → ReadsBack (via parts build c) b
unfolding via
via-ReadsBack parts build c b back first =
    let (bs, w, r) = first.trip in
    record { trip = (bs, w, λ old rest. rw (r (parts old) rest, back) refl) }

pub enumeration-ReadsBack :
    {A : Type 0} (code : A → ℕ) (value : ℕ → Option A) (c : Codec ℕ) (a : A)
    → value (code a) ≡ some a
    → ReadsBack c (code a)
    → ReadsBack (enumeration code value c) a
unfolding enumeration
enumeration-ReadsBack code value c a back first =
    let (bs, w, r) = first.trip in
    record { trip = (bs, w, λ old rest. rw (r (code old) rest, back) refl) }

-- The value is written, and reading it makes of any object what is given.
abbrev pub Gives : {A : Type 0} → Codec A → A → (A → A) → Type 0
Gives {A} c x got =
    (bs : Bytes) × (c.write x ≡ ok bs)
    × ((old : A) (rest : Bytes) → c.read old (bs ++ rest) ≡ some (got old, rest))

pub by_value-Gives :
    {A : Type 0} (c : Codec A) (x : A) → ReadsBack c x → Gives (by_value c) x (λ old. old)
unfolding by_value
by_value-Gives c x first = let (bs, w, r) = first.trip in (bs, w, λ old rest. rw (r old rest) refl)

abbrev all_got : {A : Type 0} → (A → A → A) → List A → List A → List A
all_got got (x ∷ xs) (old ∷ olds) = got x old ∷ all_got got xs olds
all_got got _ _ = []

-- A range of objects, as many as there are values.
module _ {A : Type 0} (c : Codec A) (got : A → A → A) where
  abbrev AllGive : List A → Type 0
  AllGive xs = All (λ x. Gives c x (got x)) xs

  written : (xs : List A) → AllGive xs → Bytes
  written [] h = []
  written (x ∷ xs) ((bs, _, _), h) = bs ++ written xs h

  write_all-written : (xs : List A) (h : AllGive xs) → write_all c xs ≡ ok (written xs h)
  unfolding written
  write_all-written [] h = refl
  write_all-written (x ∷ xs) ((bs, w, _), h) = rw (w, write_all-written xs h) refl

  read_all-written :
      (xs : List A) (h : AllGive xs) (olds : List A) (rest : Bytes)
      → length olds ≡ length xs
      → read_all c olds (written xs h ++ rest) ≡ some (all_got got xs olds, rest)
  unfolding written
  read_all-written [] h [] rest e = refl
  read_all-written [] h (o ∷ os) rest e = absurd (omega arith)
  read_all-written (x ∷ xs) h [] rest e = absurd (omega arith)
  read_all-written (x ∷ xs) ((bs, w, r), h) (o ∷ os) rest e =
      rw
        (
          ap (c.read o) (append_assoc bs (written xs h) rest) ∙ r o (written xs h ++ rest),
          read_all-written xs h os rest (omega arith),
        )
        refl

all_got-new :
    {A : Type 0} (xs olds : List A) → length olds ≡ length xs → all_got (λ x _. x) xs olds ≡ xs
all_got-new [] olds e = refl
all_got-new (x ∷ xs) [] e = absurd (omega arith)
all_got-new (x ∷ xs) (o ∷ os) e = ap (λ l. x ∷ l) (all_got-new xs os (omega arith))

all_got-old :
    {A : Type 0} (xs olds : List A)
    → length olds ≡ length xs
    → all_got (λ _ old. old) xs olds ≡ olds
all_got-old [] [] e = refl
all_got-old [] (o ∷ os) e = absurd (omega arith)
all_got-old (x ∷ xs) [] e = absurd (omega arith)
all_got-old (x ∷ xs) (o ∷ os) e = ap (λ l. o ∷ l) (all_got-old xs os (omega arith))

All-ReadsBack :
    {A : Type 0} (c : Codec A) (xs : List A) → All (ReadsBack c) xs → AllGive c (λ x _. x) xs
All-ReadsBack c [] h = tt
All-ReadsBack c (x ∷ xs) (first, h) = (first.trip, All-ReadsBack c xs h)

-- An array of templates that take their objects by value stays as it was.
pub container-Keeps :
    {A : Type 0} (c : Codec A) (xs : List A)
    → All (λ x. Gives c x (λ old. old)) xs
    → (bs : Bytes) × ((container c).write xs ≡ ok bs)
      × ((olds : List A) (rest : Bytes)
          → length olds ≡ length xs
          → (container c).read olds (bs ++ rest) ≡ some (olds, rest))
unfolding container
container-Keeps c xs h = (
  written c (λ _ old. old) xs h,
  write_all-written c (λ _ old. old) xs h,
  λ olds rest e.
      read_all-written c (λ _ old. old) xs h olds rest e
      ∙ ap (λ l. some (l, rest)) (all_got-old xs olds e),
)

length-resize : (n : ℕ) (cs : List ℕ) → length (resize n cs) ≡ n
length-resize zero cs = refl
length-resize (suc n) [] = ap suc (length-resize n [])
length-resize (suc n) (c ∷ cs) = ap suc (length-resize n cs)

pub text-ReadsBack :
    (size value1b : Codec ℕ) (max : ℕ) (cs : List ℕ)
    → length cs ≤ max
    → ReadsBack size (length cs)
    → All (ReadsBack value1b) cs
    → ReadsBack (text size value1b max) cs
unfolding text
text-ReadsBack size value1b max cs fits first h =
    let (bs, w, r) = first.trip in
    let all = All-ReadsBack value1b cs h in
    let ds = written value1b (λ x _. x) cs all in
    let short : ltb max (length cs) ≡ false = ground arith in
    record {
      trip = (
        bs ++ ds,
        rw (short, w, write_all-written value1b (λ x _. x) cs all) refl,
        λ old rest.
            let olds = resize (length cs) old in
            rw
              (
                part size (length cs) bs ds rest (length old) r,
                short,
                read_all-written value1b (λ x _. x) cs all olds rest
                    (length-resize (length cs) old),
                all_got-new cs olds (length-resize (length cs) old),
              )
              refl,
      );
    }
