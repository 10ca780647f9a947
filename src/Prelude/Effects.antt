-- ===== src/Prelude/Effects.antt =====
-- What a call comes to: a value, or the end of the program by a failed assertion, a null pointer or
-- an exception that nobody catches.
use mathlib.Core.Path.{◌≡◌, refl, ap, ◌∙◌}
use mathlib.Core.Logic.{◌⊎◌, inl, inr}
use mathlib.Core.List.{List, [], ◌∷◌, ◌++◌, map}

pub data Outcome {ℓ} (A : Type ℓ) : Type ℓ where
  ok : A → Outcome A
  abort : Outcome A

infixl 5 ◌>>=◌
abbrev pub ◌>>=◌ {ℓ κ} : {A : Type ℓ} {B : Type κ} → Outcome A → (A → Outcome B) → Outcome B
ok a >>= f = f a
abort >>= f = abort

-- A loop that runs the body for each element, and threads the state.
abbrev pub for_each {ℓ κ} : {A : Type ℓ} {S : Type κ} → List A → (A → S → Outcome S) → S → Outcome S
for_each [] body s = ok s
for_each (x ∷ xs) body s = body x s >>= for_each xs body

pub Outcome-cases {ℓ} : {A : Type ℓ} (o : Outcome A) → (o ≡ abort) ⊎ ((a : A) × (o ≡ ok a))
Outcome-cases (ok a) = inr (a, refl)
Outcome-cases abort = inl refl

abbrev value_or {ℓ} : {A : Type ℓ} → A → Outcome A → A
value_or a (ok b) = b
value_or a abort = a

pub ok-injective {ℓ} : {A : Type ℓ} {a b : A} → ok a ≡ ok b → a ≡ b
ok-injective {a} h = ap (value_or a) h

-- Both steps of a chain that gives a value give one.
pub >>=-eq-ok {ℓ κ} :
    {A : Type ℓ} {B : Type κ} (m : Outcome A) (k : A → Outcome B) {b : B}
    → (m >>= k) ≡ ok b
    → (a : A) × (m ≡ ok a) × (k a ≡ ok b)
>>=-eq-ok (ok a) k h = (a, refl, h)
>>=-eq-ok abort k h = cc

-- One loop after another.
pub for_each-append :
    {A S : Type 0} (xs ys : List A) (body : A → S → Outcome S) (s t u : S)
    → for_each xs body s ≡ ok t
    → for_each ys body t ≡ ok u
    → for_each (xs ++ ys) body s ≡ ok u
for_each-append [] ys body s t u h k = ap (for_each ys body) (ok-injective h) ∙ k
for_each-append (x ∷ xs) ys body s t u h k =
    let (mid, first, rest) = >>=-eq-ok (body x s) (for_each xs body) h in
    rw first (for_each-append xs ys body mid t u rest k)

-- A view of the state that each turn of a loop changes as another body does.
pub for_each-view :
    {A B S T : Type 0} (f : A → B) (view : S → T) (body : B → S → Outcome S)
    (act : A → T → Outcome T)
    → ((x : A) (s t : S) → body (f x) s ≡ ok t → act x (view s) ≡ ok (view t))
    → (xs : List A) (s t : S) → for_each (map f xs) body s ≡ ok t
    → for_each xs act (view s) ≡ ok (view t)
for_each-view f view body act each [] s t h = ap ok (ap view (ok-injective h))
for_each-view f view body act each (x ∷ xs) s t h =
    let (mid, first, rest) = >>=-eq-ok (body (f x) s) (for_each (map f xs) body) h in
    rw (each x s mid first) (for_each-view f view body act each xs mid t rest)
