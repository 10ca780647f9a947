-- ===== src/Platform.antt =====
-- What the code takes from outside the repository: SQLite behind sqlpp11, the text form of Boost's
-- uuids, and floating-point arithmetic. Each is a record of operations, with the documented
-- behaviour that the proofs rely on as a record of laws.
pub mod Memory
pub mod Bitsery
use structur3d.Prelude.{
  ℕ, ◌≤◌, ◌≡◌, sym, ◌∙◌, ap, ◌↔◌, ◌⊎◌, Bool, true, false, String, Option, none, some, List, [], In,
}

-- The statements that the code issues. The order of the rows of a result is the engine's choice.
pub record Engine : Type 1 where
  pub Table : Type 0 → Type 0
  -- CREATE TABLE
  pub create_table : (A : Type 0) → Table A
  -- INSERT INTO
  pub insert_into : {A : Type 0} → A → Table A → Table A
  -- DELETE FROM … WHERE
  pub remove_from : {A : Type 0} → (A → Bool) → Table A → Table A
  -- SELECT … WHERE
  pub select : {A : Type 0} → (A → Bool) → Table A → List A
  -- … GROUP BY (or DISTINCT) over a text column: each value once
  pub group_by : List String → List String
  -- … ORDER BY a key DESC LIMIT 1
  pub newest : {A : Type 0} → (A → ℕ) → List A → Option A

abbrev pub every : {A : Type 0} → A → Bool
every a = true

-- The rows that a table holds.
abbrev pub rows : (sql : Engine) {A : Type 0} → sql.Table A → List A
rows sql t = sql.select every t

pub record IsSql (sql : Engine) : Type 1 where
  pub in-create : {A : Type 0} (x : A) → ¬ In x (rows sql (sql.create_table A))
  pub in-insert :
      {A : Type 0} (x r : A) (t : sql.Table A)
      → In x (rows sql (sql.insert_into r t)) ↔ ((x ≡ r) ⊎ In x (rows sql t))
  pub in-remove :
      {A : Type 0} (x : A) (p : A → Bool) (t : sql.Table A)
      → In x (rows sql (sql.remove_from p t)) ↔ (In x (rows sql t) × (p x ≡ false))
  pub in-select :
      {A : Type 0} (x : A) (p : A → Bool) (t : sql.Table A)
      → In x (sql.select p t) ↔ (In x (rows sql t) × (p x ≡ true))
  pub in-group : (s : String) (xs : List String) → In s (sql.group_by xs) ↔ In s xs
  pub newest-some :
      {A : Type 0} (key : A → ℕ) (xs : List A) {x : A}
      → sql.newest key xs ≡ some x
      → In x xs × ((y : A) → In y xs → key y ≤ key x)
  pub newest-none : {A : Type 0} (key : A → ℕ) (xs : List A) → sql.newest key xs ≡ none → xs ≡ []

-- `boost::uuids::to_string` and `operator>>`. A uuid is a 128-bit number.
pub record Uuids : Type 0 where
  pub to_string : ℕ → String
  pub of_string : String → ℕ

-- A printed uuid is read back.
abbrev pub IsCodec : Uuids → Type 0
IsCodec u = (x : ℕ) → u.of_string (u.to_string x) ≡ x

pub codec-injective : (u : Uuids) → IsCodec u → (a b : ℕ) → u.to_string a ≡ u.to_string b → a ≡ b
codec-injective u codec a b h = sym (codec a) ∙ (ap u.of_string h ∙ codec b)

-- `float`, with the operations that the code applies to it.
pub record Floats : Type 1 where
  pub Float : Type 0
  pub zero_f : Float
  pub lt : Float → Float → Bool
  pub le : Float → Float → Bool
  pub add : Float → Float → Float
  pub sub : Float → Float → Float
  pub mul : Float → Float → Float
  pub sqrt : Float → Float
  pub abs : Float → Float

-- IEEE 754's `<`, also where an operand is NaN.
pub record IsOrdered (f : Floats) : Type 0 where
  pub lt_irrefl : (x : f.Float) → f.lt x x ≡ false
  pub lt_trans : (x y z : f.Float) → f.lt x y ≡ true → f.lt y z ≡ true → f.lt x z ≡ true

pub record Platform : Type 1 where
  pub sql : Engine
  pub open sql use *
  pub uuids : Uuids
  pub open uuids use *
  pub floats : Floats
  pub open floats use *
  -- What a REAL column gives back for a `float` that was written to it: the connector writes a
  -- decimal text, and 'NaN' or 'Inf' where there is none.
  pub stored : floats.Float → floats.Float
