-- ===== src/Platform/Bitsery.antt =====
-- bitsery, as the templates of the code use it. A template `serialize(S&, T&)` is one text for both
-- directions, so it is a pair of a writer and a reader.
pub mod Composites
pub mod Cells
use structur3d.Prelude.{
  ℕ, zero, suc, ◌≡◌, ◌<◌, ◌^◌, Bool, true, false, Option, none, some, List, [], ◌∷◌, ◌++◌, Outcome,
  ok, abort, ◌>>=◌, length, ltb, if◌then◌else◌,
}
use structur3d.Platform.{Floats}

abbrev pub Bytes : Type 0
Bytes = List ℕ

-- The writer appends to what was written before, or fails an assertion. The reader changes an object: it
-- gives the object after it and the bytes that it leaves, or `none` where bitsery sets its error, and
-- where an enumeration has no such value.
pub record Codec (A : Type 0) : Type 0 where
  pub write : A → Outcome Bytes
  pub read : A → Bytes → Option (A × Bytes)

-- After a reader, the next one reads what was left.
abbrev pub and_then :
    {A B : Type 0} → Option (A × Bytes) → (A → Bytes → Option (B × Bytes)) → Option (B × Bytes)
and_then none k = none
and_then (some (a, rest)) k = k a rest

-- What the codec writes for the value is read as it into any object, whatever follows.
pub record ReadsBack {A : Type 0} (c : Codec A) (x : A) : Type 0 where
  pub trip :
      (bs : Bytes) × (c.write x ≡ ok bs)
      × ((old : A) (rest : Bytes) → c.read old (bs ++ rest) ≡ some (x, rest))

-- The calls for fundamental values: `value1b` and `value4b` of integers, and `value4b` of a `float`; and the
-- size in front of a text.
pub record Bitsery (f : Floats) : Type 0 where
  pub value1b : Codec ℕ
  pub value4b : Codec ℕ
  pub float4b : Codec f.Float
  pub size : Codec ℕ

-- What was written is read back, in the range of each type; a size is below 2 ^ 30.
pub record IsBitsery {f : Floats} (b : Bitsery f) : Type 0 where
  pub value1b : (x : ℕ) → x < 256 → ReadsBack b.value1b x
  pub value4b : (x : ℕ) → x < 2 ^ 31 → ReadsBack b.value4b x
  pub float4b : (x : f.Float) → ReadsBack b.float4b x
  pub size : (x : ℕ) → x < 2 ^ 30 → ReadsBack b.size x

-- Two calls in a row.
unfoldable pub both : {A B : Type 0} → Codec A → Codec B → Codec (A × B)
both c d = record {
  write = λ (a, b). c.write a >>= λ bs. d.write b >>= λ cs. ok (bs ++ cs);
  read = λ (a, b) bs.
      and_then (c.read a bs) λ a' rest. and_then (d.read b rest) λ b' rest'. some ((a', b'), rest');
}

-- The members of a structure.
unfoldable pub via : {A B : Type 0} → (B → A) → (A → B) → Codec A → Codec B
via parts build c = record {
  write = λ b. c.write (parts b);
  read = λ b bs. and_then (c.read (parts b) bs) λ a rest. some (build a, rest);
}

-- An enumeration, through its underlying numbers.
unfoldable pub enumeration : {A : Type 0} → (A → ℕ) → (ℕ → Option A) → Codec ℕ → Codec A
enumeration code value c = record {
  write = λ a. c.write (code a);
  read = λ a bs.
      and_then (c.read (code a) bs)
        λ n rest. elim (value n) [ none ↦ none | some a' ↦ some (a', rest) ];
}

-- A template that takes its object by value: what it reads is lost with the copy.
unfoldable pub by_value : {A : Type 0} → Codec A → Codec A
by_value c = record {
  write = c.write;
  read = λ a bs. and_then (c.read a bs) λ copy rest. some (a, rest);
}

abbrev pub write_all : {A : Type 0} → Codec A → List A → Outcome Bytes
write_all c [] = ok []
write_all c (x ∷ xs) = c.write x >>= λ bs. write_all c xs >>= λ cs. ok (bs ++ cs)

-- Each object of a range is read, in turn.
abbrev pub read_all : {A : Type 0} → Codec A → List A → Bytes → Option (List A × Bytes)
read_all c [] bs = some ([], bs)
read_all c (old ∷ olds) bs =
    and_then (c.read old bs)
      λ x rest. and_then (read_all c olds rest) λ xs rest'. some (x ∷ xs, rest')

-- `container` of an array, which has a fixed length
unfoldable pub container : {A : Type 0} → Codec A → Codec (List A)
container c = record { write = write_all c; read = read_all c }

-- `std::string::resize`, which adds null characters
abbrev pub resize : ℕ → List ℕ → List ℕ
resize zero cs = []
resize (suc n) [] = 0 ∷ resize n []
resize (suc n) (c ∷ cs) = c ∷ resize n cs

-- `text<1>(str, max)`: the length, which is asserted to be at most the maximum, and then the characters.
unfoldable pub text : Codec ℕ → Codec ℕ → ℕ → Codec (List ℕ)
text size value1b max = record {
  write = λ cs.
      if ltb max (length cs)
      then abort
      else size.write (length cs) >>= λ bs. write_all value1b cs >>= λ ds. ok (bs ++ ds);
  read = λ cs bs.
      and_then (size.read (length cs) bs)
        λ n rest. if ltb max n then none else read_all value1b (resize n cs) rest;
}

-- What bitsery does besides: the bytes that its output buffer has behind those that were written, and the
-- object after a read that failed.
pub record Buffers (A : Type 0) : Type 0 where
  pub spare : Bytes → Bytes
  pub broken : A → Bytes → A

-- `quickSerialization` into an empty buffer: the buffer, and the size of what was written.
unfoldable pub quick_serialization : {A : Type 0} → Codec A → Buffers A → A → Outcome (Bytes × ℕ)
quick_serialization c buffers x = c.write x >>= λ bs. ok (bs ++ buffers.spare bs, length bs)

-- `quickDeserialization` of the first bytes of a buffer into an object: the object, and whether there
-- was no error and all of the bytes were read.
unfoldable pub quick_deserialization : {A : Type 0} → Codec A → Buffers A → A → Bytes → A × Bool
quick_deserialization c buffers old bs = elim (c.read old bs) [
  | none ↦ (buffers.broken old bs, false)
  | some (x, rest) ↦ (x, elim rest [ [] ↦ true | b ∷ more ↦ false ])
]
