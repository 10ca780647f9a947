-- ===== src/Utils/Serialize/RoundTrip.antt =====
-- What `Serializator` reads back from the buffers that it wrote.
use structur3d.Prelude.{
  ℕ, ◌<◌, ◌≤◌, ◌⊎◌, inl, inr, All, Bool-cases, ◌≡◌, refl, ap, some, true, [], ◌∷◌, ◌++◌, length, ok,
  abort, ltb, arith,
}
use structur3d.Platform.{Floats}
use structur3d.Platform.Bitsery.{
  Bytes, Codec, Bitsery, IsBitsery, Buffers, ReadsBack, via, text, quick_serialization,
  quick_deserialization,
}
use structur3d.Data.{
  Coord, Radius, Name, SetOperationType, Attribute, coord, radius, set_operation_type, name,
}
use structur3d.Utils.Serialize.{
  Serializator, serialize, deserialize, take, set_operation_type_bytes, coord_bytes, radius_bytes,
  name_bytes,
}
use structur3d.Utils.Serialize.Values.{
  type-ReadsBack, coord-ReadsBack, radius-ReadsBack, name-ReadsBack,
}

take-append : (bs cs : Bytes) → take (length bs) (bs ++ cs) ≡ bs ++ []
take-append [] cs = refl
take-append (b ∷ bs) cs = ap (λ l. b ∷ l) (take-append bs cs)

read-quick :
    {T : Type 0} (c : Codec T) (buffers : Buffers T) (old v : T) (bs : Bytes)
    → c.read old bs ≡ some (v, [])
    → quick_deserialization c buffers old bs ≡ (v, true)
unfolding quick_deserialization
read-quick c buffers old v bs h = rw (h, quick_deserialization) refl

-- The value is written into a buffer, and read from there into any object, with success.
abbrev pub RoundTrips : {T : Type 0} → Serializator T → T → Type 0
RoundTrips {T} s v =
    (buffer : Bytes) × (size : ℕ) × (serialize s v ≡ ok (buffer, size))
    × ((old : T) → deserialize s buffer old size ≡ (v, true))

pub ReadsBack-RoundTrips :
    {T : Type 0} (s : Serializator T) (v : T) → ReadsBack s.codec v → RoundTrips s v
unfolding serialize deserialize quick_serialization
ReadsBack-RoundTrips s v back =
    let (bs, w, r) = back.trip in
    (
      bs ++ s.buffers.spare bs,
      length bs,
      rw w refl,
      λ old.
          rw (take-append bs (s.buffers.spare bs))
            (read-quick s.codec s.buffers old v (bs ++ []) (r old [])),
    )

-- A name is a text of bytes.
abbrev pub HasBytes : {f : Floats} → Attribute f → Type 0
HasBytes (name n) = All (λ c. c < 256) n.value
HasBytes _ = Unit

module _ {f : Floats} (b : Bitsery f) (coords : Buffers (Coord f)) (radii : Buffers (Radius f))
    (types : Buffers SetOperationType) (names : Buffers Name) where
  abbrev pub names_of : Serializator Name
  names_of = record { codec = name_bytes b; buffers = names }

  -- A value goes to the serializator of its type. A name is short and read back, or it is long and an
  -- assertion fails.
  abbrev pub Survives : Attribute f → Type 0
  Survives (coord c) = RoundTrips (record { codec = coord_bytes b; buffers = coords }) c
  Survives (radius r) = RoundTrips (record { codec = radius_bytes b; buffers = radii }) r
  Survives (set_operation_type t) =
      RoundTrips (record { codec = set_operation_type_bytes b; buffers = types }) t
  Survives (name n) =
      ((length n.value ≤ 1000) × RoundTrips names_of n)
      ⊎ ((1000 < length n.value) × (serialize names_of n ≡ abort))

module _ {f : Floats} (b : Bitsery f) (laws : IsBitsery b) where
  -- Where bitsery reads back the fundamental values that it wrote: every coordinate, every radius, every
  -- type of an operation and every name of at most 1000 characters, each of them a byte, is written
  -- into a buffer, and read from there as itself, with success and into any object; and a longer name
  -- is not written, as an assertion fails.
  pub attribute-Survives :
      (coords : Buffers (Coord f)) (radii : Buffers (Radius f)) (types : Buffers SetOperationType)
      (names : Buffers Name) (a : Attribute f)
      → HasBytes a
      → Survives b coords radii types names a
  unfolding serialize quick_serialization name_bytes via text
  attribute-Survives coords radii types names (coord c) h =
      ReadsBack-RoundTrips _ c (coord-ReadsBack b laws c)
  attribute-Survives coords radii types names (radius r) h =
      ReadsBack-RoundTrips _ r (radius-ReadsBack b laws r)
  attribute-Survives coords radii types names (set_operation_type t) h =
      ReadsBack-RoundTrips _ t (type-ReadsBack b laws t)
  attribute-Survives coords radii types names (name n) h =
      elim (Bool-cases (ltb 1000 (length n.value))) [
        | inl long ↦ inr (ground arith, rw long refl)
        | inr short ↦
            let fits : length n.value ≤ 1000 = ground arith in
            inl (fits, ReadsBack-RoundTrips _ n (name-ReadsBack b laws n (fits, h)))
      ]
