-- ===== src/Utils/Serialize.antt =====
-- include/utils/attribute_serialization.h: what the values of a document are in bytes; and
-- include/utils/Serializator.h, which writes them into buffers and reads them.
pub mod Values
pub mod RoundTrip
use structur3d.Prelude.{
  ℕ, zero, suc, ◌+◌, ◌*◌, ◌/◌, ◌%◌, ◌==◌, if◌then◌else◌, Option, none, some, List, [], ◌∷◌, Bool,
  Outcome,
}
use structur3d.Platform.{Floats}
use structur3d.Platform.Bitsery.{
  Bytes, Codec, Bitsery, Buffers, both, via, enumeration, by_value, container, text,
  quick_serialization, quick_deserialization,
}
use structur3d.Data.{
  Uid, Timestamp, Coord, Radius, Name, SetOperationType, union, intersection, Sphere, SetOp, Node,
  setop, Attribute, coord, radius, set_operation_type, name,
}

-- The bytes of a number, the least significant one first, as many as given; and the number.
abbrev pub bytes_of : ℕ → ℕ → List ℕ
bytes_of zero n = []
bytes_of (suc k) n = n % 256 ∷ bytes_of k (n / 256)

abbrev pub number_of : List ℕ → ℕ
number_of [] = 0
number_of (b ∷ bs) = b + 256 * number_of bs

-- The underlying numbers of `enum class SetOperationType`.
abbrev pub type_code : SetOperationType → ℕ
type_code union = 0
type_code intersection = 1

abbrev pub type_value : ℕ → Option SetOperationType
type_value n = if n == 0 then some union else if n == 1 then some intersection else none

module _ {f : Floats} (b : Bitsery f) where
  -- `uid.data`, sixteen bytes; the lambda takes each byte by value.
  unfoldable pub uid_bytes : Codec Uid
  uid_bytes = via (bytes_of 16) number_of (container (by_value b.value1b))

  unfoldable pub set_operation_type_bytes : Codec SetOperationType
  set_operation_type_bytes = enumeration type_code type_value b.value4b

  unfoldable pub coord_bytes : Codec (Coord f)
  coord_bytes =
      via (λ (c : Coord f). (c.x, (c.y, c.z))) (λ (x, (y, z)). record { x = x; y = y; z = z })
        (both b.float4b (both b.float4b b.float4b))

  -- The magnitude is read without the constructor's assertion.
  unfoldable pub radius_bytes : Codec (Radius f)
  radius_bytes = via (λ (r : Radius f). r.magnitude) (λ m. record { magnitude = m }) b.float4b

  unfoldable pub name_bytes : Codec Name
  name_bytes = via (λ (n : Name). n.value) (λ v. record { value = v }) (text b.size b.value1b 1000)

-- The first bytes of a buffer.
abbrev pub take : ℕ → Bytes → Bytes
take zero bs = []
take (suc n) [] = []
take (suc n) (b ∷ bs) = b ∷ take n bs

-- `Serializator` for the values of one type: its `serialize` template, and what bitsery does besides.
pub record Serializator (T : Type 0) : Type 0 where
  pub codec : Codec T
  pub buffers : Buffers T

module _ {T : Type 0} (s : Serializator T) where
  -- Into an empty buffer: the buffer after it, and the size that is returned.
  unfoldable pub serialize : T → Outcome (Bytes × ℕ)
  serialize thing = quick_serialization s.codec s.buffers thing

  -- The object after it, and the result.
  unfoldable pub deserialize : Bytes → T → ℕ → T × Bool
  deserialize from to size = quick_deserialization s.codec s.buffers to (take size from)
