-- ===== src/Utils/Serialize/Values.antt =====
-- The values of a document are read back from their bytes.
use native.Mathlib.Nat.{pow-suc}
use structur3d.Prelude.{
  ℕ, zero, suc, ◌/◌, ◌%◌, ◌^◌, ◌<◌, ◌≤◌, ◌≡◌, refl, sym, ◌∙◌, ap, some, ok, ◌++◌, List, [], ◌∷◌,
  All, length, arith,
}
use structur3d.Platform.{Floats}
use structur3d.Platform.Bitsery.{Bytes, Bitsery, IsBitsery, ReadsBack, via, by_value}
use structur3d.Platform.Bitsery.Composites.{
  both-ReadsBack, via-ReadsBack, enumeration-ReadsBack, container-Keeps, by_value-Gives,
  text-ReadsBack,
}
use structur3d.Data.{Uid, Coord, Radius, Name, SetOperationType, union, intersection}
use structur3d.Utils.Serialize.{
  bytes_of, number_of, type_code, type_value, uid_bytes, set_operation_type_bytes, coord_bytes,
  radius_bytes, name_bytes,
}

length-bytes_of : (k n : ℕ) → length (bytes_of k n) ≡ k
length-bytes_of zero n = refl
length-bytes_of (suc k) n = ap suc (length-bytes_of k (n / 256))

number_of-bytes_of : (k n : ℕ) → n < 256 ^ k → number_of (bytes_of k n) ≡ n
number_of-bytes_of zero n h = omega arith
number_of-bytes_of (suc k) n h =
    let fits : n / 256 < 256 ^ k = omega (arith, pow-suc 256 k) in
    omega (arith, number_of-bytes_of k (n / 256) fits)

bytes_of-All : {P : ℕ → Type 0} → ((b : ℕ) → b < 256 → P b) → (k n : ℕ) → All P (bytes_of k n)
bytes_of-All h zero n = tt
bytes_of-All h (suc k) n = (h (n % 256) (omega arith), bytes_of-All h k (n / 256))

All-map : {P Q : ℕ → Type 0} → ((b : ℕ) → P b → Q b) → (bs : List ℕ) → All P bs → All Q bs
All-map h [] a = tt
All-map h (b ∷ bs) (p, a) = (h b p, All-map h bs a)

-- A number of 128 bits.
abbrev pub IsUid : Uid → Type 0
IsUid u = u < 2 ^ 128

-- At most 1000 bytes.
abbrev pub IsShort : Name → Type 0
IsShort n = (length n.value ≤ 1000) × All (λ b. b < 256) n.value

module _ {f : Floats} (b : Bitsery f) (laws : IsBitsery b) where
  -- A uid is written, but what is read leaves a uid as it was.
  pub uid-Keeps :
      (u : Uid)
      → (bs : Bytes) × ((uid_bytes b).write u ≡ ok bs)
        × ((old : Uid) (rest : Bytes)
            → IsUid old
            → (uid_bytes b).read old (bs ++ rest) ≡ some (old, rest))
  unfolding uid_bytes via
  uid-Keeps u =
      let (bs, w, r) =
        container-Keeps (by_value b.value1b) (bytes_of 16 u)
          (bytes_of-All (λ c h. by_value-Gives b.value1b c (laws.value1b c h)) 16 u) in
      (
        bs,
        w,
        λ old rest h.
            let same =
              r (bytes_of 16 old) rest (length-bytes_of 16 old ∙ sym (length-bytes_of 16 u)) in
            rw (same, number_of-bytes_of 16 old h) refl,
      )

  pub type-ReadsBack : (t : SetOperationType) → ReadsBack (set_operation_type_bytes b) t
  unfolding set_operation_type_bytes
  type-ReadsBack union =
      enumeration-ReadsBack type_code type_value b.value4b union refl (laws.value4b 0 (omega arith))
  type-ReadsBack intersection =
      enumeration-ReadsBack type_code type_value b.value4b intersection refl
        (laws.value4b 1 (omega arith))

  pub coord-ReadsBack : (c : Coord f) → ReadsBack (coord_bytes b) c
  unfolding coord_bytes
  coord-ReadsBack c = via-ReadsBack _ _ _ c refl (
      both-ReadsBack _ _ c.x (c.y, c.z) (laws.float4b c.x)
        (both-ReadsBack _ _ c.y c.z (laws.float4b c.y) (laws.float4b c.z)))

  pub radius-ReadsBack : (r : Radius f) → ReadsBack (radius_bytes b) r
  unfolding radius_bytes
  radius-ReadsBack r = via-ReadsBack _ _ _ r refl (laws.float4b r.magnitude)

  pub name-ReadsBack : (n : Name) → IsShort n → ReadsBack (name_bytes b) n
  unfolding name_bytes
  name-ReadsBack n (short, chars) = via-ReadsBack _ _ _ n refl (
      text-ReadsBack b.size b.value1b 1000 n.value short (laws.size (length n.value) (omega arith))
        (All-map laws.value1b n.value chars))
