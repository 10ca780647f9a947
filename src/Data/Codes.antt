-- ===== src/Data/Codes.antt =====
-- src/base/SetOperationType.cpp, src/db/NodeType.cpp, src/data/Coord.cpp and
-- src/utils/approximately_equal.cpp.
use structur3d.Prelude.{ℕ, ◌≡◌, ◌↔◌, Bool, Option, none, some, arith, ◌&&◌, ◌==◌, if◌then◌else◌}
use structur3d.Platform.{Floats}
use structur3d.Data.{Coord, SetOperationType, union, intersection, NodeType, set_operation}

unfoldable pub from_operation_type : SetOperationType → ℕ
from_operation_type union = 0
from_operation_type intersection = 1

unfoldable pub to_operation_type : ℕ → Option SetOperationType
to_operation_type n = if n == 0 then some union else if n == 1 then some intersection else none

unfoldable pub to_integral : NodeType → ℕ
to_integral NodeType.sphere = 0
to_integral set_operation = 1

unfoldable pub from_integral : ℕ → Option NodeType
from_integral n =
    if n == 0 then some NodeType.sphere else if n == 1 then some set_operation else none

-- The code of a set operation's type is read back as the one type that it was written for, and no
-- other number is read.
pub to_operation_type_iff :
    (n : ℕ) (t : SetOperationType) → (to_operation_type n ≡ some t) ↔ (n ≡ from_operation_type t)
unfolding to_operation_type from_operation_type
to_operation_type_iff n union = ground arith
to_operation_type_iff n intersection = ground arith

-- The code of a node's type is read back as the one type that it was written for, and no other
-- number is read.
pub from_integral_iff : (n : ℕ) (t : NodeType) → (from_integral n ≡ some t) ↔ (n ≡ to_integral t)
unfolding from_integral to_integral
from_integral_iff n NodeType.sphere = ground arith
from_integral_iff n set_operation = ground arith

-- A number is read as a type, of a set operation or of a node, just where it is the code that the
-- type is written as: each code is read back, as no other type, and every other number is refused.
pub codes_iff :
    (n : ℕ)
    → ((t : SetOperationType) → (to_operation_type n ≡ some t) ↔ (n ≡ from_operation_type t))
      × ((t : NodeType) → (from_integral n ≡ some t) ↔ (n ≡ to_integral t))
codes_iff n = (to_operation_type_iff n, from_integral_iff n)

unfoldable pub distance_from_origin : {f : Floats} → Coord f → f.Float
distance_from_origin {f} c = f.sqrt (f.add (f.add (f.mul c.x c.x) (f.mul c.y c.y)) (f.mul c.z c.z))

unfoldable pub approximately_equal : (f : Floats) → f.Float → f.Float → f.Float → Bool
approximately_equal f a b epsilon =
    f.le (f.abs (f.sub a b)) (f.mul (if f.lt (f.abs a) (f.abs b) then f.abs b else f.abs a) epsilon)

-- `operator==` of coordinates, with the tolerance 0.0001 as an argument
unfoldable pub same_coord : {f : Floats} → f.Float → Coord f → Coord f → Bool
unfolding approximately_equal
same_coord {f} tolerance a b =
    approximately_equal f a.x b.x tolerance
    && approximately_equal f a.y b.y tolerance
    && approximately_equal f a.z b.z tolerance
