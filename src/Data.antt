-- ===== src/Data.antt =====
-- include/data and src/data, src/base: the values of a document. A node is a `Sphere` or a `SetOp`,
-- the two classes below `Node`. Assertions are taken as compiled in.
pub mod Codes
pub mod Names
use structur3d.Prelude.{
  ℕ, ◌≡◌, Bool, true, false, List, arith, ◌&&◌, if◌then◌else◌, Outcome, ok, abort,
}
use structur3d.Platform.{Floats}

-- `boost::uuids::uuid`, as its 128-bit number
abbrev pub Uid : Type 0
Uid = ℕ

abbrev pub Timestamp : Type 0
Timestamp = ℕ

pub record Coord (f : Floats) : Type 0 where
  pub x : f.Float
  pub y : f.Float
  pub z : f.Float

pub record Radius (f : Floats) : Type 0 where
  pub magnitude : f.Float

-- the bytes of a `std::string`
pub record Name : Type 0 where
  pub value : List ℕ

pub data SetOperationType : Type 0 where
  union intersection : SetOperationType

pub data NodeType : Type 0 where
  sphere set_operation : NodeType

pub record Sphere (f : Floats) : Type 0 where
  pub uid : Uid
  pub coord : Coord f
  pub radius : Radius f

pub record SetOp : Type 0 where
  pub uid : Uid
  pub type : SetOperationType

pub data Node (f : Floats) : Type 0 where
  sphere : Sphere f → Node f
  setop : SetOp → Node f

-- the virtual `id()`
abbrev pub id : {f : Floats} → Node f → Uid
id (Node.sphere s) = s.uid
id (setop o) = o.uid

pub data Attribute (f : Floats) : Type 0 where
  coord : Coord f → Attribute f
  radius : Radius f → Attribute f
  set_operation_type : SetOperationType → Attribute f
  name : Name → Attribute f

-- `Radius::Radius(float)`, which asserts that the magnitude is not negative
unfoldable pub make_radius : {f : Floats} → f.Float → Outcome (Radius f)
make_radius {f} m = if f.le f.zero_f m then ok (record { magnitude = m }) else abort
