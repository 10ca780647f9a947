-- ===== src/Wire/Message.antt =====
-- include/wire/Message.h.
use structur3d.Prelude.{ℕ}
use structur3d.Platform.{Floats}
use structur3d.Data.{Uid, Timestamp, Node, Attribute}

pub data Change : Type 0 where
  asserted retracted : Change

pub record ConnectDisconnect : Type 0 where
  pub from : Uid
  pub to : Uid
  pub deleted : Change

-- The node is a copy, and no pointer.
pub record CreateDelete (f : Floats) : Type 0 where
  pub document : Uid
  pub node : Node f
  pub create : Change

pub record Update (f : Floats) : Type 0 where
  pub uid : Uid
  pub attribute : Attribute f

pub data Payload (f : Floats) : Type 0 where
  edge : ConnectDisconnect → Payload f
  update : Update f → Payload f
  node : CreateDelete f → Payload f
  confirm : ℕ → Payload f

pub record Message (f : Floats) : Type 0 where
  pub payload : Payload f
  pub timestamp : Timestamp
