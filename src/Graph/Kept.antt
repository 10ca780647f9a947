-- ===== src/Graph/Kept.antt =====
-- What the operations of a graph keep: a property of a graph in the memory as it is.
use structur3d.Prelude.{◌≡◌, ◌<◌, suc, Outcome, ok}
use structur3d.Platform.{Floats}
use structur3d.Data.{Uid, Node}
use structur3d.Graph.{Ptr, Store, Graph, create, remove, disconnect, connect, update, access}
use structur3d.Graph.Addresses.{
  IsHeld, KeepsId, create-IsHeld, remove-IsHeld, disconnect-IsHeld, connect-IsHeld,
  allocated-IsHeld, access-IsHeld,
}

abbrev pub Property : Floats → Type 1
Property f = Store f → Ptr → Graph → Type 0

-- Edges are only made from and to ids that are `Allowed`.
pub record IsKept {f : Floats} (P : Property f) (Allowed : Uid → Uid → Type 0) : Type 0 where
  pub kept_create :
      (store : Store f) (next : Ptr) (g : Graph) (node : Ptr)
      → node < next
      → P store next g
      → P store next (create g node)
  pub kept_remove :
      (store : Store f) (next : Ptr) (g : Graph) (node : Ptr)
      → P store next g
      → P store next (remove store g node)
  pub kept_disconnect :
      (store : Store f) (next : Ptr) (g : Graph) (from to : Uid)
      → P store next g
      → P store next (disconnect store g from to)
  pub kept_connect :
      (store : Store f) (next : Ptr) (g g' : Graph) (fresh from to : Uid)
      → Allowed from to
      → P store next g
      → connect store g fresh from to ≡ ok g'
      → P store next g'
  pub kept_allocate :
      (store : Store f) (next : Ptr) (g : Graph) (node : Node f)
      → P store next g
      → P (update store next node) (suc next) g
  pub kept_access :
      (g : Graph) (uid : Uid) (action : Node f → Outcome (Node f)) (store store' : Store f)
      (next : Ptr)
      → KeepsId action
      → access g uid action store ≡ ok store'
      → P store next g
      → P store' next g

abbrev pub Any : Uid → Uid → Type 0
Any from to = Unit

pub IsHeld-IsKept : {f : Floats} → IsKept {f = f} IsHeld Any
IsHeld-IsKept = record {
  kept_create = create-IsHeld;
  kept_remove = remove-IsHeld;
  kept_disconnect = disconnect-IsHeld;
  kept_connect = λ store next g g' fresh from to _. connect-IsHeld store next g g' fresh from to;
  kept_allocate = allocated-IsHeld;
  kept_access = access-IsHeld;
}
