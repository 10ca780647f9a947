-- ===== src/Graph/Steps.antt =====
-- The operations of src/data/Graph.cpp and include/data/Graph.h as the steps of a relation.
use structur3d.Prelude.{◌≡◌, ok}
use structur3d.Platform.{Floats}
use structur3d.Data.{Uid}
use structur3d.Graph.{Ptr, Store, Graph, create, remove, disconnect, connect}
use structur3d.Graph.Changes.{
  IsWellFormed, create-IsWellFormed, remove-IsWellFormed, disconnect-IsWellFormed,
}
use structur3d.Graph.Connections.{connect-IsWellFormed}

module _ {f : Floats} (store : Store f) where
  -- One operation that comes back.
  pub data Step (g : Graph) : Graph → Type 0 where
    created : (node : Ptr) → Step g (create g node)
    removed : (node : Ptr) → Step g (remove store g node)
    disconnected : (from to : Uid) → Step g (disconnect store g from to)
    connected :
        (fresh from to : Uid) (g' : Graph) → connect store g fresh from to ≡ ok g' → Step g g'

  -- Any number of operations, the first one first.
  pub data Steps : Graph → Graph → Type 0 where
    stop : (g : Graph) → Steps g g
    after : (g g' g'' : Graph) → Step g g' → Steps g' g'' → Steps g g''

  Step-IsWellFormed : (g g' : Graph) → Step g g' → IsWellFormed store g → IsWellFormed store g'
  Step-IsWellFormed g _ (created node) w = create-IsWellFormed store g node w
  Step-IsWellFormed g _ (removed node) w = remove-IsWellFormed store g node w
  Step-IsWellFormed g _ (disconnected from to) w = disconnect-IsWellFormed store g from to w
  Step-IsWellFormed g _ (connected fresh from to g' e) w =
      connect-IsWellFormed store g g' fresh from to w e

  -- Any sequence of `create`, `remove`, `disconnect` and `connect` that comes back keeps a graph
  -- well-formed: every edge runs between two nodes of the graph, with different ids.
  pub Steps-IsWellFormed :
      (g g' : Graph) → Steps g g' → IsWellFormed store g → IsWellFormed store g'
  Steps-IsWellFormed g _ (stop _) w = w
  Steps-IsWellFormed g g'' (after _ g' _ first rest) w =
      Steps-IsWellFormed g' g'' rest (Step-IsWellFormed g g' first w)
