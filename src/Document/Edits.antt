-- ===== src/Document/Edits.antt =====
-- The changes of an open document as a step relation.
use structur3d.Prelude.{ℕ, ◌≡◌, ok}
use structur3d.Platform.{Floats}
use structur3d.Data.{Uid, Timestamp}
use structur3d.Graph.{Ptr, Edge}
use structur3d.World.{World, Interactor}
use structur3d.Document.{create_node, remove_node, create_edge, remove_edge}
use structur3d.Document.Invariant.{IsOpen}
use structur3d.Document.Calls.{
  IsDetached, create_node-Holds, remove_node-Holds, create_edge-Holds, remove_edge-Holds,
}
use structur3d.Graph.Changes.{
  IsWellFormed, create-IsWellFormed, remove-IsWellFormed, disconnect-IsWellFormed,
}
use structur3d.Graph.Kept.{Property}
use structur3d.Graph.Connections.{connect-IsWellFormed}

module _ {f : Floats} {S : Type 0} (i : Interactor f S) (fuel : ℕ) where
  -- One call on the document that comes back, at any time.
  pub data Edit : World f S → World f S → Type 0 where
    node_created :
        (now : Timestamp) (ptr : Ptr) (w w' : World f S)
        → create_node i fuel now ptr w ≡ ok w'
        → Edit w w'
    node_removed :
        (now : Timestamp) (ptr : Ptr) (w w' : World f S)
        → remove_node i fuel now ptr w ≡ ok w'
        → Edit w w'
    edge_created :
        (now : Timestamp) (fresh : Uid) (edge : Edge) (w w' : World f S)
        → create_edge i fuel now fresh edge w ≡ ok w'
        → Edit w w'
    edge_removed :
        (now : Timestamp) (edge : Edge) (w w' : World f S)
        → remove_edge i fuel now edge w ≡ ok w'
        → Edit w w'

  -- Any number of such calls.
  pub data Edits : World f S → World f S → Type 0 where
    done : (w : World f S) → Edits w w
    next : (w u v : World f S) → Edit w u → Edits u v → Edits w v

abbrev WellFormed : {f : Floats} → Property f
WellFormed store free g = IsWellFormed store g

module _ {f : Floats} {S : Type 0} {i : Interactor f S} {fuel : ℕ} (detached : IsDetached i) where
  Edit-IsOpen : (w w' : World f S) → Edit i fuel w w' → IsOpen w → IsOpen w'
  Edit-IsOpen _ _ (node_created now ptr w w' h) open_ =
      create_node-Holds detached fuel now WellFormed WellFormed ptr w w'
        (λ g. create-IsWellFormed w.store g ptr) open_ h
  Edit-IsOpen _ _ (node_removed now ptr w w' h) open_ =
      remove_node-Holds detached fuel now WellFormed WellFormed ptr w w'
        (λ g. remove-IsWellFormed w.store g ptr) open_ h
  Edit-IsOpen _ _ (edge_created now fresh edge w w' h) open_ =
      create_edge-Holds detached fuel now WellFormed WellFormed fresh edge w w'
        (λ g g'. connect-IsWellFormed w.store g g' fresh _ _) open_ h
  Edit-IsOpen _ _ (edge_removed now edge w w' h) open_ =
      remove_edge-Holds detached fuel now WellFormed WellFormed edge w w'
        (λ g. disconnect-IsWellFormed w.store g _ _) open_ h

  -- After any number of creations and removals of nodes and edges through an interactor that leaves the
  -- document alone, a document that was open with a well-formed graph is open with one.
  pub Edits-IsOpen : (w w' : World f S) → Edits i fuel w w' → IsOpen w → IsOpen w'
  Edits-IsOpen _ _ (done w) open_ = open_
  Edits-IsOpen _ _ (next w u v edit edits) open_ =
      Edits-IsOpen u v edits (Edit-IsOpen w u edit open_)
