-- ===== src/Vm/Session.antt =====
-- A client from the moment it opens a document: what its user does, what arrives, and other documents
-- that it opens, in any order.
use structur3d.Prelude.{ℕ, ◌≡◌, ok, arith}
use structur3d.Platform.{Floats}
use structur3d.Data.{Uid, Timestamp, Node, id}
use structur3d.Graph.{Ptr, Edge}
use structur3d.Graph.Kept.{Property, IsKept, Any, IsHeld-IsKept}
use structur3d.World.{World, allocate}
use structur3d.Document
use structur3d.Document.{
  on_nodes, set_coord, set_radius, create_node, remove_node, create_edge, remove_edge, regen_mesh,
  update_node,
}
use structur3d.Document.Invariant.{Holds}
use structur3d.Document.Calls.{
  create_node-Holds, remove_node-Holds, create_edge-Holds, remove_edge-Holds,
}
use structur3d.Db.Interface.{Database}
use structur3d.Wire.Message.{Message}
use structur3d.Wire.Client.{receive}
use structur3d.Vm.Interactors.{document_interactor}
use structur3d.Vm.Network.{network_interactor}
use structur3d.Vm.Open.{open_document}
use structur3d.Vm.Detached.{document_interactor-IsDetached}
use structur3d.Vm.Handlers.{HoldsGraph, allocate-Holds}
use structur3d.Vm.Received.{AllowsPayload, AllowsPayload-Any, received-Holds}
use structur3d.Vm.Held.{open_document-HoldsGraph, update_node-Holds}

module _ {f : Floats} {S : Type 0} (d : Database f S) (fuel : ℕ) where
  -- One thing that happens to a client, and comes back. A node that the user creates is a new object.
  pub data Event (w w' : World f S) : Type 0 where
    node_added :
        (now : Timestamp) (nd : Node f)
        → create_node (document_interactor d) fuel now w.next (allocate nd w) ≡ ok w'
        → Event w w'
    node_removed :
        (now : Timestamp) (ptr : Ptr)
        → remove_node (document_interactor d) fuel now ptr w ≡ ok w'
        → Event w w'
    edge_added :
        (now : Timestamp) (fresh : Uid) (edge : Edge)
        → create_edge (document_interactor d) fuel now fresh edge w ≡ ok w'
        → Event w w'
    edge_removed :
        (now : Timestamp) (edge : Edge)
        → remove_edge (document_interactor d) fuel now edge w ≡ ok w'
        → Event w w'
    node_updated :
        (now : Timestamp) (ptr : Ptr)
        → Document.update (document_interactor d) fuel now ptr w ≡ ok w'
        → Event w w'
    arrived :
        (clock : Timestamp) (fresh : ℕ) (m : Message f)
        → receive (network_interactor d fresh fuel clock) m w ≡ ok w'
        → Event w w'
    opened :
        (make_id : ℕ → Uid) (document : Uid)
        → open_document d make_id document w ≡ ok w'
        → Event w w'

  -- Any number of them, in any order.
  pub data Session : World f S → World f S → Type 0 where
    closed : (w : World f S) → Session w w
    after : (w u v : World f S) → Event w u → Session u v → Session w v

  -- The edge that is made, where one is, is allowed.
  abbrev pub Allows : (Uid → Uid → Type 0) → (w w' : World f S) → Event w w' → Type 0
  Allows Allowed w w' (node_added now nd h) = Unit
  Allows Allowed w w' (node_removed now ptr h) = Unit
  Allows Allowed w w' (edge_added now fresh edge h) =
      Allowed (id (w.store edge.from)) (id (w.store edge.to))
  Allows Allowed w w' (edge_removed now edge h) = Unit
  Allows Allowed w w' (node_updated now ptr h) = Unit
  Allows Allowed w w' (arrived clock fresh m h) = AllowsPayload Allowed m.payload
  Allows Allowed w w' (opened make_id document h) = Unit

  pub Event-Holds :
      {P : Property f} {Allowed : Uid → Uid → Type 0}
      → IsKept P Allowed
      → (w w' : World f S) (event : Event w w') → Allows Allowed w w' event
      → ((make_id : ℕ → Uid) (document : Uid)
          → open_document d make_id document w ≡ ok w'
          → Holds P w')
      → Holds P w
      → Holds P w'
  unfolding Document.update
  Event-Holds {P} kept w w' (node_added now nd h) allowed opens held =
      create_node-Holds (document_interactor-IsDetached d) fuel now P P w.next (allocate nd w) w'
        (λ g. kept.kept_create _ _ g w.next (omega arith)) (allocate-Holds kept nd w held) h
  Event-Holds {P} kept w w' (node_removed now ptr h) allowed opens held =
      remove_node-Holds (document_interactor-IsDetached d) fuel now P P ptr w w'
        (λ g. kept.kept_remove w.store w.next g ptr) held h
  Event-Holds {P} kept w w' (edge_added now fresh edge h) allowed opens held =
      create_edge-Holds (document_interactor-IsDetached d) fuel now P P fresh edge w w'
        (λ g g'. kept.kept_connect w.store w.next g g' fresh _ _ allowed) held h
  Event-Holds {P} kept w w' (edge_removed now edge h) allowed opens held =
      remove_edge-Holds (document_interactor-IsDetached d) fuel now P P edge w w'
        (λ g. kept.kept_disconnect w.store w.next g _ _) held h
  Event-Holds kept w w' (node_updated now ptr h) allowed opens held =
      update_node-Holds d fuel kept now (w.store ptr) w w' held h
  Event-Holds kept w w' (arrived clock fresh m h) allowed opens held =
      received-Holds d kept fresh fuel clock m w w' allowed held h
  Event-Holds kept w w' (opened make_id document h) allowed opens held = opens make_id document h

  Allows-Any : (w w' : World f S) (event : Event w w') → Allows Any w w' event
  Allows-Any w w' (node_added now nd h) = tt
  Allows-Any w w' (node_removed now ptr h) = tt
  Allows-Any w w' (edge_added now fresh edge h) = tt
  Allows-Any w w' (edge_removed now edge h) = tt
  Allows-Any w w' (node_updated now ptr h) = tt
  Allows-Any w w' (arrived clock fresh m h) = AllowsPayload-Any m.payload
  Allows-Any w w' (opened make_id document h) = tt

  Session-HoldsGraph : (w w' : World f S) → Session w w' → HoldsGraph w → HoldsGraph w'
  Session-HoldsGraph w _ (closed _) held = held
  Session-HoldsGraph w w' (after _ u _ event rest) held = Session-HoldsGraph u w' rest (
      Event-Holds IsHeld-IsKept w u event (Allows-Any w u event)
        (λ make_id document. open_document-HoldsGraph d make_id document w u) held)

  -- From the moment a client has opened a document, whatever its user does and whatever arrives, in any
  -- order, each time with a result, it has an open document whose graph is well-formed and whose nodes
  -- live at taken addresses: nodes and edges that the user creates and removes, spheres that the user
  -- changes, other documents that are opened, and every message that is received.
  pub open_document-Session :
      (make_id : ℕ → Uid) (document : Uid) (w u v : World f S)
      → open_document d make_id document w ≡ ok u
      → Session u v
      → HoldsGraph v
  open_document-Session make_id document w u v h session =
      Session-HoldsGraph u v session (open_document-HoldsGraph d make_id document w u h)
