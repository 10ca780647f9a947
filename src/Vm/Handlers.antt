-- ===== src/Vm/Handlers.antt =====
-- The parts of the network's handlers that change a document in memory keep what its operations keep.
use structur3d.Prelude.{
  ◌≡◌, ◌<◌, sym, ◌∙◌, ap, subst, inl, inr, Option, none, some, Outcome, ok, ◌>>=◌, >>=-eq-ok,
  ok-injective, ◌==◌, Bool-cases,
}
use structur3d.Platform.{Floats}
use structur3d.Data.{
  Uid, Coord, Radius, SetOperationType, Node, Attribute, id, setop, coord, radius,
  set_operation_type, name,
}
use structur3d.Graph
use structur3d.Graph.{Ptr, Store, access, update}
use structur3d.Graph.Addresses.{IsHeld, KeepsId}
use structur3d.Graph.Kept.{Property, IsKept}
use structur3d.World.{Document, World, allocate}
use structur3d.Document.{on_nodes, set_coord, set_radius, set_type}
use structur3d.Document.Invariant.{Holds, on_graph-Holds, with_document-open}
use structur3d.Vm.Network.{network_create, network_update}

module _ {f : Floats} where
  pub set_coord-KeepsId : (c : Coord f) → KeepsId (set_coord c)
  unfolding set_coord
  set_coord-KeepsId c (Node.sphere s) n' h = sym (ap id (ok-injective h))
  set_coord-KeepsId c (setop o) n' h = absurd (cc)

  pub set_radius-KeepsId : (r : Radius f) → KeepsId (set_radius r)
  unfolding set_radius
  set_radius-KeepsId r (Node.sphere s) n' h = sym (ap id (ok-injective h))
  set_radius-KeepsId r (setop o) n' h = absurd (cc)

  set_type-KeepsId : (t : SetOperationType) → KeepsId {f = f} (set_type t)
  unfolding set_type
  set_type-KeepsId t (Node.sphere s) n' h = absurd (cc)
  set_type-KeepsId t (setop o) n' h = sym (ap id (ok-injective h))

module _ {f : Floats} {S : Type 0} where
  -- A document is open; its graph is well-formed, and its nodes live at taken addresses.
  abbrev pub HoldsGraph : World f S → Type 0
  HoldsGraph = Holds IsHeld

  module _ {P : Property f} {Allowed : Uid → Uid → Type 0} (kept : IsKept P Allowed) where
    pub on_nodes-Holds :
        (uid : Uid) (action : Node f → Outcome (Node f)) (w w' : World f S)
        → KeepsId action
        → Holds P w
        → on_nodes uid action w ≡ ok w'
        → Holds P w'
    on_nodes-Holds uid action w w' keeps (doc, open_eq, held) h =
        let (store, accessed, done) =
          >>=-eq-ok (access doc.graph uid action w.store) (λ store. ok (record w { store = store }))
            (sym (
                with_document-open
                  (λ doc w. access doc.graph uid action w.store >>= λ store.
                    ok (record w { store = store }))
                  doc w open_eq)
              ∙ h) in
        subst (Holds P) (ok-injective done) (
          doc,
          open_eq,
          kept.kept_access doc.graph uid action w.store store w.next keeps accessed held,
        )

    pub network_update-Holds :
        (entity : Uid) (a : Attribute f) (w w' : World f S)
        → Holds P w
        → network_update entity a w ≡ ok w'
        → Holds P w'
    unfolding network_update
    network_update-Holds entity (coord c) w w' held h =
        on_nodes-Holds entity (set_coord c) w w' (set_coord-KeepsId c) held h
    network_update-Holds entity (radius r) w w' held h =
        on_nodes-Holds entity (set_radius r) w w' (set_radius-KeepsId r) held h
    network_update-Holds entity (set_operation_type t) w w' held h =
        on_nodes-Holds entity (set_type t) w w' (set_type-KeepsId t) held h
    network_update-Holds entity (name n) w w' held h = subst (Holds P) (ok-injective h) held

    pub network_create-Holds :
        (ptr : Ptr) (document : Uid) (o : Option Document) (w w' : World f S)
        → ptr < w.next
        → Holds P w
        → network_create ptr document o w ≡ ok w'
        → Holds P w'
    unfolding network_create
    network_create-Holds ptr document none w w' low held h = subst (Holds P) (ok-injective h) held
    network_create-Holds ptr document (some doc) w w' low held h =
        elim (Bool-cases (doc.id == document)) [
          | inl same ↦
              on_graph-Holds P P (λ _ g. ok (Graph.create g ptr)) w w'
                (λ g g' k e.
                  subst (P w.store w.next) (ok-injective e)
                    (kept.kept_create w.store w.next g ptr low k))
                held (rw (same, network_create) at h)
          | inr other ↦ subst (Holds P) (ok-injective (rw (other, network_create) at h)) held
        ]

    pub allocate-Holds : (nd : Node f) (w : World f S) → Holds P w → Holds P (allocate nd w)
    allocate-Holds nd w (doc, open_eq, held) =
        (doc, open_eq, kept.kept_allocate w.store w.next doc.graph nd held)
