-- ===== src/Vm/Held.antt =====
-- A document that is opened, and a sphere that is updated: what the graph keeps.
use structur3d.Prelude.{
  ℕ, ◌≡◌, ◌<◌, refl, sym, ◌∙◌, ap, subst, inl, inr, Option, none, some, List, [], ◌∷◌, In,
  In-append, ok, ◌>>=◌, >>=-eq-ok, ok-injective, arith,
}
use mathlib.Core.Option.{some-injective}
use structur3d.Platform.{Floats}
use structur3d.Data.{
  Uid, Timestamp, Node, Sphere, Attribute, setop, coord, radius, set_operation_type, name,
}
use structur3d.Graph.{Ptr}
use structur3d.Graph.Addresses.{KeepsId}
use structur3d.Graph.Kept.{Property, IsKept}
use structur3d.World.{Document, World}
use structur3d.Document.{on_nodes, set_coord, set_radius, regen_mesh, update_node}
use structur3d.Document.Invariant.{Holds, LeavesDocument, LeavesDocument-Holds, regen_mesh-Holds}
use structur3d.Db.Queries.{IdWithType}
use structur3d.Db.Interface.{Database}
use structur3d.Vm.Interactors.{document_interactor, db_upsert, send_update, update_message}
use structur3d.Vm.Open.{load_node, push_node, load_nodes, load_edges, open_document}
use structur3d.Vm.Graphs.{open_document-HasOpened}
use structur3d.Vm.Detached.{chain-LeavesDocument, send-LeavesDocument}
use structur3d.Vm.Handlers.{HoldsGraph, set_coord-KeepsId, set_radius-KeepsId, on_nodes-Holds}
use structur3d.Vm.Received.{db_upsert-LeavesDocument}

module _ {f : Floats} {S : Type 0} (d : Database f S) where
  -- All nodes live at taken addresses.
  abbrev AllBelow : World f S → List Ptr → Type 0
  AllBelow w nodes = (p : Ptr) → In p nodes → p < w.next

  push_node-AllBelow :
      (o : Option (Node f)) (nodes : List Ptr) (w : World f S)
      → AllBelow w nodes
      → let (w', nodes') = push_node d o nodes w in AllBelow w' nodes'
  unfolding push_node
  push_node-AllBelow none nodes w low p i = low p i
  push_node-AllBelow (some nd) nodes w low p i = elim ((In-append p nodes (w.next ∷ [])).0 i) [
    | inl old ↦ omega (arith, low p old)
    | inr (inl same) ↦ omega arith
    | inr (inr bad) ↦ absurd bad
  ]

  load_nodes-AllBelow :
      (entities : List IdWithType) (nodes : List Ptr) (w : World f S) (out : World f S × List Ptr)
      → AllBelow w nodes
      → load_nodes d entities nodes w ≡ ok out
      → AllBelow out.0 out.1
  unfolding load_nodes
  load_nodes-AllBelow [] nodes w out low h =
      subst (λ (o : World f S × List Ptr). AllBelow o.0 o.1) (ok-injective h) low
  load_nodes-AllBelow (entity ∷ entities) nodes w out low h =
      let (o, _, rest) = >>=-eq-ok (load_node d w.db entity) _ h in
      load_nodes-AllBelow entities _ _ out (push_node-AllBelow o nodes w low) rest

  -- The nodes of the document that was opened live at taken addresses.
  open_document-AllBelow :
      (make_id : ℕ → Uid) (document : Uid) (w w' : World f S)
      → open_document d make_id document w ≡ ok w'
      → (doc : Document) × (w'.current ≡ some doc) × AllBelow w' doc.graph.nodes
  unfolding open_document
  open_document-AllBelow make_id document w w' h =
      let ((v, nodes), loaded, rest) =
        >>=-eq-ok (load_nodes d (d.entities w.db document) [] w) _ h in
      let (found, _, last) =
        >>=-eq-ok (load_edges d v.store make_id v.db nodes nodes (0, [])) _ rest in
      subst
        (λ (x : World f S). (doc : Document) × (x.current ≡ some doc) × AllBelow x doc.graph.nodes)
        (ok-injective last)
        (
          record { id = document; graph = record { edges = found.1; nodes = nodes }; jobs = [] },
          refl,
          load_nodes-AllBelow (d.entities w.db document) [] w (v, nodes) (λ p i. absurd i) loaded,
        )

  pub open_document-HoldsGraph :
      (make_id : ℕ → Uid) (document : Uid) (w w' : World f S)
      → open_document d make_id document w ≡ ok w'
      → HoldsGraph w'
  open_document-HoldsGraph make_id document w w' h =
      let (doc, open_eq, _, well, _) = open_document-HasOpened d make_id document w w' h in
      let (doc', open_eq', low) = open_document-AllBelow make_id document w w' h in
      let same = some-injective doc' doc (sym open_eq' ∙ open_eq) in
      (doc, open_eq, record { well = well; below = rw same at low })

  upsert-LeavesDocument :
      (entity : Uid) (a : Attribute f) (now : Timestamp)
      → LeavesDocument ((document_interactor d).upsert entity a now)
  unfolding document_interactor send_update
  upsert-LeavesDocument entity a now =
      chain-LeavesDocument (db_upsert d entity a now) (send_update d entity a now)
        (db_upsert-LeavesDocument d entity a now) (sent a)
    where
      sent : (a : Attribute f) → LeavesDocument (send_update d entity a now)
      sent (coord c) = send-LeavesDocument (λ _. update_message d entity (coord c) now)
      sent (radius r) = send-LeavesDocument (λ _. update_message d entity (radius r) now)
      sent (set_operation_type t) =
          send-LeavesDocument (λ _. update_message d entity (set_operation_type t) now)
      sent (name n) = λ w w' h.
          let e = ok-injective h in
          (
            sym (ap (λ (x : World f S). x.store) e),
            sym (ap (λ (x : World f S). x.next) e),
            sym (ap (λ (x : World f S). x.current) e),
          )

  module _ (fuel : ℕ) where
    sphere_action-KeepsId :
        (s : Sphere f) → KeepsId (λ nd. set_coord s.coord nd >>= set_radius s.radius)
    sphere_action-KeepsId s nd nd'' h =
        let (nd', one, two) = >>=-eq-ok (set_coord s.coord nd) (set_radius s.radius) h in
        set_radius-KeepsId s.radius nd' nd'' two ∙ set_coord-KeepsId s.coord nd nd' one

    pub update_node-Holds :
        {P : Property f} {Allowed : Uid → Uid → Type 0}
        → IsKept P Allowed
        → (now : Timestamp) (nd : Node f) (w w' : World f S) → Holds P w
        → update_node (document_interactor d) fuel now nd w ≡ ok w'
        → Holds P w'
    unfolding update_node
    update_node-Holds {P} kept now (Node.sphere s) w w' held h =
        let radii = (document_interactor d).upsert s.uid (radius s.radius) now in
        let coords = (document_interactor d).upsert s.uid (coord s.coord) now in
        let action = λ (nd : Node f). set_coord s.coord nd >>= set_radius s.radius in
        let (t, before, meshed) =
          >>=-eq-ok (radii w >>= coords >>= on_nodes s.uid action) (regen_mesh fuel) h in
        let (u, called, changed) = >>=-eq-ok (radii w >>= coords) (on_nodes s.uid action) before in
        let leaves =
          chain-LeavesDocument radii coords (upsert-LeavesDocument s.uid (radius s.radius) now)
            (upsert-LeavesDocument s.uid (coord s.coord) now) in
        regen_mesh-Holds P fuel t w'
          (on_nodes-Holds kept s.uid action u t (sphere_action-KeepsId s)
            (LeavesDocument-Holds P (λ x. radii x >>= coords) w u leaves held called) changed)
          meshed
    update_node-Holds {P} kept now (setop o) w w' held h =
        let (u, _, fails) =
          >>=-eq-ok ((document_interactor d).upsert o.uid (set_operation_type o.type) now w) _ h in
        absurd (cc)
