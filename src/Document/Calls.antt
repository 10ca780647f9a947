-- ===== src/Document/Calls.antt =====
-- The calls of the open document keep what each of their changes of the graph keeps.
use structur3d.Prelude.{ℕ, ◌≡◌, sym, ◌∙◌, subst, ok, ◌>>=◌, ok-injective}
use structur3d.Platform.{Floats}
use structur3d.Data.{Uid, Timestamp, id}
use structur3d.Graph
use structur3d.Graph.Kept.{Property}
use structur3d.Graph.{Ptr, Store, Edge, Forest, trees}
use structur3d.World.{World, Interactor}
use structur3d.Document.{on_graph, regen_mesh, create_node, remove_node, create_edge, remove_edge}
use structur3d.Document.Invariant.{Holds, LeavesDocument, with_document-open, call-Holds}

module _ {f : Floats} {S : Type 0} where
  -- The calls of the interactor leave the nodes and the open document as they are.
  pub record IsDetached (i : Interactor f S) : Type 0 where
    pub create : (ptr : Ptr) (d : Uid) (t : Timestamp) → LeavesDocument (i.create ptr d t)
    pub remove : (ptr : Ptr) (d : Uid) (t : Timestamp) → LeavesDocument (i.remove ptr d t)
    pub connect : (from to : Uid) (t : Timestamp) → LeavesDocument (i.connect from to t)
    pub disconnect : (from to : Uid) (t : Timestamp) → LeavesDocument (i.disconnect from to t)

  module _ {i : Interactor f S} (detached : IsDetached i) (fuel : ℕ) (now : Timestamp)
      (P Q : Property f) where
    pub create_node-Holds :
        (ptr : Ptr) (w w' : World f S)
        → ((g : Graph.Graph) → P w.store w.next g → Q w.store w.next (Graph.create g ptr))
        → Holds P w
        → create_node i fuel now ptr w ≡ ok w'
        → Holds Q w'
    unfolding create_node
    create_node-Holds ptr w w' keeps (doc, open_eq, well) h =
        call-Holds P Q (i.create ptr doc.id now) (λ _ g. ok (Graph.create g ptr)) fuel w w'
          (detached.create ptr doc.id now)
          (λ g g' k e. subst (Q w.store w.next) (ok-injective e) (keeps g k)) (doc, open_eq, well)
          (sym (
              with_document-open
                (λ doc w.
                  i.create ptr doc.id now w
                  >>= on_graph (λ _ g. ok (Graph.create g ptr))
                  >>= regen_mesh fuel)
                doc w open_eq)
            ∙ h)

    pub remove_node-Holds :
        (ptr : Ptr) (w w' : World f S)
        → ((g : Graph.Graph) → P w.store w.next g → Q w.store w.next (Graph.remove w.store g ptr))
        → Holds P w
        → remove_node i fuel now ptr w ≡ ok w'
        → Holds Q w'
    unfolding remove_node
    remove_node-Holds ptr w w' keeps (doc, open_eq, well) h =
        call-Holds P Q (i.remove ptr doc.id now) (λ store g. ok (Graph.remove store g ptr)) fuel w
          w' (detached.remove ptr doc.id now)
          (λ g g' k e. subst (Q w.store w.next) (ok-injective e) (keeps g k)) (doc, open_eq, well)
          (sym (
              with_document-open
                (λ doc w.
                  i.remove ptr doc.id now w
                  >>= on_graph (λ store g. ok (Graph.remove store g ptr))
                  >>= regen_mesh fuel)
                doc w open_eq)
            ∙ h)

    pub create_edge-Holds :
        (fresh : Uid) (edge : Edge) (w w' : World f S)
        → ((g g' : Graph.Graph)
            → P w.store w.next g
            → Graph.connect w.store g fresh (id (w.store edge.from)) (id (w.store edge.to)) ≡ ok g'
            → Q w.store w.next g')
        → Holds P w
        → create_edge i fuel now fresh edge w ≡ ok w'
        → Holds Q w'
    unfolding create_edge
    create_edge-Holds fresh edge w w' keeps (doc, open_eq, well) h =
        let from = id (w.store edge.from) in
        let to = id (w.store edge.to) in
        call-Holds P Q (i.connect from to now) (λ store g. Graph.connect store g fresh from to) fuel
          w w' (detached.connect from to now) keeps (doc, open_eq, well)
          (sym (
              with_document-open
                (λ doc w.
                  i.connect (id (w.store edge.from)) (id (w.store edge.to)) now w
                  >>= on_graph (λ store g.
                    Graph.connect store g fresh (id (w.store edge.from)) (id (w.store edge.to)))
                  >>= regen_mesh fuel)
                doc w open_eq)
            ∙ h)

    pub remove_edge-Holds :
        (edge : Edge) (w w' : World f S)
        → ((g : Graph.Graph)
            → P w.store w.next g
            → Q w.store w.next
                (Graph.disconnect w.store g (id (w.store edge.from)) (id (w.store edge.to))))
        → Holds P w
        → remove_edge i fuel now edge w ≡ ok w'
        → Holds Q w'
    unfolding remove_edge
    remove_edge-Holds edge w w' keeps (doc, open_eq, well) h =
        let from = id (w.store edge.from) in
        let to = id (w.store edge.to) in
        call-Holds P Q (i.disconnect from to now) (λ store g. ok (Graph.disconnect store g from to))
          fuel w w' (detached.disconnect from to now)
          (λ g g' k e. subst (Q w.store w.next) (ok-injective e) (keeps g k)) (doc, open_eq, well)
          (sym (
              with_document-open
                (λ doc w.
                  i.disconnect (id (w.store edge.from)) (id (w.store edge.to)) now w
                  >>= on_graph (λ store g.
                    ok (Graph.disconnect store g (id (w.store edge.from)) (id (w.store edge.to))))
                  >>= regen_mesh fuel)
                doc w open_eq)
            ∙ h)
