-- ===== src/Document/Invariant.antt =====
-- What holds of the open document's graph, and the parts of its calls.
use structur3d.Prelude.{
  ℕ, ◌≡◌, refl, sym, ◌∙◌, subst, Option, some, none, Outcome, ok, abort, ◌>>=◌, ok-injective,
  >>=-eq-ok,
}
use structur3d.Platform.{Floats}
use structur3d.Graph
use structur3d.Graph.{Ptr, Store, Edge, Forest, trees}
use structur3d.Graph.Changes.{IsWellFormed}
use structur3d.Graph.Kept.{Property}
use structur3d.World.{Document, World}
use structur3d.Document.{with_document, on_graph, start_job, regen_mesh}

module _ {f : Floats} {S : Type 0} where
  -- A document is open, and its graph has the property, in the memory as it is.
  abbrev pub Holds : Property f → World f S → Type 0
  Holds P w = (doc : Document) × (w.current ≡ some doc) × P w.store w.next doc.graph

  -- A document is open, and its graph is well-formed.
  abbrev pub IsOpen : World f S → Type 0
  IsOpen = Holds (λ store _ g. IsWellFormed store g)

  -- The call leaves the nodes, the next free address and the open document as they are.
  abbrev pub LeavesDocument : (World f S → Outcome (World f S)) → Type 0
  LeavesDocument call =
      (w w' : World f S)
      → call w ≡ ok w'
      → (w'.store ≡ w.store) × (w'.next ≡ w.next) × (w'.current ≡ w.current)

  pub with_document-open :
      (body : Document → World f S → Outcome (World f S)) (doc : Document) (w : World f S)
      → w.current ≡ some doc
      → with_document body w ≡ body doc w
  with_document-open body doc w e = elim_eq w.current e
    where
      elim_eq :
          (o : Option Document)
          → o ≡ some doc
          → elim o [ none ↦ abort | some d ↦ body d w ] ≡ body doc w
      elim_eq o same = rw same

  module _ (P : Property f) where
    start_job-Holds :
        (doc : Document) (forest : Option Forest) (w w' : World f S)
        → P w.store w.next doc.graph
        → start_job doc forest w ≡ ok w'
        → Holds P w'
    unfolding start_job
    start_job-Holds doc none w w' well h = absurd (cc)
    start_job-Holds doc (some forest) w w' well h = subst (Holds P) (ok-injective h) (_, refl, well)

    pub regen_mesh-Holds :
        (fuel : ℕ) (w w' : World f S) → Holds P w → regen_mesh fuel w ≡ ok w' → Holds P w'
    unfolding regen_mesh
    regen_mesh-Holds fuel w w' (doc, open_eq, well) h =
        let (forest, _, started) =
          >>=-eq-ok (trees w.store fuel doc.graph) (λ forest. start_job doc forest w)
            (sym (
                with_document-open
                  (λ doc w. trees w.store fuel doc.graph >>= λ forest. start_job doc forest w) doc w
                  open_eq)
              ∙ h) in
        start_job-Holds doc forest w w' well started

    pub LeavesDocument-Holds :
        (call : World f S → Outcome (World f S)) (w w' : World f S)
        → LeavesDocument call
        → Holds P w
        → call w ≡ ok w'
        → Holds P w'
    LeavesDocument-Holds call w w' leaves (doc, open_eq, well) h =
        let (store_eq, next_eq, current_eq) = leaves w w' h in
        (doc, current_eq ∙ open_eq, rw (store_eq, next_eq) well)

  module _ (P Q : Property f) where
    -- The change of a graph takes the one property to the other.
    abbrev pub Turns : (Store f → Graph.Graph → Outcome Graph.Graph) → World f S → Type 0
    Turns change w =
        (g g' : Graph.Graph) → P w.store w.next g → change w.store g ≡ ok g' → Q w.store w.next g'

    pub on_graph-Holds :
        (change : Store f → Graph.Graph → Outcome Graph.Graph) (w w' : World f S)
        → Turns change w
        → Holds P w
        → on_graph change w ≡ ok w'
        → Holds Q w'
    on_graph-Holds change w w' turns (doc, open_eq, well) h =
        let (g, changed, done) =
          >>=-eq-ok (change w.store doc.graph)
            (λ g. ok (record w { current = some (record doc { graph = g }) }))
            (sym (
                with_document-open
                  (λ doc w. change w.store doc.graph >>= λ g.
                    ok (record w { current = some (record doc { graph = g }) }))
                  doc w open_eq)
              ∙ h) in
        subst (Holds Q) (ok-injective done) (_, refl, turns doc.graph g well changed)

    -- What the four calls share.
    pub call-Holds :
        (call : World f S → Outcome (World f S))
        (change : Store f → Graph.Graph → Outcome Graph.Graph) (fuel : ℕ) (w w' : World f S)
        → LeavesDocument call
        → Turns change w
        → Holds P w
        → (call w >>= on_graph change >>= regen_mesh fuel) ≡ ok w'
        → Holds Q w'
    call-Holds call change fuel w w' leaves turns held h =
        let (u, first, meshed) = >>=-eq-ok (call w >>= on_graph change) (regen_mesh fuel) h in
        let (v, called, changed) = >>=-eq-ok (call w) (on_graph change) first in
        let (store_eq, next_eq, _) = leaves w v called in
        regen_mesh-Holds Q fuel u w'
          (on_graph-Holds change v u (rw (store_eq, next_eq) turns)
            (LeavesDocument-Holds P call w v leaves held called) changed)
          meshed
