-- ===== src/Document.antt =====
-- src/document/DocumentImpl.cpp: the calls of the open document. Each asks the interactor, changes the
-- graph, and starts a job for the mesh with the trees of the graph. `now` is the clock's answer, and
-- `fuel` bounds the depth of the trees; out of fuel, as on a cycle, the call does not come back.
pub mod Invariant
pub mod Calls
pub mod Edits
use structur3d.Prelude.{ℕ, ◌≡◌, Option, none, some, List, [], ◌∷◌, ◌++◌, Outcome, ok, abort, ◌>>=◌}
use structur3d.Platform.{Floats}
use structur3d.Data.{
  Uid, Timestamp, Coord, Radius, Node, Sphere, SetOp, SetOperationType, Attribute, setop, coord,
  radius, set_operation_type, id,
}
use structur3d.Graph
use structur3d.Graph.{Ptr, Store, Edge, Forest, trees, access}
use structur3d.World.{Document, World, Interactor}

-- `->` on a pointer that may be null
abbrev pointee : {A : Type 0} → Option A → Outcome A
pointee none = abort
pointee (some x) = ok x

module _ {f : Floats} where
  -- `std::dynamic_pointer_cast<Sphere>`
  abbrev as_sphere : Node f → Option (Sphere f)
  as_sphere (Node.sphere s) = some s
  as_sphere (setop o) = none

  -- The actions on a node: a cast to the other class is a null pointer.
  unfoldable pub set_coord : Coord f → Node f → Outcome (Node f)
  set_coord c (Node.sphere s) = ok (Node.sphere (record s { coord = c }))
  set_coord c (setop o) = abort

  unfoldable pub set_radius : Radius f → Node f → Outcome (Node f)
  set_radius r (Node.sphere s) = ok (Node.sphere (record s { radius = r }))
  set_radius r (setop o) = abort

  unfoldable pub set_type : SetOperationType → Node f → Outcome (Node f)
  set_type t (Node.sphere s) = abort
  set_type t (setop o) = ok (setop (record o { type = t }))

module _ {f : Floats} {S : Type 0} where
  -- The open document, with the world as it is; a null pointer where none is open.
  abbrev pub with_document :
      (Document → World f S → Outcome (World f S)) → World f S → Outcome (World f S)
  with_document body w = elim w.current [ none ↦ abort | some doc ↦ body doc w ]

  -- A change of the open document's graph.
  abbrev pub on_graph :
      (Store f → Graph.Graph → Outcome Graph.Graph) → World f S → Outcome (World f S)
  on_graph change = with_document λ doc w.
      change w.store doc.graph >>= λ g. ok (record w { current = some (record doc { graph = g }) })

  -- A change of the nodes of the open document.
  abbrev pub on_nodes : Uid → (Node f → Outcome (Node f)) → World f S → Outcome (World f S)
  on_nodes uid action =
      with_document
        λ doc w. access doc.graph uid action w.store >>= λ store. ok (record w { store = store })

  unfoldable pub start_job : Document → Option Forest → World f S → Outcome (World f S)
  start_job doc none w = abort
  start_job doc (some forest) w =
      ok (record w { current = some (record doc { jobs = doc.jobs ++ forest ∷ [] }) })

  unfoldable pub regen_mesh : ℕ → World f S → Outcome (World f S)
  unfolding start_job trees
  regen_mesh fuel =
      with_document λ doc w. trees w.store fuel doc.graph >>= λ forest. start_job doc forest w

  module _ (i : Interactor f S) (fuel : ℕ) (now : Timestamp) where
    unfoldable pub create_node : Ptr → World f S → Outcome (World f S)
    unfolding regen_mesh
    create_node node = with_document λ doc w.
        i.create node doc.id now w
        >>= on_graph (λ _ g. ok (Graph.create g node))
        >>= regen_mesh fuel

    unfoldable pub remove_node : Ptr → World f S → Outcome (World f S)
    unfolding regen_mesh
    remove_node node = with_document λ doc w.
        i.remove node doc.id now w
        >>= on_graph (λ store g. ok (Graph.remove store g node))
        >>= regen_mesh fuel

    -- The graph makes an edge of its own, with a `fresh` uid.
    unfoldable pub create_edge : Uid → Edge → World f S → Outcome (World f S)
    unfolding regen_mesh
    create_edge fresh edge = with_document λ doc w.
        let from = id (w.store edge.from) in
        let to = id (w.store edge.to) in
        i.connect from to now w
        >>= on_graph (λ store g. Graph.connect store g fresh from to)
        >>= regen_mesh fuel

    unfoldable pub remove_edge : Edge → World f S → Outcome (World f S)
    unfolding regen_mesh
    remove_edge edge = with_document λ doc w.
        let from = id (w.store edge.from) in
        let to = id (w.store edge.to) in
        i.disconnect from to now w
        >>= on_graph (λ store g. ok (Graph.disconnect store g from to))
        >>= regen_mesh fuel

    -- The branch of a `SetOp` reads the id behind the pointer to a `Sphere`.
    unfoldable pub update_node : Node f → World f S → Outcome (World f S)
    unfolding set_coord set_radius set_type regen_mesh
    update_node (Node.sphere s) w =
        i.upsert s.uid (radius s.radius) now w
        >>= i.upsert s.uid (coord s.coord) now
        >>= on_nodes s.uid (λ node. set_coord s.coord node >>= set_radius s.radius)
        >>= regen_mesh fuel
    update_node (setop o) w = i.upsert o.uid (set_operation_type o.type) now w >>= λ w'.
        pointee (as_sphere {f = f} (setop o)) >>= λ s.
        on_nodes s.uid (set_type o.type) w' >>= regen_mesh fuel

    -- `update` reads the node behind the pointer.
    unfoldable pub update : Ptr → World f S → Outcome (World f S)
    unfolding update_node
    update node w = update_node (w.store node) w
