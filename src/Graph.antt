-- ===== src/Graph.antt =====
-- include/data/Graph.h and src/data/Graph.cpp: nodes and edges by shared pointers. A pointer is an
-- address; a store says which node lives there. Pointers to nodes that live on elsewhere are shared,
-- so a change through one of them is a change of the store.
pub mod Changes
pub mod Connections
pub mod Branches
pub mod Trees
pub mod Steps
pub mod Addresses
pub mod Roots
pub mod Forests
pub mod Access
pub mod Kept
pub mod Backed
use structur3d.Prelude.{
  ℕ, zero, suc, ◌+◌, ◌≡◌, Bool, true, false, not, ◌&&◌, ◌||◌, Option, none, some, List, [], ◌∷◌,
  ◌++◌, map, Outcome, ok, abort, ◌>>=◌, ltb, ◌==◌, if◌then◌else◌, keep,
}
use structur3d.Platform.{Floats}
use structur3d.Data.{Uid, Node, id}

abbrev pub Ptr : Type 0
Ptr = ℕ

abbrev pub Store : Floats → Type 0
Store f = Ptr → Node f

abbrev pub update : {f : Floats} → Store f → Ptr → Node f → Store f
update store ptr node other = if ptr == other then node else store other

-- include/data/Edge.h
pub record Edge : Type 0 where
  pub uid : Uid
  pub from : Ptr
  pub to : Ptr

pub record Graph : Type 0 where
  pub edges : List Edge
  pub nodes : List Ptr

-- include/data/Tree.h: a node and its subtrees
mutual
  pub data Tree : Type 0 where
    tree : Ptr → Forest → Tree

  pub data Forest : Type 0 where
    nil : Forest
    cons : Tree → Forest → Forest

unfoldable pub create : Graph → Ptr → Graph
create g node = record g { nodes = g.nodes ++ node ∷ [] }

module _ {f : Floats} (store : Store f) where
  -- the `id()` of the node behind a pointer
  abbrev pub id_at : Ptr → Uid
  id_at ptr = id (store ptr)

  abbrev pub touches : Uid → Edge → Bool
  touches uid edge = id_at edge.from == uid || id_at edge.to == uid

  abbrev pub joins : Uid → Uid → Edge → Bool
  joins from to edge = id_at edge.from == from && id_at edge.to == to

  unfoldable pub remove : Graph → Ptr → Graph
  remove g node = record {
    edges = keep (λ edge. not (touches (id_at node) edge)) g.edges;
    nodes = keep (λ nd. not (id_at nd == id_at node)) g.nodes;
  }

  unfoldable pub disconnect : Graph → Uid → Uid → Graph
  disconnect g from to = record g { edges = keep (λ edge. not (joins from to edge)) g.edges }

  -- The loop of `connect`: the last node of each id, with a null pointer as `none`.
  unfoldable pub find_ends :
      Uid → Uid → List Ptr → Option Ptr → Option Ptr → Option Ptr × Option Ptr
  find_ends from to [] start end = (start, end)
  find_ends from to (node ∷ nodes) start end =
      find_ends from to nodes (if id_at node == from then some node else start)
        (if id_at node == from then end else if id_at node == to then some node else end)

  -- The constructor of `Edge`, which reads both ids and asserts that they differ.
  unfoldable pub make_edge : Uid → Option Ptr → Option Ptr → Outcome Edge
  make_edge uid (some from) (some to) =
      if id_at from == id_at to then abort else ok (record { uid = uid; from = from; to = to })
  make_edge uid (some from) none = abort
  make_edge uid none to = abort

  -- `fresh` is the uid that the generator gives.
  unfoldable pub connect : Graph → Uid → Uid → Uid → Outcome Graph
  unfolding find_ends make_edge
  connect g fresh from to =
      let (start, end) = find_ends from to g.nodes none none in
      make_edge fresh start end >>= λ edge. ok (record g { edges = g.edges ++ edge ∷ [] })

-- `std::map<std::shared_ptr<Node>, size_t>`, in the order of the addresses
abbrev pub Counts : Type 0
Counts = List (Ptr × ℕ)

-- `insert`, which leaves a key that is there
unfoldable pub insert : Ptr → Counts → Counts
insert k [] = (k, 0) ∷ []
insert k ((j, n) ∷ m) =
    if ltb k j then (k, 0) ∷ (j, n) ∷ m else if k == j then (j, n) ∷ m else (j, n) ∷ insert k m

-- `at(to) += 1`, which throws where the key is missing
unfoldable pub increment : Ptr → Counts → Outcome Counts
increment k [] = abort
increment k ((j, n) ∷ m) =
    if k == j then ok ((j, n + 1) ∷ m) else (increment k m >>= λ m'. ok ((j, n) ∷ m'))

unfoldable pub count_nodes : List Ptr → Counts → Counts
unfolding insert
count_nodes [] m = m
count_nodes (node ∷ nodes) m = count_nodes nodes (insert node m)

unfoldable pub count_edges : List Edge → Counts → Outcome Counts
unfolding increment
count_edges [] m = ok m
count_edges (edge ∷ edges) m = increment edge.to m >>= count_edges edges

unfoldable pub zeros : Counts → List Ptr
zeros [] = []
zeros ((k, n) ∷ m) = if n == 0 then k ∷ zeros m else zeros m

unfoldable pub roots : Graph → Outcome (List Ptr)
unfolding count_nodes count_edges zeros
roots g = count_edges g.edges (count_nodes g.nodes []) >>= λ edges_in. ok (zeros edges_in)

module _ {f : Floats} (store : Store f) where
  -- The loop of `subTreeOf`, over the edges, with the recursive call as an argument.
  unfoldable pub subtrees : (Ptr → Option Tree) → Uid → List Edge → Option Forest
  subtrees call uid [] = some nil
  subtrees call uid (edge ∷ edges) =
      if id_at store edge.from == uid
      then elim (call edge.to) [
        | none ↦ none
        | some t ↦ elim (subtrees call uid edges) [ none ↦ none | some ts ↦ some (cons t ts) ]
      ]
      else subtrees call uid edges

  -- `none` where the fuel runs out; on a cycle the code does not return.
  unfoldable pub sub_tree_of : ℕ → Graph → Ptr → Option Tree
  unfolding subtrees
  sub_tree_of zero g node = none
  sub_tree_of (suc fuel) g node = elim (subtrees (sub_tree_of fuel g) (id_at store node) g.edges) [
    | none ↦ none
    | some ts ↦ some (tree node ts)
  ]

  unfoldable pub forest_of : ℕ → Graph → List Ptr → Option Forest
  unfolding sub_tree_of
  forest_of fuel g [] = some nil
  forest_of fuel g (root ∷ rest) = elim (sub_tree_of fuel g root) [
    | none ↦ none
    | some t ↦ elim (forest_of fuel g rest) [ none ↦ none | some ts ↦ some (cons t ts) ]
  ]

  unfoldable pub trees : ℕ → Graph → Outcome (Option Forest)
  unfolding roots forest_of
  trees fuel g = roots g >>= λ rs. ok (forest_of fuel g rs)

-- `access`: the action runs once for each node with the uid, and always on the first node.
unfoldable pub access_loop :
    {f : Floats} → Uid → (Node f → Outcome (Node f)) → Ptr → List Ptr → Store f → Outcome (Store f)
access_loop uid action first [] store = ok store
access_loop uid action first (node ∷ nodes) store =
    (if id (store node) == uid
      then (action (store first) >>= λ changed. ok (update store first changed))
      else ok store)
    >>= access_loop uid action first nodes

unfoldable pub access :
    {f : Floats} → Graph → Uid → (Node f → Outcome (Node f)) → Store f → Outcome (Store f)
unfolding access_loop
access g uid action store = elim g.nodes [
  | [] ↦ ok store
  | first ∷ rest ↦ access_loop uid action first (first ∷ rest) store
]
