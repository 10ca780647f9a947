-- ===== src/Tests/Graphs.antt =====
-- A graph of three nodes, and the values of a document.
use structur3d.Prelude.{
  ℕ, ◌-◌, ◌≡◌, ◌≢◌, refl, ◌↔◌, some, List, [], ◌∷◌, In, All, arith, ok, abort, ◌⊎◌,
}
use structur3d.Platform.Memory.{whole}
use structur3d.Data.{Uid, Node}
use structur3d.Data.Names.{make_name, make_name_iff, IsPrintable}
use structur3d.Graph.{
  Ptr, Store, Edge, Graph, remove, disconnect, connect, roots, trees, Forest, access, access_loop,
  update, create, find_ends, make_edge,
}
use structur3d.Graph.Changes.{IsWellFormed}
use structur3d.Graph.Connections.{HasId, IsNewEdge}
use structur3d.Graph.Trees.{AreSubTrees, Falls}
use structur3d.Graph.Branches.{connect_cases}
use structur3d.Graph.Steps.{
  Steps, Step, created, removed, disconnected, stop, after, Steps-IsWellFormed,
}
use structur3d.Graph.Forests.{trees_lem, InForest}
use structur3d.Graph.Access.{access-frame}

abbrev ball : Uid → Node whole
ball n =
    Node.sphere (record {
      uid = n;
      coord = record { x = 0; y = 0; z = 0 };
      radius = record { magnitude = 1 };
    })

-- At each address lives a sphere with the address as its id.
abbrev store : Store whole
store p = ball p

abbrev one_two : Edge
one_two = record { uid = 10; from = 1; to = 2 }

-- Three nodes, with an edge from the first to the second.
abbrev small : Graph
small = record { edges = one_two ∷ []; nodes = 1 ∷ 2 ∷ 3 ∷ [] }

small-IsWellFormed : IsWellFormed store small
small-IsWellFormed = record {
  from_in = λ e i. ground arith;
  to_in = λ e i. ground arith;
  no_loop = λ e i. ground arith;
}

-- The small graph with an edge from 2 to 3.
abbrev longer : Graph
longer = record small { edges = one_two ∷ record { uid = 11; from = 2; to = 3 } ∷ [] }

connected : connect store small 11 2 3 ≡ ok longer
unfolding connect find_ends make_edge
connected = refl

-- A connection, a removed node, a removed edge and a new node.
steps : Steps store small (create (disconnect store (remove store longer 1) 2 3) 1)
steps = after small longer _ (Step.connected 11 2 3 longer connected) (
    after longer (remove store longer 1) _ (removed 1) (
      after (remove store longer 1) (disconnect store (remove store longer 1) 2 3) _
        (disconnected 2 3)
        (after (disconnect store (remove store longer 1) 2 3) _ _ (created 1) (stop _))))

Steps-IsWellFormed_example :
    IsWellFormed store (create (disconnect store (remove store longer 1) 2 3) 1)
Steps-IsWellFormed_example = Steps-IsWellFormed store small _ steps small-IsWellFormed

-- Edges run from smaller ids to larger ones.
small-Falls : Falls store small.edges (λ n. 5 - n)
small-Falls e i = ground arith

trees_lem_example :
    (forest : Forest) × (trees store 6 small ≡ ok (some forest))
    × ((rs : List Ptr) × (roots small ≡ ok rs)
        × ((p : Ptr) → In p rs ↔ (In p small.nodes × ((e : Edge) → In e small.edges → e.to ≢ p)))
        × AreSubTrees store small.edges forest rs)
    × ((p : Ptr) → In p small.nodes → InForest p forest)
trees_lem_example =
    trees_lem store small (λ n. 5 - n) 6 small-IsWellFormed small-Falls (λ p i. omega arith)

connect_cases_example :
    ((◌≢◌ {A = ℕ} 2 9)
      × HasId store small.nodes 2
      × HasId store small.nodes 9
      × ((e : Edge) × (connect store small 11 2 9 ≡ ok (record small { edges = one_two ∷ e ∷ [] }))
          × IsNewEdge store small 11 2 9 e))
    ⊎ (((◌≡◌ {A = ℕ} 2 9) ⊎ (¬ HasId store small.nodes 2) ⊎ (¬ HasId store small.nodes 9))
        × (connect store small 11 2 9 ≡ abort))
connect_cases_example = connect_cases store small 11 2 9

-- The action puts a sphere with the id 7 in the place of the node.
accessed : access small 2 (λ node. ok (ball 7)) store ≡ ok (update store 1 (ball 7))
unfolding access access_loop
accessed = refl

access-frame_example : update store 1 (ball 7) 2 ≡ store 2
access-frame_example =
    access-frame 2 (λ node. ok (ball 7)) small 1 (2 ∷ 3 ∷ []) store (update store 1 (ball 7)) 2 refl
      (omega arith) accessed

abbrev ab : List ℕ
ab = 65 ∷ 66 ∷ []

make_name_iff_example :
    (make_name ab ≡ ok (record { value = ab })) ↔ ((ab ≢ []) × All IsPrintable ab × (ab ≡ ab))
make_name_iff_example = make_name_iff ab (record { value = ab })
