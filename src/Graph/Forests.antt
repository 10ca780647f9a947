-- ===== src/Graph/Forests.antt =====
-- `Graph::trees` on a graph without cycles: it comes back, and its trees hold every node.
use structur3d.Prelude.{
  ◌↔◌, ℕ, zero, suc, ◌+◌, ◌≤◌, ◌<◌, ◌≡◌, ◌≢◌, refl, ap, ◌⊎◌, inl, inr, some, List, [], ◌∷◌, In,
  In-map, In-keep, ok, ◌==◌, ==_iff, arith, ℕ_discrete,
}
use structur3d.Platform.{Floats}
use structur3d.Data.{Uid}
use structur3d.Graph.{
  Ptr, Store, Edge, Graph, Tree, Forest, tree, nil, cons, id_at, forest_of, roots, trees,
}
use structur3d.Graph.Changes.{IsWellFormed}
use structur3d.Graph.Roots.{roots_lem}
use structur3d.Graph.Trees.{
  root, targets, IsSubTree, AreSubTrees, Falls, sub_tree_of-total, sub_tree_of-IsSubTree,
}

-- The node is in the tree, or in a tree of the forest.
mutual
  pub InTree : Ptr → Tree → Type 0
  InTree p (tree q ts) = (p ≡ q) ⊎ InForest p ts

  pub InForest : Ptr → Forest → Type 0
  InForest p nil = ⊥
  InForest p (cons t ts) = InTree p t ⊎ InForest p ts

root-InTree : (t : Tree) → InTree (root t) t
unfolding InTree
root-InTree (tree p ts) = inl refl

-- An edge that leads to the node, or the proof that there is none.
find_incoming :
    (edges : List Edge) (p : Ptr)
    → ((e : Edge) × In e edges × (e.to ≡ p)) ⊎ ((e : Edge) → In e edges → e.to ≢ p)
find_incoming [] p = inr (λ e i. absurd i)
find_incoming (x ∷ edges) p = elim (ℕ_discrete x.to p) [
  | yes here ↦ inl (x, inl refl, here)
  | no there ↦ elim (find_incoming edges p) [
    | inl (e, i, q) ↦ inl (e, inr i, q)
    | inr none_in ↦ inr λ e i. elim i [ inl same ↦ ground arith | inr j ↦ none_in e j ]
  ]
]

module _ {f : Floats} (store : Store f) (edges : List Edge) where
  AreSubTrees-InForest :
      (ts : Forest) (ps : List Ptr) (p : Ptr)
      → AreSubTrees store edges ts ps
      → In p ps
      → InForest p ts
  unfolding IsSubTree InTree
  AreSubTrees-InForest nil [] p h i = absurd i
  AreSubTrees-InForest nil (q ∷ ps) p h i = absurd h
  AreSubTrees-InForest (cons t ts) [] p h i = absurd i
  AreSubTrees-InForest (cons t ts) (q ∷ ps) p h i = elim i [
    | inl same ↦ inl (rw (same, ← h.0) (root-InTree t))
    | inr j ↦ inr (AreSubTrees-InForest ts ps p h.2 j)
  ]

  In-targets :
      (e : Edge) (uid : Uid)
      → In e edges
      → id_at store e.from ≡ uid
      → In e.to (targets store uid edges)
  In-targets e uid i same =
      In-map (λ x. x.to) e _
        ((In-keep (λ x. id_at store x.from == uid) e edges).1 (i, (==_iff _ uid).1 same))

  -- Where the start of an edge is in such trees, so is its end.
  mutual
    unfolding IsSubTree InTree

    tree-closed :
        (t : Tree) (e : Edge)
        → IsSubTree store edges t
        → In e edges
        → InTree e.from t
        → InTree e.to t
    tree-closed (tree q ts) e h i at = elim at [
      | inl same ↦ inr (
          AreSubTrees-InForest ts _ e.to h (In-targets e (id_at store q) i (ap (id_at store) same)))
      | inr below ↦ inr (forest-closed ts _ e h i below)
    ]

    forest-closed :
        (ts : Forest) (ps : List Ptr) (e : Edge)
        → AreSubTrees store edges ts ps
        → In e edges
        → InForest e.from ts
        → InForest e.to ts
    forest-closed nil ps e h i at = absurd at
    forest-closed (cons t ts) [] e h i at = absurd h
    forest-closed (cons t ts) (p ∷ ps) e h i at = elim at [
      | inl here ↦ inl (tree-closed t e h.1 i here)
      | inr there ↦ inr (forest-closed ts ps e h.2 i there)
    ]

module _ {f : Floats} (store : Store f) (g : Graph) (height : Uid → ℕ) (fuel : ℕ) where
  forest_of_lem :
      (rs : List Ptr)
      → Falls store g.edges height
      → ((p : Ptr) → In p rs → height (id_at store p) < fuel)
      → (forest : Forest) × (forest_of store fuel g rs ≡ some forest)
        × AreSubTrees store g.edges forest rs
  unfolding forest_of IsSubTree
  forest_of_lem [] falls h = (nil, refl, tt)
  forest_of_lem (p ∷ rs) falls h =
      let (t, here) = sub_tree_of-total store g height fuel p falls (h p (inl refl)) in
      let (ts, there, shapes) = forest_of_lem rs falls (λ q i. h q (inr i)) in
      let (root_eq, shape) = sub_tree_of-IsSubTree store g fuel p t here in
      (cons t ts, rw (here, there, forest_of), (root_eq, shape, shapes))

  -- By how much the height of the node is short of the fuel.
  InForest-climb :
      (forest : Forest) (rs : List Ptr) (room : ℕ) (p : Ptr)
      → IsWellFormed store g
      → Falls store g.edges height
      → ((q : Ptr) → In q g.nodes → height (id_at store q) < fuel)
      → AreSubTrees store g.edges forest rs
      → ((q : Ptr) → In q g.nodes → ((e : Edge) → In e g.edges → e.to ≢ q) → In q rs)
      → In p g.nodes
      → fuel ≤ height (id_at store p) + room
      → InForest p forest
  InForest-climb forest rs zero p well falls low shape is_root i room =
      absurd (omega (arith, low p i))
  InForest-climb forest rs (suc k) p well falls low shape is_root i room =
      elim (find_incoming g.edges p) [
        | inl (e, j, same) ↦
            let up =
              InForest-climb forest rs k e.from well falls low shape is_root (well.from_in e j)
                (omega (arith, falls e j, ap (λ q. height (id_at store q)) same)) in
            rw same at (forest-closed store g.edges forest rs e shape j up)
        | inr none_in ↦ AreSubTrees-InForest store g.edges forest rs p shape (is_root p i none_in)
      ]

  -- On a well-formed graph without cycles, with fuel above the height of every node, `trees` comes back.
  -- There is one tree for each node to which no edge leads, of the targets of the edges that leave its
  -- nodes, and every node of the graph is in a tree.
  pub trees_lem :
      IsWellFormed store g
      → Falls store g.edges height
      → ((p : Ptr) → In p g.nodes → height (id_at store p) < fuel)
      → (forest : Forest) × (trees store fuel g ≡ ok (some forest))
        × ((rs : List Ptr) × (roots g ≡ ok rs)
            × ((p : Ptr) → In p rs ↔ (In p g.nodes × ((e : Edge) → In e g.edges → e.to ≢ p)))
            × AreSubTrees store g.edges forest rs)
        × ((p : Ptr) → In p g.nodes → InForest p forest)
  unfolding trees
  trees_lem well falls low =
      let (rs, found, is_root) = roots_lem g well.to_in in
      let (forest, built, shape) = forest_of_lem rs falls (λ p i. low p ((is_root p).0 i).0) in
      (
        forest,
        rw (found, built, trees),
        (rs, found, is_root, shape),
        λ p i.
            InForest-climb forest rs fuel p well falls low shape
              (λ q j none_in. (is_root q).1 (j, none_in)) i (omega arith),
      )
