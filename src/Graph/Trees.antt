-- ===== src/Graph/Trees.antt =====
-- `Graph::subTreeOf`: when it comes back, and what the tree is.
use structur3d.Prelude.{
  ℕ, zero, suc, ◌<◌, ◌≡◌, refl, subst, ap, Option, some, List, [], ◌∷◌, map, keep, In, inl, inr,
  arith, ◌==◌, ==_iff, Option-cases, Bool-cases,
}
use mathlib.Core.Option.{some-injective}
use structur3d.Platform.{Floats}
use structur3d.Data.{Uid}
use structur3d.Graph.{
  Ptr, Store, Edge, Graph, Tree, Forest, tree, nil, cons, id_at, subtrees, sub_tree_of,
}

abbrev pub root : Tree → Ptr
root (tree p ts) = p

module _ {f : Floats} (store : Store f) where
  -- The targets of the edges that leave a node with the id, in the order of the edges.
  abbrev pub targets : Uid → List Edge → List Ptr
  targets uid edges = map (λ e. e.to) (keep (λ e. id_at store e.from == uid) edges)

  module _ (edges : List Edge) where
    -- The children of every node of the tree are the targets of its edges.
    unfoldable mutual
      pub IsSubTree : Tree → Type 0
      IsSubTree (tree p ts) = AreSubTrees ts (targets (id_at store p) edges)

      pub AreSubTrees : Forest → List Ptr → Type 0
      AreSubTrees nil [] = Unit
      AreSubTrees nil (p ∷ ps) = ⊥
      AreSubTrees (cons t ts) [] = ⊥
      AreSubTrees (cons t ts) (p ∷ ps) = (root t ≡ p) × IsSubTree t × AreSubTrees ts ps

    -- A height that falls along every edge: the edges have no cycle.
    abbrev pub Falls : (Uid → ℕ) → Type 0
    Falls height = (e : Edge) → In e edges → height (id_at store e.to) < height (id_at store e.from)

    subtrees-total :
        (call : Ptr → Option Tree) (uid : Uid) (rest : List Edge)
        → ((e : Edge) → In e rest → id_at store e.from ≡ uid → (t : Tree) × (call e.to ≡ some t))
        → (ts : Forest) × (subtrees store call uid rest ≡ some ts)
    unfolding subtrees
    subtrees-total call uid [] h = (nil, refl)
    subtrees-total call uid (e ∷ rest) h =
        let (ts, later) = subtrees-total call uid rest (λ e i. h e (inr i)) in
        elim (Bool-cases (id_at store e.from == uid)) [
          | inl hit ↦
              let (t, here) = h e (inl refl) ((==_iff _ uid).0 hit) in
              (cons t ts, rw (hit, here, later))
          | inr miss ↦ (ts, rw (miss, later))
        ]

module _ {f : Floats} (store : Store f) (g : Graph) where
  -- On a graph without cycles `subTreeOf` comes back, for every node: any fuel above the height of the
  -- node is enough.
  pub sub_tree_of-total :
      (height : Uid → ℕ) (fuel : ℕ) (node : Ptr)
      → Falls store g.edges height
      → height (id_at store node) < fuel
      → (t : Tree) × (sub_tree_of store fuel g node ≡ some t)
  unfolding sub_tree_of
  sub_tree_of-total height zero node falls h = absurd (omega arith)
  sub_tree_of-total height (suc fuel) node falls h =
      let (ts, e) =
        subtrees-total store g.edges (sub_tree_of store fuel g) (id_at store node) g.edges
          λ e i from_eq.
            sub_tree_of-total height fuel e.to falls
              (omega (arith, falls e i, ap height from_eq)) in
      (tree node ts, rw (e, sub_tree_of))

  subtrees-AreSubTrees :
      (call : Ptr → Option Tree) (uid : Uid) (rest : List Edge) (ts : Forest)
      → ((p : Ptr) (t : Tree) → call p ≡ some t → (root t ≡ p) × IsSubTree store g.edges t)
      → subtrees store call uid rest ≡ some ts
      → AreSubTrees store g.edges ts (targets store uid rest)
  unfolding subtrees IsSubTree
  subtrees-AreSubTrees call uid [] ts good h =
      subst (λ us. AreSubTrees store g.edges us []) (some-injective nil ts h) tt
  subtrees-AreSubTrees call uid (e ∷ rest) ts good h =
      elim (Bool-cases (id_at store e.from == uid)) [
        | inl hit ↦ elim (Option-cases (call e.to)) [
          | inl out ↦ let bad = rw (hit, out, subtrees) at h in absurd (cc)
          | inr (t, here) ↦ elim (Option-cases (subtrees store call uid rest)) [
            | inl out ↦ let bad = rw (hit, here, out, subtrees) at h in absurd (cc)
            | inr (us, later) ↦
                let (root_eq, shape) = good e.to t here in
                subst (λ vs. AreSubTrees store g.edges vs (targets store uid (e ∷ rest)))
                  (some-injective (cons t us) ts (rw (hit, here, later, subtrees) at h))
                  (rw hit (root_eq, shape, subtrees-AreSubTrees call uid rest us good later))
          ]
        ]
        | inr miss ↦ rw miss (subtrees-AreSubTrees call uid rest ts good (rw (miss, subtrees) at h))
      ]

  -- A tree that `subTreeOf` gives has the node at its root, and the children of each of its nodes are
  -- the targets of just the edges that leave the node, in the order of the edges.
  pub sub_tree_of-IsSubTree :
      (fuel : ℕ) (node : Ptr) (t : Tree)
      → sub_tree_of store fuel g node ≡ some t
      → (root t ≡ node) × IsSubTree store g.edges t
  unfolding sub_tree_of IsSubTree
  sub_tree_of-IsSubTree zero node t h = absurd (cc)
  sub_tree_of-IsSubTree (suc fuel) node t h =
      elim (Option-cases (subtrees store (sub_tree_of store fuel g) (id_at store node) g.edges)) [
        | inl out ↦ let bad = rw (out, sub_tree_of) at h in absurd (cc)
        | inr (ts, e) ↦
            subst (λ u. (root u ≡ node) × IsSubTree store g.edges u)
              (some-injective (tree node ts) t (rw (e, sub_tree_of) at h))
              (
                refl,
                subtrees-AreSubTrees (sub_tree_of store fuel g) (id_at store node) g.edges ts
                    (sub_tree_of-IsSubTree fuel) e,
              )
      ]
