-- ===== src/Mesh/Solids.antt =====
-- Which points the shape of a tree holds.
use structur3d.Prelude.{
  ◌≡◌, refl, ◌∙◌, Bool, true, false, not, ◌&&◌, ◌||◌, Option, none, some, List, arith,
}
use structur3d.Platform.{Floats}
use structur3d.Data.{Node, setop, SetOperationType, union, intersection}
use structur3d.Graph.{Store, Tree, Forest, tree, nil, cons}
use structur3d.Mesh.{
  Shapes, sphere_shape, shape_of_node, shape_of_operation, push, l5_tree_from_tree, l5_trees,
  shape_of_forest,
}
use structur3d.Mesh.Inside.{
  IsInside, filled, is_some, any_inside, all_inside, inside_of, inside-aggregate_min,
  inside-aggregate_max, filled-aggregate,
}

module _ {f : Floats} (l5 : Shapes f) (inside : l5.Shape → Bool) (store : Store f) where
  -- Something is at the root: a sphere, or a set operation with such a child.
  abbrev pub node_has_shape : Node f → Bool → Bool
  node_has_shape (Node.sphere s) child = true
  node_has_shape (setop o) child = child

  mutual
    pub has_shape : Tree → Bool
    has_shape (tree p ts) = node_has_shape (store p) (any_shape ts)

    pub any_shape : Forest → Bool
    any_shape nil = false
    any_shape (cons t ts) = has_shape t || any_shape ts

  -- Constructive solid geometry: the point is in a sphere; in one of the children of a union; in all
  -- children of an intersection that stand for something, of which there is one.
  abbrev pub operation_solid : SetOperationType → (child any all : Bool) → Bool
  operation_solid union child any all = any
  operation_solid intersection child any all = child && all

  abbrev pub node_solid : Node f → (child any all : Bool) → Bool
  node_solid (Node.sphere s) child any all = inside (sphere_shape l5 s)
  node_solid (setop o) child any all = operation_solid o.type child any all

  mutual
    unfolding has_shape

    pub solid : Tree → Bool
    solid (tree p ts) = node_solid (store p) (any_shape ts) (any_solid ts) (all_solid ts)

    pub any_solid : Forest → Bool
    any_solid nil = false
    any_solid (cons t ts) = solid t || any_solid ts

    pub all_solid : Forest → Bool
    all_solid nil = true
    all_solid (cons t ts) = (not (has_shape t) || solid t) && all_solid ts

module _ {f : Floats} {l5 : Shapes f} {inside : l5.Shape → Bool} (laws : IsInside l5 inside) where
  -- What the shape of a tree has to be.
  record Fits (o : Option l5.Shape) (filled_ inside_ : Bool) : Type 0 where
    some_eq : is_some o ≡ filled_
    inside_eq : inside_of inside o ≡ inside_

  -- What the shapes of a forest have to be.
  record AllFit (ss : List l5.Shape) (filled_ any_ all_ : Bool) : Type 0 where
    filled_eq : filled ss ≡ filled_
    any_eq : any_inside inside ss ≡ any_
    all_eq : all_inside inside ss ≡ all_

  AllFit-push :
      (o : Option l5.Shape) (ss : List l5.Shape) (a b c d e : Bool)
      → Fits o a b
      → AllFit ss c d e
      → AllFit (push l5 o ss) (a || c) (b || d) ((not a || b) && e)
  AllFit-push none ss a b c d e t ts = record {
    filled_eq = ground (arith, t.some_eq, ts.filled_eq);
    any_eq = ground (arith, t.inside_eq, ts.any_eq);
    all_eq = ground (arith, t.some_eq, ts.all_eq);
  }
  AllFit-push (some s) ss a b c d e t ts = record {
    filled_eq = ground (arith, t.some_eq);
    any_eq = ground (arith, t.inside_eq, ts.any_eq);
    all_eq = ground (arith, t.some_eq, t.inside_eq, ts.all_eq);
  }

  module _ (store : Store f) where
    operation-Fits :
        (type : SetOperationType) (ss : List l5.Shape) (child any all : Bool)
        → AllFit ss child any all
        → Fits
            (shape_of_operation l5 type ss)
            child
            (operation_solid l5 inside store type child any all)
    unfolding shape_of_operation
    operation-Fits union ss child any all h = record {
      some_eq = filled-aggregate laws ss l5.min ∙ h.filled_eq;
      inside_eq = inside-aggregate_min laws ss ∙ h.any_eq;
    }
    operation-Fits intersection ss child any all h = record {
      some_eq = filled-aggregate laws ss l5.max ∙ h.filled_eq;
      inside_eq = ground (arith, inside-aggregate_max laws ss, h.filled_eq, h.all_eq);
    }

    node-Fits :
        (nd : Node f) (ss : List l5.Shape) (child any all : Bool)
        → AllFit ss child any all
        → Fits
            (shape_of_node l5 nd ss)
            (node_has_shape l5 inside store nd child)
            (node_solid l5 inside store nd child any all)
    unfolding shape_of_node
    node-Fits (Node.sphere s) ss child any all h = record { some_eq = refl; inside_eq = refl }
    node-Fits (setop o) ss child any all h = operation-Fits o.type ss child any all h

    mutual
      unfolding l5_tree_from_tree solid has_shape

      tree-Fits :
          (t : Tree)
          → Fits
              (l5_tree_from_tree l5 store t)
              (has_shape l5 inside store t)
              (solid l5 inside store t)
      tree-Fits (tree p ts) = node-Fits (store p) (l5_trees l5 store ts) _ _ _ (forest-AllFit ts)

      forest-AllFit :
          (ts : Forest)
          → AllFit
              (l5_trees l5 store ts)
              (any_shape l5 inside store ts)
              (any_solid l5 inside store ts)
              (all_solid l5 inside store ts)
      forest-AllFit nil = record { filled_eq = refl; any_eq = refl; all_eq = refl }
      forest-AllFit (cons t ts) =
          AllFit-push (l5_tree_from_tree l5 store t) (l5_trees l5 store ts) _ _ _ _ _ (tree-Fits t)
            (forest-AllFit ts)

    -- A forest has a shape just where one of its trees has something at its root. Where a point is
    -- inside the minimum of two shapes when it is inside one, and inside the maximum when it is
    -- inside both, it is inside the shape of the forest just where it is in the solid of one of
    -- the trees, by constructive solid geometry.
    pub shape_of_forest_lem :
        (forest : Forest)
        → (is_some (shape_of_forest l5 store forest) ≡ any_shape l5 inside store forest)
          × (inside_of inside (shape_of_forest l5 store forest) ≡ any_solid l5 inside store forest)
    unfolding shape_of_forest
    shape_of_forest_lem forest =
        let fit = forest-AllFit forest in
        (filled-aggregate laws _ l5.min ∙ fit.filled_eq, inside-aggregate_min laws _ ∙ fit.any_eq)
