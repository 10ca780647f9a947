-- ===== src/Mesh.antt =====
-- src/mesh/MeshFactory.cpp: the shape that a forest stands for, which libfive renders, and the mesh
-- with the normals that the code computes. libfive and the vector operations are parameters.
pub mod Inside
pub mod Solids
pub mod Normals
use structur3d.Prelude.{
  ℕ, Option, none, some, List, [], ◌∷◌, map, Outcome, ok, abort, ◌>>=◌, zero, suc,
}
use structur3d.Platform.{Floats}
use structur3d.Data.{Node, Sphere, SetOp, setop, SetOperationType, union, intersection}
use structur3d.Graph.{Store, Tree, Forest, tree, nil, cons}

-- `libfive::Tree`
pub record Shapes (f : Floats) : Type 1 where
  pub Shape : Type 0
  pub x : Shape
  pub y : Shape
  pub z : Shape
  pub constant : f.Float → Shape
  pub plus : Shape → Shape → Shape
  pub minus : Shape → Shape → Shape
  pub square : Shape → Shape
  pub min : Shape → Shape → Shape
  pub max : Shape → Shape → Shape

module _ {f : Floats} (l5 : Shapes f) where
  -- The loop of `aggregateOf`.
  unfoldable pub combine_all :
      (l5.Shape → l5.Shape → l5.Shape) → l5.Shape → List l5.Shape → l5.Shape
  combine_all combine shape [] = shape
  combine_all combine shape (s ∷ shapes) = combine_all combine (combine shape s) shapes

  unfoldable pub aggregate_of : List l5.Shape → (l5.Shape → l5.Shape → l5.Shape) → Option l5.Shape
  unfolding combine_all
  aggregate_of [] combine = none
  aggregate_of (s ∷ []) combine = some s
  aggregate_of (s ∷ t ∷ shapes) combine = some (combine_all combine s (t ∷ shapes))

  -- The radius is subtracted as it is, and not its square.
  abbrev pub sphere_shape : Sphere f → l5.Shape
  sphere_shape s =
      l5.minus
        (l5.plus
          (l5.plus (l5.square (l5.minus l5.x (l5.constant s.coord.x)))
            (l5.square (l5.minus l5.y (l5.constant s.coord.y))))
          (l5.square (l5.minus l5.z (l5.constant s.coord.z))))
        (l5.constant s.radius.magnitude)

  unfoldable pub shape_of_operation : SetOperationType → List l5.Shape → Option l5.Shape
  unfolding aggregate_of
  shape_of_operation union shapes = aggregate_of shapes l5.min
  shape_of_operation intersection shapes = aggregate_of shapes l5.max

  unfoldable pub shape_of_node : Node f → List l5.Shape → Option l5.Shape
  unfolding shape_of_operation
  shape_of_node (Node.sphere s) shapes = some (sphere_shape s)
  shape_of_node (setop o) shapes = shape_of_operation o.type shapes

  abbrev pub push : Option l5.Shape → List l5.Shape → List l5.Shape
  push none shapes = shapes
  push (some s) shapes = s ∷ shapes

  module _ (store : Store f) where
    unfoldable mutual
      unfolding shape_of_node

      pub l5_tree_from_tree : Tree → Option l5.Shape
      l5_tree_from_tree (tree p ts) = shape_of_node (store p) (l5_trees ts)

      -- The shapes of those trees that have one.
      pub l5_trees : Forest → List l5.Shape
      l5_trees nil = []
      l5_trees (cons t ts) = push (l5_tree_from_tree t) (l5_trees ts)

    -- The shape that `fromTree` renders.
    unfoldable pub shape_of_forest : Forest → Option l5.Shape
    unfolding l5_trees aggregate_of
    shape_of_forest forest = aggregate_of (l5_trees forest) l5.min
