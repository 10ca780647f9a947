-- ===== src/Tests/Meshes.antt =====
-- Shapes as functions of a point, inside where they are zero.
use structur3d.Prelude.{
  [], ◌∷◌, map, ok, ℕ, ◌+◌, ◌-◌, ◌*◌, ◌≡◌, Bool, arith, ltb, ◌==◌, if◌then◌else◌, ◌&&◌, ◌||◌, some,
  refl,
}
use structur3d.Platform.Memory.{whole}
use structur3d.Data.{Node, setop, union, intersection, Uid, SetOperationType}
use structur3d.Graph.{Store, Forest, tree, nil, cons}
use structur3d.Mesh.Normals.{
  Vectors, Vec4, Rendered, place, zero4, Vertex, Mesh, push_indices, mesh_of, get_elem?,
  add_triangles, add_triangle, add_normal,
}
use structur3d.Mesh.Normals.Sums.{normal_sum, mesh_of-normals}
use structur3d.Mesh.Normals.Positions.{mesh_of_lem}
use structur3d.Mesh.{Shapes, shape_of_forest}
use structur3d.Mesh.Inside.{IsInside, is_some, inside_of}
use structur3d.Mesh.Solids.{any_shape, any_solid, shape_of_forest_lem}

abbrev Point : Type 0
Point = ℕ × ℕ × ℕ

abbrev smaller : ℕ → ℕ → ℕ
smaller a b = if ltb a b then a else b

abbrev larger : ℕ → ℕ → ℕ
larger a b = if ltb a b then b else a

abbrev fields : Shapes whole
fields = record {
  Shape = Point → ℕ;
  x = λ q. q.0;
  y = λ q. q.1;
  z = λ q. q.2;
  constant = λ c q. c;
  plus = λ s t q. s q + t q;
  minus = λ s t q. s q - t q;
  square = λ s q. s q * s q;
  min = λ s t q. smaller (s q) (t q);
  max = λ s t q. larger (s q) (t q);
}

abbrev holds : Point → (Point → ℕ) → Bool
holds q s = s q == 0

smaller-zero : (a b : ℕ) → smaller a b == 0 ≡ a == 0 || b == 0
smaller-zero a b = ground arith

larger-zero : (a b : ℕ) → larger a b == 0 ≡ a == 0 && b == 0
larger-zero a b = ground arith

holds-IsInside : (q : Point) → IsInside fields (holds q)
holds-IsInside q = record {
  inside-min = λ s t. smaller-zero (s q) (t q);
  inside-max = λ s t. larger-zero (s q) (t q);
}

abbrev ball : Uid → ℕ → Node whole
ball n at_x = Node.sphere (record {
  uid = n;
  coord = record { x = at_x; y = 0; z = 0 };
  radius = record { magnitude = 4 };
})

abbrev operation : Uid → SetOperationType → Node whole
operation n type = setop (record { uid = n; type = type })

-- At 1 an intersection, at 2 and 3 two spheres, elsewhere an empty union.
abbrev nodes : Store whole
nodes p =
    if p == 1
    then operation 1 intersection
    else if p == 2
    then ball 2 3
    else if p == 3
    then ball 3 6
    else operation p union

abbrev forest : Forest
forest =
    cons (tree 1 (cons (tree 2 nil) (cons (tree 3 nil) (cons (tree 4 nil) nil))))
      (cons (tree 5 nil) nil)

shape_of_forest_lem_example :
    (is_some (shape_of_forest fields nodes forest)
      ≡ any_shape fields (holds (4, 0, 0)) nodes forest)
    × (inside_of (holds (4, 0, 0)) (shape_of_forest fields nodes forest)
        ≡ any_solid fields (holds (4, 0, 0)) nodes forest)
shape_of_forest_lem_example = shape_of_forest_lem (holds-IsInside (4, 0, 0)) nodes forest

-- Vectors with one component instead of three.
abbrev pair : ℕ → ℕ → Vec4 ℕ ℕ
pair p w = record { xyz = p; w = w }

abbrev lines : Vectors
lines = record {
  Vec = ℕ;
  Float = ℕ;
  zero_f = 0;
  one_f = 1;
  origin = 0;
  sub = λ a b. a - b;
  cross = λ a b. a * b;
  add = λ a b. pair (a.xyz + b.xyz) (a.w + b.w);
  normalize = λ a. a;
}

abbrev square_mesh : Rendered lines
square_mesh = record { verts = 1 ∷ 4 ∷ 6 ∷ 9 ∷ []; branes = (0, 1, 2) ∷ (2, 1, 3) ∷ [] }

mesh_of_lem_example :
    (mesh : Mesh lines) × (mesh_of lines square_mesh ≡ ok mesh)
    × (map (λ (x : Vertex lines). x.position) mesh.vertices ≡ map (place lines) square_mesh.verts)
    × (mesh.indices ≡ push_indices square_mesh.branes)
mesh_of_lem_example = mesh_of_lem lines square_mesh (ground arith)

abbrev corner : ℕ → ℕ → Vertex lines
corner p n = record { position = pair p 1; normal = pair n 0 }

abbrev squared : Mesh lines
squared = record {
  vertices = corner 1 15 ∷ corner 4 15 ∷ corner 6 15 ∷ corner 9 0 ∷ [];
  indices = 0 ∷ 1 ∷ 2 ∷ 2 ∷ 1 ∷ 3 ∷ [];
}

squares : mesh_of lines square_mesh ≡ ok squared
unfolding mesh_of push_indices add_triangles add_triangle add_normal
squares = refl

mesh_of-normals_example :
    get_elem? squared.vertices 2
    ≡ some (record {
      position = pair 6 1;
      normal =
          normal_sum lines (map (place lines) square_mesh.verts) 2 square_mesh.branes (zero4 lines);
    })
mesh_of-normals_example = mesh_of-normals lines square_mesh squared 2 6 squares refl
