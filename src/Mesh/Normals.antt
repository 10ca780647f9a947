-- ===== src/Mesh/Normals.antt =====
-- The second half of `MeshFactory::fromTree`: the vertices, indices and normals of a rendered shape.
pub mod Positions
pub mod Sums
use structur3d.Prelude.{
  ℕ, zero, suc, ◌+◌, Option, none, some, List, [], ◌∷◌, map, Outcome, ok, abort, ◌>>=◌,
}
use structur3d.Platform.{Floats}
use structur3d.Graph.{Store, Forest}
use structur3d.Mesh.{Shapes, shape_of_forest}

-- `vector_float4`, the first three components as one.
pub record Vec4 (Vec Float : Type 0) : Type 0 where
  pub xyz : Vec
  pub w : Float

-- The operations of simd on `vector_float3` and `vector_float4`.
pub record Vectors : Type 1 where
  pub Vec : Type 0
  pub Float : Type 0
  pub zero_f : Float
  pub one_f : Float
  pub origin : Vec
  pub sub : Vec → Vec → Vec
  pub cross : Vec → Vec → Vec
  pub add : Vec4 Vec Float → Vec4 Vec Float → Vec4 Vec Float
  pub normalize : Vec4 Vec Float → Vec4 Vec Float

-- What `libfive::Mesh::render` gives: points, and triangles as three positions in their list.
pub record Rendered (v : Vectors) : Type 0 where
  pub verts : List v.Vec
  pub branes : List (ℕ × ℕ × ℕ)

pub record Vertex (v : Vectors) : Type 0 where
  pub position : Vec4 v.Vec v.Float
  pub normal : Vec4 v.Vec v.Float

pub record Mesh (v : Vectors) : Type 0 where
  pub vertices : List (Vertex v)
  pub indices : List ℕ

unfoldable pub push_indices : List (ℕ × ℕ × ℕ) → List ℕ
push_indices [] = []
push_indices ((a, b, c) ∷ branes) = a ∷ b ∷ c ∷ push_indices branes

-- The element at an index, where there is one.
abbrev pub get_elem? : {A : Type 0} → List A → ℕ → Option A
get_elem? [] n = none
get_elem? (x ∷ xs) zero = some x
get_elem? (x ∷ xs) (suc n) = get_elem? xs n

module _ (v : Vectors) where
  -- `{ v.x(), v.y(), v.z(), 1.0f }`
  abbrev pub place : v.Vec → Vec4 v.Vec v.Float
  place p = record { xyz = p; w = v.one_f }

  -- `{ 0, 0, 0, 0 }`
  abbrev pub zero4 : Vec4 v.Vec v.Float
  zero4 = record { xyz = v.origin; w = v.zero_f }

  abbrev pub make_vertex : v.Vec → Vertex v
  make_vertex p = record { position = place p; normal = zero4 }

  -- `->normal += cross4` on the vertex at the index
  unfoldable pub add_normal : Vec4 v.Vec v.Float → ℕ → List (Vertex v) → List (Vertex v)
  add_normal c n [] = []
  add_normal c zero (x ∷ xs) = record x { normal = v.add x.normal c } ∷ xs
  add_normal c (suc n) (x ∷ xs) = x ∷ add_normal c n xs

  -- `cross4` of the positions of the three vertices
  abbrev pub cross4 : v.Vec → v.Vec → v.Vec → Vec4 v.Vec v.Float
  cross4 p0 p1 p2 = record { xyz = v.cross (v.sub p1 p0) (v.sub p2 p0); w = v.zero_f }

  abbrev pub cross_of : Vertex v → Vertex v → Vertex v → Vec4 v.Vec v.Float
  cross_of v0 v1 v2 = cross4 v0.position.xyz v1.position.xyz v2.position.xyz

  -- The body of the loop over the triangles: an index that is out of range is undefined.
  unfoldable pub add_triangle : ℕ → ℕ → ℕ → List (Vertex v) → Outcome (List (Vertex v))
  unfolding add_normal
  add_triangle i0 i1 i2 vertices = elim (get_elem? vertices i0) [
    | none ↦ abort
    | some v0 ↦ elim (get_elem? vertices i1) [
      | none ↦ abort
      | some v1 ↦ elim (get_elem? vertices i2) [
        | none ↦ abort
        | some v2 ↦
            let c = cross_of v0 v1 v2 in
            ok (add_normal c i2 (add_normal c i1 (add_normal c i0 vertices)))
      ]
    ]
  ]

  unfoldable pub add_triangles : List ℕ → List (Vertex v) → Outcome (List (Vertex v))
  unfolding add_triangle
  add_triangles [] vertices = ok vertices
  add_triangles (i0 ∷ []) vertices = abort
  add_triangles (i0 ∷ i1 ∷ []) vertices = abort
  add_triangles (i0 ∷ i1 ∷ i2 ∷ rest) vertices =
      add_triangle i0 i1 i2 vertices >>= add_triangles rest

  abbrev pub normalized : Vertex v → Vertex v
  normalized x = record x { normal = v.normalize x.normal }

  unfoldable pub mesh_of : Rendered v → Outcome (Mesh v)
  unfolding push_indices add_triangles
  mesh_of rendered =
      let indices = push_indices rendered.branes in
      add_triangles indices (map make_vertex rendered.verts) >>= λ vertices.
      ok (record { vertices = map normalized vertices; indices = indices })

  -- `fromTree`: a null pointer where there is nothing to show.
  unfoldable pub from_tree :
      {f : Floats} (l5 : Shapes f)
      → (l5.Shape → Rendered v)
      → Store f
      → Forest
      → Outcome (Option (Mesh v))
  unfolding shape_of_forest mesh_of
  from_tree l5 render store forest = elim (shape_of_forest l5 store forest) [
    | none ↦ ok none
    | some shape ↦ mesh_of (render shape) >>= λ mesh. ok (some mesh)
  ]
