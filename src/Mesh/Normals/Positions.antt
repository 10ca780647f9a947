-- ===== src/Mesh/Normals/Positions.antt =====
-- The computation of the normals, on triangles whose indices are in range.
use structur3d.Prelude.{
  ℕ, zero, suc, ◌<◌, ◌≡◌, refl, subst, sym, ◌∙◌, ap, List, [], ◌∷◌, map, length, All, some, arith,
  ok,
}
use structur3d.Mesh.Normals.{
  Vectors, Vec4, Rendered, place, Vertex, Mesh, push_indices, get_elem?, make_vertex, add_normal,
  cross_of, add_triangle, add_triangles, normalized, mesh_of,
}

-- All three indices are positions of a list with so many elements.
abbrev pub InRange : ℕ → ℕ × ℕ × ℕ → Type 0
InRange n (a, b, c) = (a < n) × (b < n) × (c < n)

get_elem-some :
    {A : Type 0} (xs : List A) (n : ℕ) → n < length xs → (x : A) × (get_elem? xs n ≡ some x)
get_elem-some [] n h = absurd (omega arith)
get_elem-some (x ∷ xs) zero h = (x, refl)
get_elem-some (x ∷ xs) (suc n) h = get_elem-some xs n (omega arith)

length-map : {A B : Type 0} (f : A → B) (xs : List A) → length (map f xs) ≡ length xs
length-map f [] = refl
length-map f (x ∷ xs) = ap suc (length-map f xs)

module _ (v : Vectors) where
  abbrev pub positions : List (Vertex v) → List (Vec4 v.Vec v.Float)
  positions vertices = map (λ (x : Vertex v). x.position) vertices

  pub positions-add_normal :
      (c : Vec4 v.Vec v.Float) (n : ℕ) (vertices : List (Vertex v))
      → positions (add_normal v c n vertices) ≡ positions vertices
  unfolding add_normal
  positions-add_normal c n [] = refl
  positions-add_normal c zero (x ∷ xs) = refl
  positions-add_normal c (suc n) (x ∷ xs) = ap (λ ps. x.position ∷ ps) (positions-add_normal c n xs)

  pub positions-make_vertex :
      (ps : List v.Vec) → positions (map (make_vertex v) ps) ≡ map (place v) ps
  positions-make_vertex [] = refl
  positions-make_vertex (p ∷ ps) = ap (λ qs. place v p ∷ qs) (positions-make_vertex ps)

  positions-normalized :
      (vertices : List (Vertex v)) → positions (map (normalized v) vertices) ≡ positions vertices
  positions-normalized [] = refl
  positions-normalized (x ∷ xs) = ap (λ ps. x.position ∷ ps) (positions-normalized xs)

  length-positions :
      (vertices : List (Vertex v)) (ps : List (Vec4 v.Vec v.Float))
      → positions vertices ≡ ps
      → length vertices ≡ length ps
  length-positions vertices ps h = sym (length-map _ vertices) ∙ ap length h

  add_triangle-positions :
      (a b c : ℕ) (vertices : List (Vertex v)) (ps : List (Vec4 v.Vec v.Float))
      → positions vertices ≡ ps
      → InRange (length ps) (a, b, c)
      → (out : List (Vertex v)) × (add_triangle v a b c vertices ≡ ok out) × (positions out ≡ ps)
  unfolding add_triangle
  add_triangle-positions a b c vertices ps same range =
      let size = length-positions vertices ps same in
      let (v0, e0) = get_elem-some vertices a (omega (arith, size, range.0)) in
      let (v1, e1) = get_elem-some vertices b (omega (arith, size, range.1)) in
      let (v2, e2) = get_elem-some vertices c (omega (arith, size, range.2)) in
      let n = cross_of v v0 v1 v2 in
      (
        add_normal v n c (add_normal v n b (add_normal v n a vertices)),
        rw (e0, e1, e2, add_triangle),
        positions-add_normal n c _
            ∙ positions-add_normal n b _
            ∙ positions-add_normal n a vertices
            ∙ same,
      )

  add_triangles-positions :
      (branes : List (ℕ × ℕ × ℕ)) (vertices : List (Vertex v)) (ps : List (Vec4 v.Vec v.Float))
      → positions vertices ≡ ps
      → All (InRange (length ps)) branes
      → (out : List (Vertex v)) × (add_triangles v (push_indices branes) vertices ≡ ok out)
        × (positions out ≡ ps)
  unfolding add_triangles push_indices
  add_triangles-positions [] vertices ps same range = (vertices, refl, same)
  add_triangles-positions ((a, b, c) ∷ branes) vertices ps same range =
      let (mid, e, kept) = add_triangle-positions a b c vertices ps same range.0 in
      let (out, rest, kept') = add_triangles-positions branes mid ps kept range.1 in
      (out, rw e rest, kept')

  -- Where the indices of all triangles are in range, the computation of the normals reads and writes
  -- no vertex out of range; it gives a mesh with the rendered points as its positions, in their order
  -- and with 1 as their fourth component, and the indices of the triangles in theirs.
  pub mesh_of_lem :
      (rendered : Rendered v)
      → All (InRange (length rendered.verts)) rendered.branes
      → (mesh : Mesh v) × (mesh_of v rendered ≡ ok mesh)
        × (map (λ (x : Vertex v). x.position) mesh.vertices ≡ map (place v) rendered.verts)
        × (mesh.indices ≡ push_indices rendered.branes)
  unfolding mesh_of
  mesh_of_lem rendered range =
      let (out, e, kept) =
        add_triangles-positions rendered.branes (map (make_vertex v) rendered.verts)
          (map (place v) rendered.verts) (positions-make_vertex rendered.verts)
          (subst (λ n. All (InRange n) rendered.branes) (sym (length-map (place v) rendered.verts))
            range) in
      (
        record { vertices = map (normalized v) out; indices = push_indices rendered.branes },
        rw e,
        positions-normalized out ∙ kept,
        refl,
      )
