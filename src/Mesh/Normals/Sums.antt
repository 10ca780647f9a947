-- ===== src/Mesh/Normals/Sums.antt =====
-- What each normal of a mesh comes to.
use structur3d.Prelude.{
  ℕ, zero, suc, ◌≡◌, refl, sym, ◌∙◌, ap, inl, inr, false, none, some, List, [], ◌∷◌, map, ok,
  >>=-eq-ok, ok-injective, ◌==◌, if◌then◌else◌, Option-cases, subst, arith,
}
use mathlib.Core.Option.{some-injective}
use structur3d.Mesh.Normals.{
  Vectors, Vec4, Rendered, place, zero4, cross4, Vertex, Mesh, push_indices, get_elem?, make_vertex,
  add_normal, cross_of, add_triangle, add_triangles, normalized, mesh_of,
}
use structur3d.Mesh.Normals.Positions.{positions, positions-add_normal, positions-make_vertex}

module _ (v : Vectors) where
  -- The first three components at an index.
  abbrev point : List (Vec4 v.Vec v.Float) → ℕ → v.Vec
  point ps n = elim (get_elem? ps n) [ none ↦ v.origin | some p ↦ p.xyz ]

  -- The normal of a triangle, as long as twice its area.
  abbrev face : List (Vec4 v.Vec v.Float) → ℕ → ℕ → ℕ → Vec4 v.Vec v.Float
  face ps a b c = cross4 v (point ps a) (point ps b) (point ps c)

  abbrev added : ℕ → ℕ → Vec4 v.Vec v.Float → Vec4 v.Vec v.Float → Vec4 v.Vec v.Float
  added n i k sum = if i == n then v.add sum k else sum

  -- The sum of the normals of the triangles at a vertex, each once for each corner that is the vertex.
  abbrev pub normal_sum :
      List (Vec4 v.Vec v.Float) → ℕ → List (ℕ × ℕ × ℕ) → Vec4 v.Vec v.Float → Vec4 v.Vec v.Float
  normal_sum ps n [] sum = sum
  normal_sum ps n ((a, b, c) ∷ branes) sum =
      let k = face ps a b c in normal_sum ps n branes (added n c k (added n b k (added n a k sum)))

  eq-suc : (i n : ℕ) → suc i == suc n ≡ i == n
  eq-suc i n = ground arith

  get_elem-add_normal :
      (k : Vec4 v.Vec v.Float) (i n : ℕ) (xs : List (Vertex v)) (x : Vertex v)
      → get_elem? xs n ≡ some x
      → get_elem? (add_normal v k i xs) n ≡ some (record x { normal = added n i k x.normal })
  unfolding add_normal
  get_elem-add_normal k i n [] x h = absurd (cc)
  get_elem-add_normal k zero zero (y ∷ xs) x h =
      ap (λ (z : Vertex v). some (record z { normal = v.add z.normal k })) (some-injective y x h)
  get_elem-add_normal k zero (suc n) (y ∷ xs) x h =
      let other : zero == suc n ≡ false = ground arith in rw other h
  get_elem-add_normal k (suc i) zero (y ∷ xs) x h =
      let other : suc i == zero ≡ false = ground arith in rw other h
  get_elem-add_normal k (suc i) (suc n) (y ∷ xs) x h =
      rw (eq-suc i n) (get_elem-add_normal k i n xs x h)

  get_elem-map :
      {A B : Type 0} (g : A → B) (xs : List A) (n : ℕ) (x : A)
      → get_elem? xs n ≡ some x
      → get_elem? (map g xs) n ≡ some (g x)
  get_elem-map g [] n x h = absurd (cc)
  get_elem-map g (y ∷ xs) zero x h = ap (λ z. some (g z)) (some-injective y x h)
  get_elem-map g (y ∷ xs) (suc n) x h = get_elem-map g xs n x h

  point-positions :
      (vertices : List (Vertex v)) (ps : List (Vec4 v.Vec v.Float)) (n : ℕ) (x : Vertex v)
      → positions v vertices ≡ ps
      → get_elem? vertices n ≡ some x
      → point ps n ≡ x.position.xyz
  point-positions vertices ps n x same h =
      let there = get_elem-map (λ (y : Vertex v). y.position) vertices n x h in
      rw (rw same at there, point) refl

  face_of :
      {p0 p1 p2 q0 q1 q2 : v.Vec}
      → p0 ≡ q0
      → p1 ≡ q1
      → p2 ≡ q2
      → cross4 v p0 p1 p2 ≡ cross4 v q0 q1 q2
  face_of e0 e1 e2 = rw (e0, e1, e2) refl

  -- The body of the loop adds the normal of its triangle at the three corners.
  record HasAdded (ps : List (Vec4 v.Vec v.Float)) (a b c : ℕ) (vertices out : List (Vertex v))
      : Type 0 where
    places : positions v out ≡ ps
    sums :
        (n : ℕ) (x : Vertex v)
        → get_elem? vertices n ≡ some x
        → get_elem? out n
          ≡ some (record x {
            normal = let k = face ps a b c in added n c k (added n b k (added n a k x.normal));
          })

  add_triangle-HasAdded :
      (ps : List (Vec4 v.Vec v.Float)) (a b c : ℕ) (vertices out : List (Vertex v))
      → positions v vertices ≡ ps
      → add_triangle v a b c vertices ≡ ok out
      → HasAdded ps a b c vertices out
  unfolding add_triangle
  add_triangle-HasAdded ps a b c vertices out same h = elim (Option-cases (get_elem? vertices a)) [
    | inl e0 ↦ let bad = rw (e0, add_triangle) at h in absurd (cc)
    | inr (v0, e0) ↦ elim (Option-cases (get_elem? vertices b)) [
      | inl e1 ↦ let bad = rw (e0, e1, add_triangle) at h in absurd (cc)
      | inr (v1, e1) ↦ elim (Option-cases (get_elem? vertices c)) [
        | inl e2 ↦ let bad = rw (e0, e1, e2, add_triangle) at h in absurd (cc)
        | inr (v2, e2) ↦
            let k = cross_of v v0 v1 v2 in
            let one = add_normal v k a vertices in
            let two = add_normal v k b one in
            let done : ok (add_normal v k c two) ≡ ok out = rw (e0, e1, e2, add_triangle) at h in
            let flat : face ps a b c ≡ k =
              face_of (point-positions vertices ps a v0 same e0)
                (point-positions vertices ps b v1 same e1)
                (point-positions vertices ps c v2 same e2) in
            subst (HasAdded ps a b c vertices) (ok-injective done) record {
              places =
                  positions-add_normal v k c two
                  ∙ (positions-add_normal v k b one ∙ (positions-add_normal v k a vertices ∙ same));
              sums = λ n x i. rw flat (
                  get_elem-add_normal k c n two _
                    (get_elem-add_normal k b n one _ (get_elem-add_normal k a n vertices x i)));
            }
      ]
    ]
  ]

  add_triangles-sums :
      (ps : List (Vec4 v.Vec v.Float)) (branes : List (ℕ × ℕ × ℕ)) (vertices out : List (Vertex v))
      (n : ℕ) (x : Vertex v)
      → positions v vertices ≡ ps
      → add_triangles v (push_indices branes) vertices ≡ ok out
      → get_elem? vertices n ≡ some x
      → get_elem? out n ≡ some (record x { normal = normal_sum ps n branes x.normal })
  unfolding add_triangles push_indices
  add_triangles-sums ps [] vertices out n x same h i =
      ap (λ xs. get_elem? xs n) (sym (ok-injective h)) ∙ i
  add_triangles-sums ps ((a, b, c) ∷ branes) vertices out n x same h i =
      let (mid, first, rest) =
        >>=-eq-ok (add_triangle v a b c vertices) (add_triangles v (push_indices branes)) h in
      let step = add_triangle-HasAdded ps a b c vertices mid same first in
      add_triangles-sums ps branes mid out n _ step.places rest (step.sums n x i)

  -- Where the computation of the mesh comes back, the vertex at each index of the rendered points has
  -- that point as its position, with 1 as the fourth component, and as its normal the normalized sum of
  -- the normals of the triangles at it, in their order, from zeros on: the cross products of two edges
  -- with 0 as the fourth component, once for each corner that is the vertex.
  pub mesh_of-normals :
      (rendered : Rendered v) (mesh : Mesh v) (n : ℕ) (p : v.Vec)
      → mesh_of v rendered ≡ ok mesh
      → get_elem? rendered.verts n ≡ some p
      → get_elem? mesh.vertices n
        ≡ some (record {
          position = place v p;
          normal =
              v.normalize (normal_sum (map (place v) rendered.verts) n rendered.branes (zero4 v));
        })
  unfolding mesh_of
  mesh_of-normals rendered mesh n p h i =
      let (out, summed, done) =
        >>=-eq-ok
          (add_triangles v (push_indices rendered.branes) (map (make_vertex v) rendered.verts)) _
          h in
      let there =
        add_triangles-sums (map (place v) rendered.verts) rendered.branes
          (map (make_vertex v) rendered.verts) out n (make_vertex v p)
          (positions-make_vertex v rendered.verts) summed
          (get_elem-map (make_vertex v) rendered.verts n p i) in
      ap (λ (m : Mesh v). get_elem? m.vertices n) (sym (ok-injective done))
      ∙ get_elem-map (normalized v) out n _ there
