-- ===== src/Graph/Connections.antt =====
-- `Graph::connect`, on every branch.
use structur3d.Graph.Changes.{IsWellFormed}
use structur3d.Prelude.{
  sym, ◌∙◌, In-append, >>=-eq-ok, ok-injective, ◌≡◌, ◌≢◌, ◌⊎◌, inl, inr, refl, subst, Option, none,
  some, List, [], ◌∷◌, ◌++◌, ok, abort, ◌==◌, if◌then◌else◌, In, arith, Bool-cases, ℕ_discrete,
}
use structur3d.Platform.{Floats}
use structur3d.Data.{Uid}
use structur3d.Graph.{Ptr, Store, Edge, Graph, id_at, find_ends, make_edge, connect}

module _ {f : Floats} (store : Store f) where
  -- The graph has a node with the id.
  abbrev pub HasId : List Ptr → Uid → Type 0
  HasId nodes uid = (p : Ptr) × In p nodes × (id_at store p ≡ uid)

  -- What the loop of `connect` finds for one id.
  abbrev IsEnd : List Ptr → Uid → Option Ptr → Option Ptr → Type 0
  IsEnd nodes uid before none = (before ≡ none) × ¬ HasId nodes uid
  IsEnd nodes uid before (some p) = (before ≡ some p) ⊎ (In p nodes × (id_at store p ≡ uid))

  IsEnd-cons :
      (node : Ptr) (nodes : List Ptr) (uid : Uid) (before found : Option Ptr)
      → IsEnd nodes uid (if id_at store node == uid then some node else before) found
      → IsEnd (node ∷ nodes) uid before found
  IsEnd-cons node nodes uid before none h = elim (Bool-cases (id_at store node == uid)) [
    | inl hit ↦ let bad = rw hit at h in absurd (cc)
    | inr miss ↦
        let rest = rw miss at h in
        (rest.0, λ (p, i, e). elim i [ inl q ↦ ground arith | inr j ↦ rest.1 (p, j, e) ])
  ]
  IsEnd-cons node nodes uid before (some p) h = ground arith

  find_ends-IsEnd :
      (from to : Uid) (nodes : List Ptr) (start end : Option Ptr)
      → from ≢ to
      → IsEnd nodes from start (find_ends store from to nodes start end).0
        × IsEnd nodes to end (find_ends store from to nodes start end).1
  unfolding find_ends
  find_ends-IsEnd from to [] none none h = ((refl, λ (p, i, e). i), (refl, λ (p, i, e). i))
  find_ends-IsEnd from to [] none (some q) h = ((refl, λ (p, i, e). i), inl refl)
  find_ends-IsEnd from to [] (some p) none h = (inl refl, (refl, λ (p, i, e). i))
  find_ends-IsEnd from to [] (some p) (some q) h = (inl refl, inl refl)
  find_ends-IsEnd from to (node ∷ nodes) start end h =
      let hit_from = id_at store node == from in
      let hit_to = id_at store node == to in
      let start' = if hit_from then some node else start in
      let end' = if hit_from then end else if hit_to then some node else end in
      let end'' = if hit_to then some node else end in
      let same : end' ≡ end'' = ground arith in
      let (a, b) = find_ends-IsEnd from to nodes start' end' h in
      (
        IsEnd-cons node nodes from start _ a,
        IsEnd-cons node nodes to end _
            (subst (λ x. IsEnd nodes to x (find_ends store from to nodes start' end').1) same b),
      )

  -- What `connect` adds: an edge with the given uid between two nodes of the graph with the ids.
  pub record IsNewEdge (g : Graph) (fresh from to : Uid) (e : Edge) : Type 0 where
    pub uid_eq : e.uid ≡ fresh
    pub from_eq : id_at store e.from ≡ from
    pub to_eq : id_at store e.to ≡ to
    pub from_in : In e.from g.nodes
    pub to_in : In e.to g.nodes

  make_edge-IsNewEdge :
      (g : Graph) (fresh from to : Uid) (start end : Option Ptr)
      → from ≢ to
      → HasId g.nodes from
      → HasId g.nodes to
      → IsEnd g.nodes from none start
      → IsEnd g.nodes to none end
      → (e : Edge) × (make_edge store fresh start end ≡ ok e) × IsNewEdge g fresh from to e
  unfolding make_edge
  make_edge-IsNewEdge g fresh from to none end ne a b s t = absurd (s.1 a)
  make_edge-IsNewEdge g fresh from to (some p) none ne a b s t = absurd (t.1 b)
  make_edge-IsNewEdge g fresh from to (some p) (some q) ne a b s t = (
    record { uid = fresh; from = p; to = q },
    ground arith,
    record {
      uid_eq = refl;
      from_eq = ground arith;
      to_eq = ground arith;
      from_in = ground arith;
      to_in = ground arith;
    },
  )

  -- Where both ids have a node and differ, `connect` appends one edge between such nodes, and changes
  -- nothing else.
  pub connect_lem :
      (g : Graph) (fresh from to : Uid)
      → from ≢ to
      → HasId g.nodes from
      → HasId g.nodes to
      → (e : Edge) × (connect store g fresh from to ≡ ok (record g { edges = g.edges ++ e ∷ [] }))
        × IsNewEdge g fresh from to e
  unfolding connect
  connect_lem g fresh from to ne a b =
      let (s, t) = find_ends-IsEnd from to g.nodes none none ne in
      let (e, made, new) = make_edge-IsNewEdge g fresh from to _ _ ne a b s t in (e, rw made, new)

  make_edge-aborts :
      (g : Graph) (fresh from to : Uid) (start end : Option Ptr)
      → (¬ HasId g.nodes from) ⊎ (¬ HasId g.nodes to)
      → IsEnd g.nodes from none start
      → IsEnd g.nodes to none end
      → make_edge store fresh start end ≡ abort
  unfolding make_edge
  make_edge-aborts g fresh from to none end h s t = refl
  make_edge-aborts g fresh from to (some p) none h s t = refl
  make_edge-aborts g fresh from to (some p) (some q) h s t = absurd (elim h [
    | inl no_from ↦ no_from (p, ground arith, ground arith)
    | inr no_to ↦ no_to (q, ground arith, ground arith)
  ])

  find_ends-same :
      (uid : Uid) (nodes : List Ptr) (start : Option Ptr)
      → (find_ends store uid uid nodes start none).1 ≡ none
  unfolding find_ends
  find_ends-same uid [] start = refl
  find_ends-same uid (node ∷ nodes) start = elim (Bool-cases (id_at store node == uid)) [
    | inl hit ↦ rw (hit, find_ends) (find_ends-same uid nodes (some node))
    | inr miss ↦ rw (miss, find_ends) (find_ends-same uid nodes start)
  ]

  make_edge-null : (fresh : Uid) (start : Option Ptr) → make_edge store fresh start none ≡ abort
  unfolding make_edge
  make_edge-null fresh none = refl
  make_edge-null fresh (some p) = refl

  -- Where an id has no node, or both ids are the same, the program ends.
  pub connect-aborts :
      (g : Graph) (fresh from to : Uid)
      → (from ≡ to) ⊎ (¬ HasId g.nodes from) ⊎ (¬ HasId g.nodes to)
      → connect store g fresh from to ≡ abort
  unfolding connect
  connect-aborts g fresh from to h = elim (ℕ_discrete from to) [
    | yes same ↦ rw (
      same,
      find_ends-same to g.nodes none,
      make_edge-null fresh (find_ends store to to g.nodes none none).0,
    )
    | no ne ↦
        let (s, t) = find_ends-IsEnd from to g.nodes none none ne in
        let missing : (¬ HasId g.nodes from) ⊎ (¬ HasId g.nodes to) = ground arith in
        rw (make_edge-aborts g fresh from to _ _ missing s t)
  ]

  made-ends :
      (g : Graph) (fresh from to : Uid) (start end : Option Ptr) (e : Edge)
      → IsEnd g.nodes from none start
      → IsEnd g.nodes to none end
      → make_edge store fresh start end ≡ ok e
      → In e.from g.nodes × In e.to g.nodes × (id_at store e.from ≢ id_at store e.to)
  unfolding make_edge
  made-ends g fresh from to none end e s t h = absurd (cc)
  made-ends g fresh from to (some p) none e s t h = absurd (cc)
  made-ends g fresh from to (some p) (some q) e s t h = ground arith

  -- Where `connect` comes back, it keeps a graph well-formed.
  pub connect-IsWellFormed :
      (g g' : Graph) (fresh from to : Uid)
      → IsWellFormed store g
      → connect store g fresh from to ≡ ok g'
      → IsWellFormed store g'
  unfolding connect
  connect-IsWellFormed g g' fresh from to w h = elim (ℕ_discrete from to) [
    | yes same ↦
        let bad : abort ≡ ok g' = sym (connect-aborts g fresh from to (inl same)) ∙ h in absurd (cc)
    | no ne ↦
        let (s, t) = find_ends-IsEnd from to g.nodes none none ne in
        let (e, made, done) =
          >>=-eq-ok (make_edge store fresh _ _) (λ e. ok (record g { edges = g.edges ++ e ∷ [] }))
            h in
        let (a, b, differ) = made-ends g fresh from to _ _ e s t made in
        subst (IsWellFormed store) (ok-injective done) record {
          from_in = λ x i. ground (arith, w.from_in x, In-append x g.edges (e ∷ []));
          to_in = λ x i. ground (arith, w.to_in x, In-append x g.edges (e ∷ []));
          no_loop = λ x i. ground (arith, w.no_loop x, In-append x g.edges (e ∷ []));
        }
  ]
