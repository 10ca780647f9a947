-- ===== src/Vm/Graphs.antt =====
-- The graph of a document that `open` has built.
use structur3d.Prelude.{
  ℕ, suc, ◌≡◌, ◌≢◌, refl, ap, subst, inl, inr, some, List, [], ◌∷◌, ◌++◌, ok, ◌==◌, In, In-append,
  arith, Bool-cases, Outcome-cases, ok-injective, >>=-eq-ok, ==_iff,
}
use structur3d.Platform.{Floats}
use structur3d.Data.{Uid}
use structur3d.Graph.{Ptr, Store, Edge, make_edge, id_at}
use structur3d.Graph.Changes.{IsWellFormed}
use structur3d.World.{Document, World}
use structur3d.Db.Interface.{Database}
use structur3d.Vm.Open.{Edges, edges_to, edges_from, load_edges, load_nodes, open_document}

module _ {f : Floats} {S : Type 0} (d : Database f S) (store : Store f) where
  -- An edge between two of the nodes, with different ids, which the store has.
  pub record IsLoaded (db : S) (nodes : List Ptr) (e : Edge) : Type 0 where
    pub from_in : In e.from nodes
    pub to_in : In e.to nodes
    pub no_loop : id_at store e.from ≢ id_at store e.to
    pub stored : In (id_at store e.to) (d.edges db (id_at store e.from))

  make_edge-ends :
      (uid : Uid) (p q : Ptr) (e : Edge)
      → make_edge store uid (some p) (some q) ≡ ok e
      → (e.from ≡ p) × (e.to ≡ q) × (id_at store p ≢ id_at store q)
  unfolding make_edge
  make_edge-ends uid p q e h = ground arith

  module _ (make_id : ℕ → Uid) (db : S) (nodes : List Ptr) where
    abbrev AllLoaded : List Edge → Type 0
    AllLoaded edges = (e : Edge) → In e edges → IsLoaded db nodes e

    new-IsLoaded :
        (p q : Ptr) (to uid : Uid) (e : Edge)
        → In p nodes
        → In q nodes
        → In to (d.edges db (id_at store p))
        → id_at store q ≡ to
        → make_edge store uid (some p) (some q) ≡ ok e
        → IsLoaded db nodes e
    new-IsLoaded p q to uid e i j listed same made =
        let (from_eq, to_eq, differ) = make_edge-ends uid p q e made in
        record {
          from_in = rw from_eq i;
          to_in = rw to_eq j;
          no_loop = rw (from_eq, to_eq) differ;
          stored = rw (from_eq, to_eq, same) listed;
        }

    AllLoaded-snoc :
        (edges : List Edge) (e : Edge)
        → AllLoaded edges
        → IsLoaded db nodes e
        → AllLoaded (edges ++ e ∷ [])
    AllLoaded-snoc edges e l new x i = elim ((In-append x edges (e ∷ [])).0 i) [
      | inl old ↦ l x old
      | inr last ↦ elim last [ inl same ↦ rw same new | inr j ↦ absurd j ]
    ]

    edges_to-AllLoaded :
        (node : Ptr) (to : Uid) (rest : List Ptr) (n : ℕ) (edges : List Edge) (out : Edges)
        → In node nodes
        → In to (d.edges db (id_at store node))
        → ((p : Ptr) → In p rest → In p nodes)
        → edges_to d store make_id node to rest (n, edges) ≡ ok out
        → AllLoaded edges
        → AllLoaded out.1
    unfolding edges_to
    edges_to-AllLoaded node to [] n edges out here listed sub h l =
        rw (← ap (λ (o : Edges). o.1) (ok-injective h)) l
    edges_to-AllLoaded node to (q ∷ rest) n edges out here listed sub h l =
        elim (Bool-cases (id_at store q == to)) [
          | inl hit ↦ elim (Outcome-cases (make_edge store (make_id n) (some node) (some q))) [
            | inl fails ↦ let bad = rw (hit, fails, edges_to) at h in absurd (cc)
            | inr (edge, made) ↦
                edges_to-AllLoaded node to rest (suc n) (edges ++ edge ∷ []) out here listed
                  (λ p i. sub p (inr i)) (rw (hit, made, edges_to) at h)
                  (AllLoaded-snoc edges edge l (
                    new-IsLoaded node q to (make_id n) edge here (sub q (inl refl)) listed
                      ((==_iff _ to).0 hit) made))
          ]
          | inr miss ↦
              edges_to-AllLoaded node to rest n edges out here listed (λ p i. sub p (inr i))
                (rw (miss, edges_to) at h) l
        ]

    edges_from-AllLoaded :
        (node : Ptr) (tos : List Uid) (edges out : Edges)
        → In node nodes
        → ((to : Uid) → In to tos → In to (d.edges db (id_at store node)))
        → edges_from d store make_id node nodes tos edges ≡ ok out
        → AllLoaded edges.1
        → AllLoaded out.1
    unfolding edges_from
    edges_from-AllLoaded node [] edges out here sub h l =
        rw (← ap (λ (o : Edges). o.1) (ok-injective h)) l
    edges_from-AllLoaded node (to ∷ tos) edges out here sub h l =
        let (mid, first, rest) =
          >>=-eq-ok (edges_to d store make_id node to nodes edges)
            (edges_from d store make_id node nodes tos) h in
        edges_from-AllLoaded node tos mid out here (λ t i. sub t (inr i)) rest
          (edges_to-AllLoaded node to nodes edges.0 edges.1 mid here (sub to (inl refl)) (λ p i. i)
            first l)

    load_edges-AllLoaded :
        (rest : List Ptr) (edges out : Edges)
        → ((p : Ptr) → In p rest → In p nodes)
        → load_edges d store make_id db nodes rest edges ≡ ok out
        → AllLoaded edges.1
        → AllLoaded out.1
    unfolding load_edges
    load_edges-AllLoaded [] edges out sub h l = rw (← ap (λ (o : Edges). o.1) (ok-injective h)) l
    load_edges-AllLoaded (node ∷ rest) edges out sub h l =
        let (mid, first, later) =
          >>=-eq-ok (edges_from d store make_id node nodes (d.edges db (id_at store node)) edges)
            (load_edges d store make_id db nodes rest) h in
        load_edges-AllLoaded rest mid out (λ p i. sub p (inr i)) later
          (edges_from-AllLoaded node (d.edges db (id_at store node)) edges mid (sub node (inl refl))
            (λ t i. i) first l)

module _ {f : Floats} {S : Type 0} (d : Database f S) where
  -- The document is open, its graph is well-formed, and the store has every edge of it.
  abbrev pub HasOpened : Uid → World f S → Type 0
  HasOpened document w =
      (doc : Document) × (w.current ≡ some doc)
      × (doc.id ≡ document)
      × IsWellFormed w.store doc.graph
      × ((e : Edge)
          → In e doc.graph.edges
          → In (id_at w.store e.to) (d.edges w.db (id_at w.store e.from)))

  -- Where `open` comes back, the document that was asked for is open, its graph is well-formed, and the
  -- store has every edge of it.
  pub open_document-HasOpened :
      (make_id : ℕ → Uid) (document : Uid) (w w' : World f S)
      → open_document d make_id document w ≡ ok w'
      → HasOpened document w'
  unfolding open_document
  open_document-HasOpened make_id document w w' h =
      let ((v, nodes), loaded, rest) =
        >>=-eq-ok (load_nodes d (d.entities w.db document) [] w) _ h in
      let (found, joined, last) =
        >>=-eq-ok (load_edges d v.store make_id v.db nodes nodes (0, [])) _ rest in
      let good =
        load_edges-AllLoaded d v.store make_id v.db nodes nodes (0, []) found (λ p i. i) joined
          (λ e i. absurd i) in
      subst (HasOpened document) (ok-injective last) (
        record { id = document; graph = record { edges = found.1; nodes = nodes }; jobs = [] },
        refl,
        refl,
        record {
          from_in = λ e i. (good e i).from_in;
          to_in = λ e i. (good e i).to_in;
          no_loop = λ e i. (good e i).no_loop;
        },
        λ e i. (good e i).stored,
      )
