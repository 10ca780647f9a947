-- ===== src/Vm/Reopening.antt =====
-- Which stores can be opened, and an edge from a node of the store to itself.
use structur3d.Prelude.{
  ℕ, ◌≡◌, ◌<◌, refl, sym, ◌∙◌, ap, subst, inl, inr, true, Option, none, some, List, [], ◌∷◌, In,
  In-append, ok, abort, >>=-eq-ok, ok-injective, ◌==◌, ==_iff, Bool-cases, Outcome-cases, arith,
}
use structur3d.Platform.{Floats, Platform, IsSql, IsCodec}
use structur3d.Data.{Uid, Node, id}
use structur3d.Graph.{Ptr, Store, make_edge, id_at}
use structur3d.World.{World}
use structur3d.Db.State.{Db}
use structur3d.Db.Reached.{Reached, Reached-IsClean}
use structur3d.Db.Queries.{IdWithType}
use structur3d.Db.Interface.{Database, database_impl}
use structur3d.Vm.Open.{
  Edges, load_node, push_node, load_nodes, edges_to, edges_from, load_edges, open_document,
}
use structur3d.Vm.Graphs.{HasOpened}
use structur3d.Vm.Opening.{open_document-opens, push_node-db}

module _ {p : Platform} (laws : IsSql p.sql) (codec : IsCodec p.uuids) where
  -- Where printed uuids are read back: over every store that calls lead to from the empty one, of any kinds
  -- and at any times, as long as no call makes or removes an edge from an entity to itself, `open` comes
  -- back for every document. The document is then open, its graph is well-formed, and the store has
  -- every edge of it.
  pub reached-opens :
      (make_id : ℕ → Uid) (document : Uid) (w : World p.floats (Db p))
      → Reached p w.db
      → (u : World p.floats (Db p)) × (open_document (database_impl p) make_id document w ≡ ok u)
        × HasOpened (database_impl p) document u
  reached-opens make_id document w reached =
      let clean = Reached-IsClean laws codec w.db reached in
      open_document-opens p laws codec make_id document w
        record { not_negative = λ e r n. clean.radii r n.member; apart = clean.edges }

module _ {f : Floats} {S : Type 0} (d : Database f S) where
  -- A node with the id is among the nodes that were loaded, at a taken address.
  abbrev HasLoaded : Uid → World f S → List Ptr → Type 0
  HasLoaded e w nodes = (q : Ptr) × In q nodes × (id_at w.store q ≡ e) × (q < w.next)

  push_node-HasLoaded :
      (e : Uid) (o : Option (Node f)) (nodes : List Ptr) (w : World f S)
      → HasLoaded e w nodes
      → HasLoaded e (push_node d o nodes w).0 (push_node d o nodes w).1
  unfolding push_node
  push_node-HasLoaded e none nodes w has = has
  push_node-HasLoaded e (some nd) nodes w (q, i, same, low) =
      (q, (In-append q nodes (w.next ∷ [])).1 (inl i), ground arith, omega arith)

  push_node-new :
      (nd : Node f) (nodes : List Ptr) (w : World f S)
      → HasLoaded (id nd) (push_node d (some nd) nodes w).0 (push_node d (some nd) nodes w).1
  unfolding push_node
  push_node-new nd nodes w =
      (w.next, (In-append w.next nodes (w.next ∷ [])).1 (inr (inl refl)), ground arith, omega arith)

  load_nodes-keeps :
      (e : Uid) (entities : List IdWithType) (nodes : List Ptr) (w : World f S)
      (out : World f S × List Ptr)
      → HasLoaded e w nodes
      → load_nodes d entities nodes w ≡ ok out
      → HasLoaded e out.0 out.1
  unfolding load_nodes
  load_nodes-keeps e [] nodes w out has h =
      subst (λ (o : World f S × List Ptr). HasLoaded e o.0 o.1) (ok-injective h) has
  load_nodes-keeps e (x ∷ xs) nodes w out has h =
      let (o, _, rest) = >>=-eq-ok (load_node d w.db x) _ h in
      load_nodes-keeps e xs _ _ out (push_node-HasLoaded e o nodes w has) rest

  load_nodes-finds :
      (x : IdWithType) (nd : Node f) (entities : List IdWithType) (nodes : List Ptr) (w : World f S)
      (out : World f S × List Ptr)
      → In x entities
      → load_node d w.db x ≡ ok (some nd)
      → load_nodes d entities nodes w ≡ ok out
      → HasLoaded (id nd) out.0 out.1
  unfolding load_nodes
  load_nodes-finds x nd [] nodes w out i found h = absurd i
  load_nodes-finds x nd (y ∷ xs) nodes w out i found h =
      let (o, loaded, rest) = >>=-eq-ok (load_node d w.db y) _ h in
      elim i [
        | inl same ↦
            let here : o ≡ some nd =
              ok-injective (sym loaded ∙ (ap (load_node d w.db) (sym same) ∙ found)) in
            load_nodes-keeps (id nd) xs _ _ out
              (subst (λ o. HasLoaded (id nd) (push_node d o nodes w).0 (push_node d o nodes w).1)
                (sym here) (push_node-new nd nodes w))
              rest
        | inr j ↦
            load_nodes-finds x nd xs _ _ out j
              (ap (λ s. load_node d s x) (push_node-db d o nodes w) ∙ found) rest
      ]

  load_nodes-db :
      (entities : List IdWithType) (nodes : List Ptr) (w : World f S) (out : World f S × List Ptr)
      → load_nodes d entities nodes w ≡ ok out
      → out.0.db ≡ w.db
  unfolding load_nodes
  load_nodes-db [] nodes w out h = ap (λ (o : World f S × List Ptr). o.0.db) (sym (ok-injective h))
  load_nodes-db (x ∷ xs) nodes w out h =
      let (o, _, rest) = >>=-eq-ok (load_node d w.db x) _ h in
      load_nodes-db xs _ _ out rest ∙ push_node-db d o nodes w

  module _ (store : Store f) (make_id : ℕ → Uid) where
    -- A node among the others has the id: the edge to it is an edge to itself.
    edges_to-aborts :
        (node q : Ptr) (rest : List Ptr) (edges : Edges)
        → In q rest
        → id_at store q ≡ id_at store node
        → edges_to d store make_id node (id_at store node) rest edges ≡ abort
    unfolding edges_to make_edge
    edges_to-aborts node q [] edges i same = absurd i
    edges_to-aborts node q (r ∷ rest) (n, edges) i same =
        elim (Bool-cases (id_at store r == id_at store node)) [
          | inl hit ↦
              let loop : (id_at store node == id_at store r) ≡ true =
                (==_iff _ _).1 (sym ((==_iff _ _).0 hit)) in
              rw (hit, loop) refl
          | inr miss ↦ elim i [
            | inl here ↦
                let hit = (==_iff _ _).1 (ap (id_at store) (sym here) ∙ same) in absurd (cc)
            | inr there ↦ rw (miss) (edges_to-aborts node q rest (n, edges) there same)
          ]
        ]

    edges_from-aborts :
        (node : Ptr) (nodes : List Ptr) (tos : List Uid) (edges : Edges)
        → In node nodes
        → In (id_at store node) tos
        → edges_from d store make_id node nodes tos edges ≡ abort
    unfolding edges_from
    edges_from-aborts node nodes [] edges i j = absurd j
    edges_from-aborts node nodes (to ∷ tos) edges i j =
        elim (Outcome-cases (edges_to d store make_id node to nodes edges)) [
          | inl aborts ↦ rw aborts refl
          | inr (mid, first) ↦ elim j [
            | inl here ↦
                let q =
                  ap (λ t. edges_to d store make_id node t nodes edges) (sym here)
                  ∙ edges_to-aborts node node nodes edges i refl in
                absurd (cc)
            | inr there ↦ rw first (edges_from-aborts node nodes tos mid i there)
          ]
        ]

    load_edges-aborts :
        (db : S) (node : Ptr) (nodes rest : List Ptr) (edges : Edges)
        → In node nodes
        → In node rest
        → In (id_at store node) (d.edges db (id_at store node))
        → load_edges d store make_id db nodes rest edges ≡ abort
    unfolding load_edges
    load_edges-aborts db node nodes [] edges i j loop = absurd j
    load_edges-aborts db node nodes (n ∷ rest) edges i j loop =
        elim (Outcome-cases
          (edges_from d store make_id n nodes (d.edges db (id_at store n)) edges)) [
            | inl aborts ↦ rw aborts refl
            | inr (mid, first) ↦ elim j [
              | inl here ↦
                  let q =
                    ap (λ n. edges_from d store make_id n nodes (d.edges db (id_at store n)) edges)
                      (sym here)
                    ∙ edges_from-aborts node nodes (d.edges db (id_at store node)) edges i loop in
                  absurd (cc)
              | inr there ↦ rw first (load_edges-aborts db node nodes rest mid i there loop)
            ]
          ]

  -- The store has a node for an entity of the document, and an edge from the node to itself: `open`
  -- ends the program.
  pub open_document-aborts :
      (make_id : ℕ → Uid) (document : Uid) (w : World f S) (x : IdWithType) (nd : Node f)
      → In x (d.entities w.db document)
      → load_node d w.db x ≡ ok (some nd)
      → In (id nd) (d.edges w.db (id nd))
      → open_document d make_id document w ≡ abort
  unfolding open_document
  open_document-aborts make_id document w x nd i found loop =
      elim (Outcome-cases (load_nodes d (d.entities w.db document) [] w)) [
        | inl aborts ↦ rw aborts refl
        | inr ((v, nodes), first) ↦
            let (q, at, same, _) =
              load_nodes-finds x nd (d.entities w.db document) [] w (v, nodes) i found first in
            let db_eq : v.db ≡ w.db =
              load_nodes-db (d.entities w.db document) [] w (v, nodes) first in
            let second =
              load_edges-aborts v.store make_id v.db q nodes nodes (0, []) at at
                (subst (λ e. In e (d.edges v.db e)) (sym same)
                  (subst (λ db. In (id nd) (d.edges db (id nd))) (sym db_eq) loop)) in
            rw (first, second) refl
      ]
