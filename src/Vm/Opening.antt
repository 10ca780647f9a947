-- ===== src/Vm/Opening.antt =====
-- `ViewModelImpl::open` comes back.
use structur3d.Prelude.{
  ℕ, suc, ◌≡◌, ◌≢◌, refl, sym, ◌∙◌, inl, inr, Option, none, some, List, [], ◌∷◌, ◌++◌, In, ok, ◌==◌,
  Bool-cases, ap, ==_iff, subst, true, String, Option-cases,
}
use structur3d.Platform.{Floats, Platform, IsSql, IsCodec, rows}
use structur3d.Data.{Uid, Node, NodeType, set_operation}
use structur3d.Graph.{Ptr, Store, make_edge, id_at}
use structur3d.World.{World}
use structur3d.Db.Rows.{Row}
use structur3d.Db.State.{Db}
use structur3d.Db.Queries.{IdWithType, setop}
use structur3d.Db.Queries.Spheres.{NewestRadius}
use structur3d.Db.Queries.Total.{sphere-total, edges-no_loop}
use structur3d.Db.Interface.{Database, database_impl}
use structur3d.Vm.Open.{
  Edges, load_node, push_node, load_nodes, edges_to, edges_from, load_edges, open_document,
}
use structur3d.Vm.Graphs.{HasOpened, open_document-HasOpened}

module _ {f : Floats} {S : Type 0} (d : Database f S) where
  pub push_node-db :
      (o : Option (Node f)) (nodes : List Ptr) (w : World f S) → (push_node d o nodes w).0.db ≡ w.db
  unfolding push_node
  push_node-db none nodes w = refl
  push_node-db (some nd) nodes w = refl

  load_nodes-total :
      (entities : List IdWithType) (nodes : List Ptr) (w : World f S) (db : S)
      → w.db ≡ db
      → ((x : IdWithType) → In x entities → (o : Option (Node f)) × (load_node d db x ≡ ok o))
      → (v : World f S) × (out : List Ptr) × (load_nodes d entities nodes w ≡ ok (v, out))
        × (v.db ≡ db)
  unfolding load_nodes
  load_nodes-total [] nodes w db same h = (w, nodes, refl, same)
  load_nodes-total (x ∷ xs) nodes w db same h =
      let (o, loaded) = h x (inl refl) in
      let here : load_node d w.db x ≡ ok o = ap (λ s. load_node d s x) same ∙ loaded in
      let (v, out, rest, db_eq) =
        load_nodes-total xs (push_node d o nodes w).1 (push_node d o nodes w).0 db
          (push_node-db o nodes w ∙ same) (λ y i. h y (inr i)) in
      (v, out, rw here rest, db_eq)

  module _ (store : Store f) (make_id : ℕ → Uid) where
    edges_to-total :
        (node : Ptr) (to : Uid) (rest : List Ptr) (edges : Edges)
        → id_at store node ≢ to
        → (out : Edges) × (edges_to d store make_id node to rest edges ≡ ok out)
    unfolding edges_to make_edge
    edges_to-total node to [] (n, edges) apart = ((n, edges), refl)
    edges_to-total node to (q ∷ rest) (n, edges) apart = elim (Bool-cases (id_at store q == to)) [
      | inl hit ↦ elim (Bool-cases (id_at store node == id_at store q)) [
        | inl loop ↦ absurd (apart ((==_iff _ _).0 loop ∙ (==_iff _ _).0 hit))
        | inr made ↦
            let (out, done) =
              edges_to-total node to rest
                (suc n, edges ++ record { uid = make_id n; from = node; to = q } ∷ []) apart in
            (out, rw (hit, made, edges_to) done)
      ]
      | inr miss ↦
          let (out, done) = edges_to-total node to rest (n, edges) apart in
          (out, rw (miss, edges_to) done)
    ]

    edges_from-total :
        (node : Ptr) (nodes : List Ptr) (tos : List Uid) (edges : Edges)
        → ((to : Uid) → In to tos → id_at store node ≢ to)
        → (out : Edges) × (edges_from d store make_id node nodes tos edges ≡ ok out)
    unfolding edges_from
    edges_from-total node nodes [] edges apart = (edges, refl)
    edges_from-total node nodes (to ∷ tos) edges apart =
        let (mid, first) = edges_to-total node to nodes edges (apart to (inl refl)) in
        let (out, rest) = edges_from-total node nodes tos mid (λ t i. apart t (inr i)) in
        (out, rw first rest)

    load_edges-total :
        (db : S) (nodes rest : List Ptr) (edges : Edges)
        → ((x : Uid) → ¬ In x (d.edges db x))
        → (out : Edges) × (load_edges d store make_id db nodes rest edges ≡ ok out)
    unfolding load_edges
    load_edges-total db nodes [] edges apart = (edges, refl)
    load_edges-total db nodes (node ∷ rest) edges apart =
        let (mid, first) =
          edges_from-total node nodes (d.edges db (id_at store node)) edges
            (λ to i q. apart to (subst (λ x. In to (d.edges db x)) q i)) in
        let (out, later) = load_edges-total db nodes rest mid apart in (out, rw first later)

  open_document-total :
      (make_id : ℕ → Uid) (document : Uid) (w : World f S)
      → ((x : IdWithType)
          → In x (d.entities w.db document)
          → (o : Option (Node f)) × (load_node d w.db x ≡ ok o))
      → ((x : Uid) → ¬ In x (d.edges w.db x))
      → (u : World f S) × (open_document d make_id document w ≡ ok u)
  unfolding open_document
  open_document-total make_id document w loads apart =
      let (v, nodes, first, db_eq) =
        load_nodes-total (d.entities w.db document) [] w w.db refl loads in
      let (found, second) =
        load_edges-total v.store make_id v.db nodes nodes (0, [])
          (subst (λ db. (x : Uid) → ¬ In x (d.edges db x)) (sym db_eq) apart) in
      (
        record v {
          current = some (record {
            id = document;
            graph = record { edges = found.1; nodes = nodes };
            jobs = [];
          });
        },
        rw (first, second) refl,
      )

module _ (p : Platform) (laws : IsSql p.sql) where
  -- No newest live radius row of an entity is negative, and no row of an edge has the same uid at both
  -- ends.
  pub record IsSound (db : Db p) : Type 0 where
    pub not_negative :
        (e : Uid) (r : Row p.Float) → NewestRadius db e r → p.le p.zero_f r.value ≡ true
    pub apart :
        (r : Row String) → In r (rows p.sql db.edge) → p.of_string r.entity ≢ p.of_string r.value

  load_node-total :
      (db : Db p) (x : IdWithType)
      → IsSound db
      → (o : Option (Node p.floats)) × (load_node (database_impl p) db x ≡ ok o)
  unfolding load_node
  load_node-total db x sound = by_type x.type refl
    where
      by_type :
          (t : NodeType)
          → x.type ≡ t
          → (o : Option (Node p.floats)) × (load_node (database_impl p) db x ≡ ok o)
      by_type NodeType.sphere e =
          let (s, found) = sphere-total p laws db x.uid (sound.not_negative x.uid) in
          elim (Option-cases s) [
            | inl absent ↦ (none, rw (e, found, absent, load_node) refl)
            | inr (ball, is_ball) ↦
                (some (Node.sphere ball), rw (e, found, is_ball, load_node) refl)
          ]
      by_type set_operation e = elim (Option-cases (setop db x.uid)) [
        | inl absent ↦ (none, rw (e, absent, load_node) refl)
        | inr (o, found) ↦ (some (Node.setop o), rw (e, found, load_node) refl)
      ]

  -- Where printed uuids are read back, and on tables in which no newest live radius of an entity
  -- is negative and no row of an edge has the same uid at both ends, `open` comes back for every
  -- document, whatever its entities and edges: the document is open, its graph is well-formed,
  -- and the store has every edge of it.
  pub open_document-opens :
      IsCodec p.uuids
      → (make_id : ℕ → Uid) (document : Uid) (w : World p.floats (Db p)) → IsSound w.db
      → (u : World p.floats (Db p)) × (open_document (database_impl p) make_id document w ≡ ok u)
        × HasOpened (database_impl p) document u
  open_document-opens codec make_id document w sound =
      let (u, opened) =
        open_document-total (database_impl p) make_id document w
          (λ x _. load_node-total w.db x sound) (edges-no_loop p laws w.db codec sound.apart) in
      (u, opened, open_document-HasOpened (database_impl p) make_id document w u opened)
