-- ===== src/Vm/Open.antt =====
-- `ViewModelImpl::open` and `createDocument`, and the constructor.
use structur3d.Prelude.{
  ℕ, suc, Option, none, some, List, [], ◌∷◌, ◌++◌, Outcome, ok, ◌>>=◌, ◌==◌, if◌then◌else◌,
}
use structur3d.Platform.{Floats}
use structur3d.Data.{Uid, Timestamp, Node, NodeType, Name, setop}
use structur3d.Graph.{Ptr, Store, Edge, make_edge, id_at}
use structur3d.World.{World, allocate, on_db}
use structur3d.Db.Interface.{Database}
use structur3d.Db.Queries.{IdWithType}

-- Edges come with the uids that the generator gives in turn, from the `n`-th on.
abbrev pub Edges : Type 0
Edges = ℕ × List Edge

module _ {f : Floats} {S : Type 0} (d : Database f S) where
  -- The constructor: the documents of the store, and none open.
  unfoldable pub make_view_model : S → Store f → Ptr → Outcome (World f S)
  make_view_model db store next = do
    documents ← d.documents db
    ok (record {
      db = db;
      sent = [];
      store = store;
      next = next;
      current = none;
      documents = documents;
    })

  -- The node that the store has for an entity, of the type that the table of documents says.
  unfoldable pub load_node : S → IdWithType → Outcome (Option (Node f))
  load_node db entity = elim entity.type [
    | NodeType.sphere ↦
        d.sphere db entity.uid >>= elim [ none ↦ ok none | some s ↦ ok (some (Node.sphere s)) ]
    | NodeType.set_operation ↦
        ok (elim (d.setop db entity.uid) [ none ↦ none | some o ↦ some (setop o) ])
  ]

  unfoldable pub push_node : Option (Node f) → List Ptr → World f S → World f S × List Ptr
  push_node none nodes w = (w, nodes)
  push_node (some node) nodes w = (allocate node w, nodes ++ w.next ∷ [])

  -- The first loop of `open`.
  unfoldable pub load_nodes :
      List IdWithType → List Ptr → World f S → Outcome (World f S × List Ptr)
  unfolding load_node push_node
  load_nodes [] nodes w = ok (w, nodes)
  load_nodes (entity ∷ entities) nodes w = do
    node ← load_node w.db entity
    let (w', nodes') = push_node node nodes w
    load_nodes entities nodes' w'

  module _ (store : Store f) (make_id : ℕ → Uid) where
    -- The innermost loop: an edge to each node with the id.
    unfoldable pub edges_to : Ptr → Uid → List Ptr → Edges → Outcome Edges
    unfolding make_edge
    edges_to node to [] (n, edges) = ok (n, edges)
    edges_to node to (to_node ∷ rest) (n, edges) =
        (if id_at store to_node == to
          then (make_edge store (make_id n) (some node) (some to_node) >>= λ edge.
              ok (suc n, edges ++ edge ∷ []))
          else ok (n, edges))
        >>= edges_to node to rest

    unfoldable pub edges_from : Ptr → List Ptr → List Uid → Edges → Outcome Edges
    unfolding edges_to
    edges_from node nodes [] edges = ok edges
    edges_from node nodes (to ∷ tos) edges =
        edges_to node to nodes edges >>= edges_from node nodes tos

    unfoldable pub load_edges : S → List Ptr → List Ptr → Edges → Outcome Edges
    unfolding edges_from
    load_edges db nodes [] edges = ok edges
    load_edges db nodes (node ∷ rest) edges =
        edges_from node nodes (d.edges db (id_at store node)) edges >>= load_edges db nodes rest

  -- `network_->sync` fills a list that is not read.
  unfoldable pub open_document : (ℕ → Uid) → Uid → World f S → Outcome (World f S)
  unfolding load_nodes load_edges
  open_document make_id document w = do
    loaded ← load_nodes (d.entities w.db document) [] w
    let (w', nodes) = loaded
    found ← load_edges w'.store make_id w'.db nodes nodes (0, [])
    ok (record w' {
      current =
          some (record {
            id = document;
            graph = record { edges = found.1; nodes = nodes };
            jobs = [];
          });
    })

  -- `doc_id` is the uid that the generator gives.
  unfoldable pub create_document :
      Uid → (ℕ → Uid) → Timestamp → Name → World f S → Outcome (World f S)
  unfolding open_document
  create_document doc_id make_id now name w = do
    w' ← on_db (λ db. d.upsert_name db doc_id name now) w
    open_document make_id doc_id
        (record w' { documents = w'.documents ++ record { uid = doc_id; name = name } ∷ [] })
