-- ===== src/Graph/Changes.antt =====
-- What the changes of a graph do to its nodes and edges.
use structur3d.Prelude.{◌≡◌, ◌≢◌, ◌↔◌, inl, not, [], ◌∷◌, ◌==◌, In, In-keep, In-append, arith}
use structur3d.Platform.{Floats}
use structur3d.Data.{Uid}
use structur3d.Graph.{Ptr, Store, Edge, Graph, id_at, touches, joins, create, remove, disconnect}

module _ {f : Floats} (store : Store f) where
  -- Every edge runs between two nodes of the graph, with different ids.
  pub record IsWellFormed (g : Graph) : Type 0 where
    pub from_in : (e : Edge) → In e g.edges → In e.from g.nodes
    pub to_in : (e : Edge) → In e g.edges → In e.to g.nodes
    pub no_loop : (e : Edge) → In e g.edges → id_at store e.from ≢ id_at store e.to

  -- `create` keeps a graph well-formed.
  pub create-IsWellFormed : (g : Graph) (node : Ptr) → IsWellFormed g → IsWellFormed (create g node)
  unfolding create
  create-IsWellFormed g node w = record {
    from_in = λ e i. (In-append e.from g.nodes (node ∷ [])).1 (inl (w.from_in e i));
    to_in = λ e i. (In-append e.to g.nodes (node ∷ [])).1 (inl (w.to_in e i));
    no_loop = w.no_loop;
  }

  -- After `remove` the graph holds just the nodes with another id than the removed one's, and just
  -- the edges that touch no node with that id.
  pub remove_lem :
      (g : Graph) (node : Ptr)
      → ((p : Ptr)
          → In p (remove store g node).nodes ↔ (In p g.nodes × (id_at store p ≢ id_at store node)))
        × ((e : Edge)
            → In e (remove store g node).edges ↔ (
                In e g.edges
                × (id_at store e.from ≢ id_at store node)
                × (id_at store e.to ≢ id_at store node)))
  unfolding remove
  remove_lem g node = (
    λ p. ground (arith, In-keep (λ nd. not (id_at store nd == id_at store node)) p g.nodes),
    λ e. ground (arith, In-keep (λ e. not (touches store (id_at store node) e)) e g.edges),
  )

  -- `remove` keeps a graph well-formed: it leaves no edge without its ends.
  pub remove-IsWellFormed :
      (g : Graph) (node : Ptr) → IsWellFormed g → IsWellFormed (remove store g node)
  remove-IsWellFormed g node w =
      let (nodes, edges) = remove_lem g node in
      record {
        from_in = λ e i. let (old, a, b) = (edges e).0 i in (nodes e.from).1 (w.from_in e old, a);
        to_in = λ e i. let (old, a, b) = (edges e).0 i in (nodes e.to).1 (w.to_in e old, b);
        no_loop = λ e i. w.no_loop e ((edges e).0 i).0;
      }

  -- `disconnect` removes just the edges from a node of the one id to a node of the other.
  pub disconnect_lem :
      (g : Graph) (from to : Uid) (e : Edge)
      → In e (disconnect store g from to).edges
        ↔ (In e g.edges × ¬ ((id_at store e.from ≡ from) × (id_at store e.to ≡ to)))
  unfolding disconnect
  disconnect_lem g from to e = ground (arith, In-keep (λ e. not (joins store from to e)) e g.edges)

  -- `disconnect` keeps a graph well-formed.
  pub disconnect-IsWellFormed :
      (g : Graph) (from to : Uid) → IsWellFormed g → IsWellFormed (disconnect store g from to)
  unfolding disconnect
  disconnect-IsWellFormed g from to w = record {
    from_in = λ e i. w.from_in e ((disconnect_lem g from to e).0 i).0;
    to_in = λ e i. w.to_in e ((disconnect_lem g from to e).0 i).0;
    no_loop = λ e i. w.no_loop e ((disconnect_lem g from to e).0 i).0;
  }
