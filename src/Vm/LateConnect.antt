-- ===== src/Vm/LateConnect.antt =====
-- An edge that arrives late: what the store makes of it, and what the open document does.
use structur3d.Prelude.{
  ℕ, ◌<◌, ◌≡◌, refl, sym, ◌∙◌, ap, subst, inl, inr, false, String, some, [], ◌∷◌, ◌++◌, In,
  In-append, arith, ok, ◌>>=◌, >>=-eq-ok, ok-injective, Bool-cases,
}
use structur3d.Platform.{Platform, IsSql}
use structur3d.Data.{Uid, Timestamp}
use structur3d.Graph
use structur3d.Graph.{Edge, id_at}
use structur3d.Graph.Branches.{connect_cases}
use structur3d.World.{Document, World, on_db}
use structur3d.Document.{on_graph}
use structur3d.Db.Rows.{Row, is_deleted}
use structur3d.Db.State.{Db, connect, connect_row, is_edge_garbage}
use structur3d.Db.Interface.{database_impl}
use structur3d.Db.Queries.{is_alive}
use structur3d.Db.Queries.Edges.{IsEdge, Stands, StoredEdge, is_alive_iff}
use structur3d.Db.Queries.EdgeHistory.{In-connect_row, edge_garbage-older}
use structur3d.Vm.Interactors.{db_interactor}
use structur3d.Vm.Network.{network_interactor}
use structur3d.Vm.Leaves.{with_document-cases, on_db-called, on_graph-LeavesDb}

module _ {p : Platform} (laws : IsSql p.sql) where
  -- A row of the edge that is newer than the call and than every row that connects it.
  pub record IsLate (db : Db p) (from to : Uid) (t : Timestamp) : Type 0 where
    pub row : Row String
    pub member : StoredEdge laws db row
    pub edge : IsEdge (p.to_string from) (p.to_string to) row
    pub later : t < row.timestamp
    pub newest :
        (s : Row String)
        → StoredEdge laws db s
        → IsEdge (p.to_string from) (p.to_string to) s
        → s.deleted ≡ 0
        → s.timestamp < row.timestamp

  abbrev connected : Db p → Uid → Uid → Timestamp → Db p
  connected db from to t = record db {
    edge = connect_row p.sql db.edge (p.to_string from) (p.to_string to) t false;
  }

  late_connect-fallen :
      (db : Db p) (from to : Uid) (t : Timestamp)
      → IsLate db from to t
      → ¬ Stands (StoredEdge laws (connected db from to t)) (p.to_string from) (p.to_string to)
  unfolding is_deleted
  late_connect-fallen db from to t late s =
      let stored = In-connect_row laws db.edge (p.to_string from) (p.to_string to) t false in
      let kept : StoredEdge laws (connected db from to t) late.row =
        (stored late.row).1 (inr (late.member, still)) in
      let above = s.is_newest.newest late.row kept late.edge in
      elim ((stored s.row).0 s.is_newest.member) [
        | inl new ↦
            let at = ap (λ (r : Row String). r.timestamp) new in
            let later = late.later in omega arith
        | inr (old, _) ↦ let below = late.newest s.row old s.is_newest.edge s.alive in omega arith
      ]
    where
      still : is_edge_garbage (p.to_string from) (p.to_string to) t late.row ≡ false
      still =
          ground
            (arith, late.later, edge_garbage-older (p.to_string from) (p.to_string to) t late.row)

  late_connect-falls :
      (db db' : Db p) (from to : Uid) (t : Timestamp)
      → IsLate db from to t
      → connect db from to t ≡ ok db'
      → is_alive db' (p.to_string from) (p.to_string to) ≡ false
  unfolding connect
  late_connect-falls db db' from to t late h =
      subst (λ (x : Db p). is_alive x (p.to_string from) (p.to_string to) ≡ false) (ok-injective h)
        (elim (Bool-cases (is_alive (connected db from to t) (p.to_string from) (p.to_string to))) [
          | inl stands ↦
              absurd (late_connect-fallen db from to t late ((is_alive_iff laws _ _ _).0 stands))
          | inr falls ↦ falls
        ])

  -- The open document has an edge between nodes of the ids.
  pub record HasEdge (w : World p.floats (Db p)) (from to : Uid) : Type 0 where
    pub doc : Document
    pub is_open : w.current ≡ some doc
    pub edge : Edge
    pub member : In edge doc.graph.edges
    pub from_eq : id_at w.store edge.from ≡ from
    pub to_eq : id_at w.store edge.to ≡ to

  connected-HasEdge :
      (fresh : ℕ) (from to : Uid) (w w' : World p.floats (Db p))
      → on_graph (λ store g. Graph.connect store g fresh from to) w ≡ ok w'
      → HasEdge w' from to
  connected-HasEdge fresh from to w w' h =
      let (doc, h') =
        with_document-cases
          (λ doc w. Graph.connect w.store doc.graph fresh from to >>= λ g.
            ok (record w { current = some (record doc { graph = g }) }))
          w w' w.current h in
      let (g, joined, done) =
        >>=-eq-ok (Graph.connect w.store doc.graph fresh from to)
          (λ g. ok (record w { current = some (record doc { graph = g }) })) h' in
      elim (connect_cases w.store doc.graph fresh from to) [
        | inl (_, _, _, (e, made, new)) ↦
            let same : g ≡ record doc.graph { edges = doc.graph.edges ++ e ∷ [] } =
              ok-injective (sym joined ∙ made) in
            subst (λ (x : World p.floats (Db p)). HasEdge x from to) (ok-injective done)
              record {
                doc = record doc { graph = g };
                is_open = refl;
                edge = e;
                member =
                    subst (λ (x : Graph.Graph). In e x.edges) (sym same)
                      ((In-append e doc.graph.edges (e ∷ [])).1 (inr (inl refl)));
                from_eq = new.from_eq;
                to_eq = new.to_eq;
              }
        | inr (_, fails) ↦ let bad = sym fails ∙ joined in absurd (cc)
      ]

  -- An edge that arrives late parts the open document from the store: where the store has a row of the edge
  -- that is newer than the message and than every row that connects it, and the network's interactor
  -- handles the message and comes back, the edge does not stand in the store, and the graph of the
  -- open document has it.
  pub late_connect_diverges :
      (fresh fuel : ℕ) (clock : Timestamp) (from to : Uid) (t : Timestamp)
      (w w' : World p.floats (Db p))
      → IsLate w.db from to t
      → (network_interactor (database_impl p) fresh fuel clock).connect from to t w ≡ ok w'
      → (is_alive w'.db (p.to_string from) (p.to_string to) ≡ false) × HasEdge w' from to
  unfolding network_interactor db_interactor
  late_connect_diverges fresh fuel clock from to t w w' late h =
      let change = on_graph (λ store g. Graph.connect store g fresh from to) in
      let (v, called, changed) = >>=-eq-ok (on_db (λ db. connect db from to t) w) change h in
      let db_eq = on_graph-LeavesDb (λ store g. Graph.connect store g fresh from to) v w' changed in
      (
        rw db_eq (
            late_connect-falls w.db v.db from to t late
              (on_db-called (λ db. connect db from to t) w v called)),
        connected-HasEdge fresh from to v w' changed,
      )
