-- ===== src/Vm/Locked.antt =====
-- An edge from an entity to itself that arrives.
use structur3d.Prelude.{
  ℕ, ◌≡◌, refl, sym, subst, inl, inr, false, some, Option-cases, In, ok, abort,
}
use structur3d.Platform.{Platform, IsSql, IsCodec}
use structur3d.Data.{Uid, Timestamp, Node, id}
use structur3d.Graph
use structur3d.Graph.Connections.{connect-aborts}
use structur3d.World.{World}
use structur3d.Document.{on_graph}
use structur3d.Db.State.{Db, connect, connect_row}
use structur3d.Db.Queries
use structur3d.Db.Queries.{IdWithType, entities, sphere, setop}
use structur3d.Db.Interface.{database_impl}
use structur3d.Db.Queries.EdgeStore.{Timely, IsEdgeStore-database_impl}
use structur3d.Wire.Message.{asserted}
use structur3d.Wire.Client.{receive}
use structur3d.Vm.Interactors.{db_interactor, edge_message}
use structur3d.Vm.Network.{network_interactor}
use structur3d.Vm.Open.{load_node, open_document}
use structur3d.Vm.Reopening.{open_document-aborts}

module _ {p : Platform} (laws : IsSql p.sql) (codec : IsCodec p.uuids) where
  loop-aborts :
      (fresh e : Uid) (w : World p.floats (Db p))
      → on_graph (λ store g. Graph.connect store g fresh e e) w ≡ abort
  loop-aborts fresh e w = elim (Option-cases w.current) [
    | inl closed ↦ rw closed refl
    | inr (doc, opened) ↦ rw (opened, connect-aborts w.store doc.graph fresh e e (inl refl)) refl
  ]

  -- Where printed uuids are read back, and the store has a node for an entity of a document and no newer
  -- row of an edge from it to itself: the message of that edge ends a client, though the call of the
  -- store that it makes first comes back; and with the store after that call, a client ends whenever
  -- it opens the document.
  pub received_loop-locks :
      (fresh fuel : ℕ) (clock : Timestamp) (make_id : ℕ → Uid) (document : Uid) (x : IdWithType)
      (nd : Node p.floats) (t : Timestamp) (w : World p.floats (Db p))
      → In x (entities w.db document)
      → load_node (database_impl p) w.db x ≡ ok (some nd)
      → Timely w.db (id nd) (id nd) t
      → (receive
            (network_interactor (database_impl p) fresh fuel clock)
            (edge_message (database_impl p) asserted (id nd) (id nd) t)
            w
          ≡ abort)
        × (db' : Db p) × (connect w.db (id nd) (id nd) t ≡ ok db')
        × ((v : World p.floats (Db p))
            → v.db ≡ db'
            → open_document (database_impl p) make_id document v ≡ abort)
  unfolding receive network_interactor db_interactor connect entities load_node sphere setop
  received_loop-locks fresh fuel clock make_id document x nd t w i found timely =
      let e = id nd in
      let db' : Db p = record w.db {
        edge = connect_row p.sql w.db.edge (p.to_string e) (p.to_string e) t false;
      } in
      let looped = (IsEdgeStore-database_impl laws codec).connect-Has w.db db' e e t timely refl in
      (
        loop-aborts fresh e (record w { db = db' }),
        db',
        refl,
        λ v same.
            open_document-aborts (database_impl p) make_id document v x nd
              (subst (λ db. In x (entities db document)) (sym same) i)
              (subst (λ db. load_node (database_impl p) db x ≡ ok (some nd)) (sym same) found)
              (subst (λ db. In e (Queries.edges db e)) (sym same) looped),
      )
