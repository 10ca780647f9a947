-- ===== src/Vm/InStep.antt =====
-- The open document and the store of a client stay in step.
use structur3d.Prelude.{ℕ, ◌≡◌, sym, ◌∙◌, subst, ok, ok-injective}
use mathlib.Core.Option.{some-injective}
use structur3d.Platform.{Floats, Platform, IsSql, IsCodec}
use structur3d.Data.{Uid, Timestamp, id}
use structur3d.Graph
use structur3d.Graph.{Ptr, Edge, Store}
use structur3d.Graph.Backed.{IsBacked, weaker-IsBacked, disconnect-IsBacked, IsBacked-IsKept}
use structur3d.World.{World, on_db, allocate}
use structur3d.Document
use structur3d.Document.{on_graph}
use structur3d.Document.Invariant.{Holds}
use structur3d.Document.Calls.{remove_edge-Holds}
use structur3d.Db.State.{Db}
use structur3d.Db.Interface.{Database, database_impl}
use structur3d.Db.Queries.EdgeStore.{Timely, IsEdgeStore-database_impl}
use structur3d.Db.Interface.Edges.{Has, IsEdgeStore}
use structur3d.Wire.Message.{
  Payload, Change, asserted, retracted, edge, update as updated, node, confirm,
}
use structur3d.Wire.Client.{process_edge, receive}
use structur3d.Vm.Interactors.{db_interactor}
use structur3d.Vm.Network.{network_interactor}
use structur3d.Vm.Open.{open_document}
use structur3d.Vm.Graphs.{open_document-HasOpened}
use structur3d.Vm.Held.{open_document-HoldsGraph}
use structur3d.Vm.Detached.{document_interactor-IsDetached, on_db-LeavesDocument}
use structur3d.Vm.Received.{then_graph, edge-Holds}
use structur3d.Vm.OtherCalls.{create_node-KeepsEdge, remove_node-KeepsEdge, update_node-KeepsEdge}
use structur3d.Vm.Grows.{
  InTimeEdge, InTimePayload, create_edge-called, remove_edge-called, connected-called,
  disconnected-called, payload-grows,
}
use structur3d.Vm.Session.{
  Event, Session, node_added, node_removed, edge_added, edge_removed, node_updated, arrived, opened,
  closed, after, Allows, Event-Holds,
}

module _ {f : Floats} {S : Type 0} (d : Database f S) where
  -- A document is open, its graph is well-formed, and the store has every edge of it.
  abbrev pub InStep : World f S → Type 0
  InStep w = Holds (IsBacked (Has d w.db)) w

  pub open_document-InStep :
      (make_id : ℕ → Uid) (document : Uid) (w w' : World f S)
      → open_document d make_id document w ≡ ok w'
      → InStep w'
  open_document-InStep make_id document w w' h =
      let (doc, open_eq, _, _, stored) = open_document-HasOpened d make_id document w w' h in
      let (doc', open_eq', held) = open_document-HoldsGraph d make_id document w w' h in
      let same = some-injective doc' doc (sym open_eq' ∙ open_eq) in
      (doc, open_eq, record { held = rw same at held; backed = stored })

module _ {f : Floats} {S : Type 0} (d : Database f S)
    (IsTimely : S → Uid → Uid → Timestamp → Type 0) (fuel : ℕ) where
  -- Where the event makes an edge, the store has nothing newer of it.
  abbrev pub InTime : (w w' : World f S) → Event d fuel w w' → Type 0
  InTime w w' (node_added now nd h) = Unit
  InTime w w' (node_removed now ptr h) = Unit
  InTime w w' (edge_added now fresh joined h) =
      IsTimely w.db (id (w.store joined.from)) (id (w.store joined.to)) now
  InTime w w' (edge_removed now joined h) = Unit
  InTime w w' (node_updated now ptr h) = Unit
  InTime w w' (arrived clock fresh m h) = InTimePayload (IsTimely w.db) m.payload m.timestamp
  InTime w w' (opened make_id document h) = Unit

  abbrev pub AllInTime : (w w' : World f S) → Session d fuel w w' → Type 0
  AllInTime w _ (closed _) = Unit
  AllInTime w w' (after _ u _ event rest) = InTime w u event × AllInTime u w' rest

module _ {f : Floats} {S : Type 0} {d : Database f S}
    {IsTimely : S → Uid → Uid → Timestamp → Type 0} (laws : IsEdgeStore d IsTimely) (fuel : ℕ) where
  -- An event that removes no edge from the store.
  grown :
      (w w' : World f S) (event : Event d fuel w w')
      → ((a b : Uid) → Has d w.db a b → Has d w'.db a b)
      → Allows d fuel (Has d w'.db) w w' event
      → InStep d w
      → InStep d w'
  grown w w' event grows allowed (doc, open_eq, backed) =
      Event-Holds d fuel IsBacked-IsKept w w' event allowed
        (λ make_id document. open_document-InStep d make_id document w w')
        (doc, open_eq, weaker-IsBacked w.store w.next doc.graph grows backed)

  edge-InStep :
      (clock : Timestamp) (fresh : ℕ) (change : Change) (from to : Uid) (t : Timestamp)
      (w w' : World f S)
      → process_edge (network_interactor d fresh fuel clock) change from to t w ≡ ok w'
      → InTimeEdge (IsTimely w.db) change from to t
      → InStep d w
      → InStep d w'
  unfolding process_edge network_interactor db_interactor
  edge-InStep clock fresh asserted from to t w w' h timely step =
      let called = connected-called laws fresh fuel clock from to t w w' h in
      let (doc, open_eq, backed) = step in
      edge-Holds d IsBacked-IsKept fresh fuel clock asserted from to t w w'
        (laws.connect-Has w.db w'.db from to t timely called)
        (
          doc,
          open_eq,
          weaker-IsBacked w.store w.next doc.graph
              (λ a b. laws.connect-Has_other w.db w'.db from to t a b timely called) backed,
        )
        h
  edge-InStep clock fresh retracted from to t w w' h timely step =
      let called = disconnected-called laws fresh fuel clock from to t w w' h in
      then_graph (IsBacked (Has d w.db)) (IsBacked (Has d w'.db))
        (on_db λ db. d.disconnect db from to t) (λ store g. ok (Graph.disconnect store g from to)) w
        w' (on_db-LeavesDocument λ db. d.disconnect db from to t)
        (λ s n g g' b e. subst (IsBacked (Has d w'.db) s n) (ok-injective e) (
          disconnect-IsBacked s n g from to
            (λ x y has other. laws.disconnect-Has_other w.db w'.db from to t x y called other has)
            b))
        step h

  received-InStep :
      (clock : Timestamp) (fresh : ℕ) (p : Payload f) (t : Timestamp) (w w' : World f S)
      → (h : receive
            (network_interactor d fresh fuel clock)
            (record { payload = p; timestamp = t })
            w
          ≡ ok w')
      → InTimePayload (IsTimely w.db) p t
      → InStep d w
      → InStep d w'
  unfolding receive
  received-InStep clock fresh (edge e) t w w' h timely =
      edge-InStep clock fresh e.deleted e.from e.to t w w' h timely
  received-InStep clock fresh (updated u) t w w' h timely =
      grown w w' (arrived clock fresh (record { payload = updated u; timestamp = t }) h)
        (λ a b. payload-grows laws fresh fuel clock a b (updated u) t w w' tt tt h) tt
  received-InStep clock fresh (node c) t w w' h timely =
      grown w w' (arrived clock fresh (record { payload = node c; timestamp = t }) h)
        (λ a b. payload-grows laws fresh fuel clock a b (node c) t w w' tt tt h) tt
  received-InStep clock fresh (confirm n) t w w' h timely =
      grown w w' (arrived clock fresh (record { payload = confirm n; timestamp = t }) h)
        (λ a b. payload-grows laws fresh fuel clock a b (confirm n) t w w' tt tt h) tt

  Event-InStep :
      (w w' : World f S) (event : Event d fuel w w')
      → InTime d IsTimely fuel w w' event
      → InStep d w
      → InStep d w'
  unfolding Document.update
  Event-InStep w w' (node_added now nd h) timely step =
      grown w w' (node_added now nd h)
        (λ a b. create_node-KeepsEdge laws a b fuel now w.next (allocate nd w) w' h) tt step
  Event-InStep w w' (node_removed now ptr h) timely step =
      grown w w' (node_removed now ptr h)
        (λ a b. remove_node-KeepsEdge laws a b fuel now ptr w w' h) tt step
  Event-InStep w w' (edge_added now fresh joined h) timely step =
      let called = create_edge-called d fuel now fresh joined w w' h in
      grown w w' (edge_added now fresh joined h)
        (λ a b. laws.connect-Has_other w.db w'.db _ _ now a b timely called)
        (laws.connect-Has w.db w'.db _ _ now timely called) step
  Event-InStep w w' (edge_removed now joined h) timely step =
      let called = remove_edge-called d fuel now joined w w' h in
      remove_edge-Holds (document_interactor-IsDetached d) fuel now (IsBacked (Has d w.db))
        (IsBacked (Has d w'.db)) joined w w'
        (λ g.
          disconnect-IsBacked w.store w.next g _ _
            λ a b has other. laws.disconnect-Has_other w.db w'.db _ _ now a b called other has)
        step h
  Event-InStep w w' (node_updated now ptr h) timely step =
      grown w w' (node_updated now ptr h)
        (λ a b. update_node-KeepsEdge laws a b fuel now (w.store ptr) w w' h) tt step
  Event-InStep w w' (arrived clock fresh m h) timely step =
      received-InStep clock fresh m.payload m.timestamp w w' h timely step
  Event-InStep w w' (opened make_id document h) timely step =
      open_document-InStep d make_id document w w' h

  Session-InStep :
      (w w' : World f S) (session : Session d fuel w w')
      → AllInTime d IsTimely fuel w w' session
      → InStep d w
      → InStep d w'
  Session-InStep w _ (closed _) timely step = step
  Session-InStep w w' (after _ u _ event rest) (now, later) step =
      Session-InStep u w' rest later (Event-InStep w u event now step)

  -- From the moment a client has opened a document, whatever its user does and
  -- whatever arrives, in any order, each time with a result, its open document is well-formed and the store
  -- has every edge of it, where each edge is made in time.
  pub open_document-Session-InStep :
      (make_id : ℕ → Uid) (document : Uid) (w u v : World f S)
      → open_document d make_id document w ≡ ok u
      → (session : Session d fuel u v) → AllInTime d IsTimely fuel u v session
      → InStep d v
  open_document-Session-InStep make_id document w u v h session timely =
      Session-InStep u v session timely (open_document-InStep d make_id document w u h)

module _ {p : Platform} (laws : IsSql p.sql) (codec : IsCodec p.uuids) where
  -- Over the tables, where printed uuids are read back: from the moment a client has opened a document,
  -- whatever its user does and whatever arrives, in any order, each time with a result, it has an open
  -- document whose graph is well-formed, and every edge of the graph is an edge of the store; where no edge
  -- is made, by the user or by a message, at a time before that of a row that the store has of it.
  pub tables-InStep :
      (fuel : ℕ) (make_id : ℕ → Uid) (document : Uid) (w u v : World p.floats (Db p))
      → open_document (database_impl p) make_id document w ≡ ok u
      → (session : Session (database_impl p) fuel u v)
      → AllInTime (database_impl p) Timely fuel u v session
      → InStep (database_impl p) v
  tables-InStep fuel = open_document-Session-InStep (IsEdgeStore-database_impl laws codec) fuel
