-- ===== src/Vm/Grows.antt =====
-- What happens to a client, against the edges of its store.
use structur3d.Prelude.{ℕ, ◌≡◌, sym, ◌∙◌, ap, subst, Outcome, ok, ◌>>=◌, >>=-eq-ok, ok-injective}
use structur3d.Platform.{Floats}
use structur3d.Data.{Uid, Timestamp, Node, id}
use structur3d.Graph
use structur3d.Graph.{Ptr, Edge, Store}
use structur3d.World.{World, allocate, on_db, send}
use structur3d.Document.{on_graph, regen_mesh, create_edge, remove_edge, remove_node}
use structur3d.Db.Interface.{Database}
use structur3d.Db.Interface.Edges.{Has, IsEdgeStore}
use structur3d.Wire.Message.{
  Message, Payload, Change, asserted, retracted, edge, update as updated, node, confirm,
}
use structur3d.Wire.Client.{process_create_delete, process_payload}
use structur3d.Vm.Interactors.{
  db_create_node, db_remove_node, db_upsert, db_interactor, document_interactor, edge_message,
}
use structur3d.Vm.Network.{network_create, network_update, network_interactor}
use structur3d.Vm.Leaves.{
  with_document-cases, on_graph-LeavesDb, regen_mesh-LeavesDb, send-LeavesDb, on_db-then,
}
use structur3d.Vm.OtherCalls.{
  db_create_node-KeepsEdge, db_remove_node-KeepsEdge, db_upsert-KeepsEdge, remove_node-KeepsEdge,
  network_create-KeepsEdge, network_update-KeepsEdge,
}

module _ {f : Floats} {S : Type 0} (d : Database f S) where
  -- A call of the store through the document's interactor, with a message, and a change of the graph.
  edge_call :
      (call : S → Outcome S) (m : Message f) (change : Store f → Graph.Graph → Outcome Graph.Graph)
      (fuel : ℕ) (w w' : World f S)
      → (on_db call w >>= send m >>= on_graph change >>= regen_mesh fuel) ≡ ok w'
      → call w.db ≡ ok w'.db
  edge_call call m change fuel w w' h =
      let (u, one, meshed) =
        >>=-eq-ok (on_db call w >>= send m >>= on_graph change) (regen_mesh fuel) h in
      let (v, two, changed) = >>=-eq-ok (on_db call w >>= send m) (on_graph change) one in
      on_db-then call (send m) w v (send-LeavesDb λ _. m) two
      ∙ ap ok (sym (regen_mesh-LeavesDb fuel u w' meshed ∙ on_graph-LeavesDb change v u changed))

  pub create_edge-called :
      (fuel : ℕ) (now : Timestamp) (fresh : Uid) (joined : Edge) (w w' : World f S)
      → create_edge (document_interactor d) fuel now fresh joined w ≡ ok w'
      → d.connect w.db (id (w.store joined.from)) (id (w.store joined.to)) now ≡ ok w'.db
  unfolding create_edge document_interactor db_interactor
  create_edge-called fuel now fresh joined w w' h =
      let from = id (w.store joined.from) in
      let to = id (w.store joined.to) in
      let (doc, h') =
        with_document-cases
          (λ _ v.
            on_db (λ db. d.connect db from to now) v
            >>= send (edge_message d asserted from to now)
            >>= on_graph (λ store g. Graph.connect store g fresh from to)
            >>= regen_mesh fuel)
          w w' w.current h in
      edge_call (λ db. d.connect db from to now) (edge_message d asserted from to now)
        (λ store g. Graph.connect store g fresh from to) fuel w w' h'

  pub remove_edge-called :
      (fuel : ℕ) (now : Timestamp) (joined : Edge) (w w' : World f S)
      → remove_edge (document_interactor d) fuel now joined w ≡ ok w'
      → d.disconnect w.db (id (w.store joined.from)) (id (w.store joined.to)) now ≡ ok w'.db
  unfolding remove_edge document_interactor db_interactor
  remove_edge-called fuel now joined w w' h =
      let from = id (w.store joined.from) in
      let to = id (w.store joined.to) in
      let (doc, h') =
        with_document-cases
          (λ _ v.
            on_db (λ db. d.disconnect db from to now) v
            >>= send (edge_message d asserted from to now)
            >>= on_graph (λ store g. ok (Graph.disconnect store g from to))
            >>= regen_mesh fuel)
          w w' w.current h in
      edge_call (λ db. d.disconnect db from to now) (edge_message d asserted from to now)
        (λ store g. ok (Graph.disconnect store g from to)) fuel w w' h'

-- The edge that a message makes is made in time.
abbrev pub InTimeEdge : (Uid → Uid → Timestamp → Type 0) → Change → Uid → Uid → Timestamp → Type 0
InTimeEdge Timely asserted from to t = Timely from to t
InTimeEdge Timely retracted from to t = Unit

abbrev pub InTimePayload :
    {f : Floats} → (Uid → Uid → Timestamp → Type 0) → Payload f → Timestamp → Type 0
InTimePayload Timely (edge e) t = InTimeEdge Timely e.deleted e.from e.to t
InTimePayload Timely (updated u) t = Unit
InTimePayload Timely (node c) t = Unit
InTimePayload Timely (confirm n) t = Unit

-- No message of `disconnect`.
abbrev pub IsNoRemoval : {f : Floats} → Payload f → Type 0
IsNoRemoval (edge e) = e.deleted ≡ asserted
IsNoRemoval (updated u) = Unit
IsNoRemoval (node c) = Unit
IsNoRemoval (confirm n) = Unit

module _ {f : Floats} {S : Type 0} {d : Database f S} {Timely : S → Uid → Uid → Timestamp → Type 0}
    (laws : IsEdgeStore d Timely) (fresh fuel : ℕ) (clock : Timestamp) where
  pub connected-called :
      (from to : Uid) (t : Timestamp) (w w' : World f S)
      → (network_interactor d fresh fuel clock).connect from to t w ≡ ok w'
      → d.connect w.db from to t ≡ ok w'.db
  unfolding network_interactor db_interactor
  connected-called from to t w w' =
      on_db-then (λ db. d.connect db from to t) _ w w'
        (on_graph-LeavesDb λ store g. Graph.connect store g fresh from to)

  pub disconnected-called :
      (from to : Uid) (t : Timestamp) (w w' : World f S)
      → (network_interactor d fresh fuel clock).disconnect from to t w ≡ ok w'
      → d.disconnect w.db from to t ≡ ok w'.db
  unfolding network_interactor db_interactor
  disconnected-called from to t w w' =
      on_db-then (λ db. d.disconnect db from to t) _ w w'
        (on_graph-LeavesDb λ store g. ok (Graph.disconnect store g from to))

  node-grows :
      (a b : Uid) (change : Change) (document : Uid) (nd : Node f) (t : Timestamp)
      (w w' : World f S)
      → process_create_delete (network_interactor d fresh fuel clock) change document nd t w ≡ ok w'
      → Has d w.db a b
      → Has d w'.db a b
  unfolding process_create_delete network_interactor db_interactor
  node-grows a b asserted document nd t w w' h has =
      let u = allocate nd w in
      let (v, called, made) =
        >>=-eq-ok (db_create_node d (u.store w.next) document t u)
          (λ v. network_create w.next document v.current v) h in
      network_create-KeepsEdge laws a b w.next document v.current v w' made
        (db_create_node-KeepsEdge laws a b (u.store w.next) document t u v called has)
  node-grows a b retracted document nd t w w' h has =
      let u = allocate nd w in
      let (v, called, removed) =
        >>=-eq-ok (db_remove_node d (u.store w.next) document t u)
          (remove_node (document_interactor d) fuel clock w.next) h in
      remove_node-KeepsEdge laws a b fuel clock w.next v w' removed
        (db_remove_node-KeepsEdge laws a b (u.store w.next) document t u v called has)

  -- What arrives removes no edge of the store, but for a message that does.
  pub payload-grows :
      (a b : Uid) (p : Payload f) (t : Timestamp) (w w' : World f S)
      → InTimePayload (Timely w.db) p t
      → IsNoRemoval p
      → process_payload (network_interactor d fresh fuel clock) p t w ≡ ok w'
      → Has d w.db a b
      → Has d w'.db a b
  unfolding process_payload network_interactor db_interactor
  payload-grows a b (edge e) t w w' timely adds h has =
      let h' = rw adds at h in
      let timely' = rw adds at timely in
      laws.connect-Has_other w.db w'.db e.from e.to t a b timely'
        (connected-called e.from e.to t w w' h') has
  payload-grows a b (updated u) t w w' timely adds h has =
      let (v, called, changed) =
        >>=-eq-ok (db_upsert d u.uid u.attribute t w) (network_update u.uid u.attribute) h in
      network_update-KeepsEdge laws a b u.uid u.attribute v w' changed
        (db_upsert-KeepsEdge laws a b u.uid u.attribute t w v called has)
  payload-grows a b (node c) t w w' timely adds h has =
      node-grows a b c.create c.document c.node t w w' h has
  payload-grows a b (confirm n) t w w' timely adds h has =
      subst (λ (x : World f S). Has d x.db a b) (ok-injective h) has
