-- ===== src/Vm/Detached.antt =====
-- The document's interactor changes the store and the messages, and not the document.
-- Changes of an opened document.
use structur3d.Prelude.{ℕ, ◌≡◌, sym, ◌∙◌, ap, Outcome, ok, ◌>>=◌, >>=-eq-ok, ok-injective}
use structur3d.Platform.{Floats}
use structur3d.Data.{id, Uid, Timestamp, Node, NodeType, setop}
use structur3d.Wire.Message.{Message, asserted, retracted}
use structur3d.World.{World, on_db, send}
use structur3d.Document.Invariant.{LeavesDocument, IsOpen}
use structur3d.Document.Calls.{IsDetached}
use structur3d.Vm.Open.{open_document}
use structur3d.Vm.Graphs.{open_document-HasOpened}
use structur3d.Document.Edits.{Edits, Edits-IsOpen}
use structur3d.Db.Interface.{Database}
use structur3d.Vm.Interactors.{
  db_create_node, db_remove_node, db_retract_node, document_interactor, node_message, edge_message,
}

module _ {f : Floats} {S : Type 0} where
  pub on_db-LeavesDocument : (call : S → Outcome S) → LeavesDocument (on_db {f = f} call)
  on_db-LeavesDocument call w w' h =
      let (db, _, done) = >>=-eq-ok (call w.db) (λ db. ok (record w { db = db })) h in
      (
        sym (ap (λ (x : World f S). x.store) (ok-injective done)),
        sym (ap (λ (x : World f S). x.next) (ok-injective done)),
        sym (ap (λ (x : World f S). x.current) (ok-injective done)),
      )

  pub send-LeavesDocument :
      (message : World f S → Message f) → LeavesDocument (λ w. send (message w) w)
  send-LeavesDocument message w w' h = (
    sym (ap (λ (x : World f S). x.store) (ok-injective h)),
    sym (ap (λ (x : World f S). x.next) (ok-injective h)),
    sym (ap (λ (x : World f S). x.current) (ok-injective h)),
  )

  pub chain-LeavesDocument :
      (first second : World f S → Outcome (World f S))
      → LeavesDocument first
      → LeavesDocument second
      → LeavesDocument (λ w. first w >>= second)
  chain-LeavesDocument first second a b w w' h =
      let (u, one, two) = >>=-eq-ok (first w) second h in
      let (store, next, current) = a w u one in
      let (store', next', current') = b u w' two in
      (store' ∙ store, next' ∙ next, current' ∙ current)

  module _ (d : Database f S) where
    pub db_create_node-LeavesDocument :
        (nd : Node f) (document : Uid) (now : Timestamp)
        → LeavesDocument (db_create_node d nd document now)
    unfolding db_create_node
    db_create_node-LeavesDocument (Node.sphere s) document now =
        chain-LeavesDocument _ _
          (chain-LeavesDocument _ _
            (on_db-LeavesDocument (λ db. d.create db s.uid NodeType.sphere document now))
            (on_db-LeavesDocument (λ db. d.upsert_radius db s.uid s.radius now)))
          (on_db-LeavesDocument (λ db. d.upsert_coord db s.uid s.coord now))
    db_create_node-LeavesDocument (setop o) document now =
        chain-LeavesDocument _ _
          (on_db-LeavesDocument (λ db. d.create db o.uid NodeType.set_operation document now))
          (on_db-LeavesDocument (λ db. d.upsert_set_operation_type db o.uid o.type now))

    db_retract_node-LeavesDocument :
        (nd : Node f) (now : Timestamp) → LeavesDocument (db_retract_node d nd now)
    unfolding db_retract_node
    db_retract_node-LeavesDocument (Node.sphere s) now =
        chain-LeavesDocument _ _
          (on_db-LeavesDocument (λ db. d.retract_radius db s.uid s.radius now))
          (on_db-LeavesDocument (λ db. d.retract_coord db s.uid s.coord now))
    db_retract_node-LeavesDocument (setop o) now =
        on_db-LeavesDocument (λ db. d.retract_set_operation_type db o.uid o.type now)

    pub db_remove_node-LeavesDocument :
        (nd : Node f) (document : Uid) (now : Timestamp)
        → LeavesDocument (db_remove_node d nd document now)
    unfolding db_remove_node
    db_remove_node-LeavesDocument nd document now =
        chain-LeavesDocument _ _ (on_db-LeavesDocument (λ db. d.remove db (id nd) document now))
          (db_retract_node-LeavesDocument nd now)

    pub document_interactor-IsDetached : IsDetached (document_interactor d)
    unfolding document_interactor
    document_interactor-IsDetached = record {
      create = λ ptr document now.
          chain-LeavesDocument _ (λ w. send (node_message d asserted document (w.store ptr) now) w)
            (λ w. db_create_node-LeavesDocument (w.store ptr) document now w)
            (send-LeavesDocument (λ w. node_message d asserted document (w.store ptr) now));
      remove = λ ptr document now.
          chain-LeavesDocument _ (λ w. send (node_message d retracted document (w.store ptr) now) w)
            (λ w. db_remove_node-LeavesDocument (w.store ptr) document now w)
            (send-LeavesDocument (λ w. node_message d retracted document (w.store ptr) now));
      connect = λ from to now.
          chain-LeavesDocument _ _ (on_db-LeavesDocument (λ db. d.connect db from to now))
            (send-LeavesDocument (λ _. edge_message d asserted from to now));
      disconnect = λ from to now.
          chain-LeavesDocument _ _ (on_db-LeavesDocument (λ db. d.disconnect db from to now))
            (send-LeavesDocument (λ _. edge_message d asserted from to now));
    }

    -- From a document that `open` has opened, any number of creations and removals of nodes and edges,
    -- each of which comes back, lead to an open document with a well-formed graph.
    pub open_document-Edits-IsOpen :
        (make_id : ℕ → Uid) (document : Uid) (fuel : ℕ) (w u v : World f S)
        → open_document d make_id document w ≡ ok u
        → Edits (document_interactor d) fuel u v
        → IsOpen v
    open_document-Edits-IsOpen make_id document fuel w u v opened edits =
        let (doc, open_eq, _, well, _) = open_document-HasOpened d make_id document w u opened in
        Edits-IsOpen document_interactor-IsDetached u v edits (doc, open_eq, well)
