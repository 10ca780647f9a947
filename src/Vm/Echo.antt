-- ===== src/Vm/Echo.antt =====
-- A removal that arrives is sent on.
use structur3d.Prelude.{
  ℕ, ◌≡◌, refl, sym, ◌∙◌, ap, inl, inr, Option, none, some, [], ◌∷◌, ◌++◌, Outcome, ok, abort,
  ◌>>=◌, >>=-eq-ok, ok-injective, Option-cases,
}
use structur3d.Platform.{Floats}
use structur3d.Data.{Uid, Timestamp, Node}
use structur3d.Graph
use structur3d.Graph.{Ptr, Store, Forest, trees, update}
use structur3d.World.{Document, World, allocate, on_db, send}
use structur3d.Document.{with_document, on_graph, start_job, regen_mesh, remove_node}
use structur3d.Document.Invariant.{with_document-open}
use structur3d.Db.Interface.{Database}
use structur3d.Wire.Message.{retracted}
use structur3d.Wire.Client.{receive}
use structur3d.Vm.Interactors.{db_remove_node, db_interactor, document_interactor, node_message}
use structur3d.Vm.Network.{network_interactor}
use structur3d.Vm.StoreCalls.{db_remove_node-on_db, remove_call}
use structur3d.Vm.Replication.{update_self}
use structur3d.Vm.Detached.{db_remove_node-LeavesDocument}

module _ {f : Floats} {S : Type 0} where
  -- Where a call on the open document comes back, one is open.
  with_document-current :
      (body : Document → World f S → Outcome (World f S)) (w w' : World f S)
      → with_document body w ≡ ok w'
      → (doc : Document) × (w.current ≡ some doc) × (body doc w ≡ ok w')
  with_document-current body w w' h = elim (Option-cases w.current) [
    | inl closed ↦ let bad : abort ≡ ok w' = rw closed at h in absurd (cc)
    | inr (doc, open_eq) ↦ (doc, open_eq, sym (with_document-open body doc w open_eq) ∙ h)
  ]

  on_db-sent : (call : S → Outcome S) (w w' : World f S) → on_db call w ≡ ok w' → w'.sent ≡ w.sent
  on_db-sent call w w' h =
      let (db, _, done) = >>=-eq-ok (call w.db) (λ db. ok (record w { db = db })) h in
      sym (ap (λ (x : World f S). x.sent) (ok-injective done))

  on_graph-sent :
      (change : Store f → Graph.Graph → Outcome Graph.Graph) (w w' : World f S)
      → on_graph change w ≡ ok w'
      → w'.sent ≡ w.sent
  on_graph-sent change w w' h =
      let (doc, _, changed) =
        with_document-current
          (λ doc w. change w.store doc.graph >>= λ g.
            ok (record w { current = some (record doc { graph = g }) }))
          w w' h in
      let (g, _, done) =
        >>=-eq-ok (change w.store doc.graph)
          (λ g. ok (record w { current = some (record doc { graph = g }) })) changed in
      sym (ap (λ (x : World f S). x.sent) (ok-injective done))

  start_job-sent :
      (doc : Document) (forest : Option Forest) (w w' : World f S)
      → start_job doc forest w ≡ ok w'
      → w'.sent ≡ w.sent
  unfolding start_job
  start_job-sent doc none w w' h = absurd (cc)
  start_job-sent doc (some forest) w w' h = sym (ap (λ (x : World f S). x.sent) (ok-injective h))

  regen_mesh-sent : (fuel : ℕ) (w w' : World f S) → regen_mesh fuel w ≡ ok w' → w'.sent ≡ w.sent
  unfolding regen_mesh
  regen_mesh-sent fuel w w' h =
      let (doc, _, meshed) =
        with_document-current
          (λ doc w. trees w.store fuel doc.graph >>= λ forest. start_job doc forest w) w w' h in
      let (forest, _, started) =
        >>=-eq-ok (trees w.store fuel doc.graph) (λ forest. start_job doc forest w) meshed in
      start_job-sent doc forest w w' started

  module _ (d : Database f S) where
    db_remove_node-sent :
        (nd : Node f) (document : Uid) (now : Timestamp) (w w' : World f S)
        → db_remove_node d nd document now w ≡ ok w'
        → w'.sent ≡ w.sent
    db_remove_node-sent nd document now w w' h =
        on_db-sent (remove_call d nd document now) w w'
          (sym (db_remove_node-on_db d nd document now w) ∙ h)

    remove-sent :
        (ptr : Ptr) (document : Uid) (now : Timestamp) (w w' : World f S)
        → (document_interactor d).remove ptr document now w ≡ ok w'
        → w'.sent ≡ w.sent ++ node_message d retracted document (w.store ptr) now ∷ []
    unfolding document_interactor db_interactor
    remove-sent ptr document now w w' h =
        let (v, removed, sent) =
          >>=-eq-ok (db_remove_node d (w.store ptr) document now w)
            (λ v. send (node_message d retracted document (v.store ptr) now) v) h in
        let (store_eq, _, _) =
          db_remove_node-LeavesDocument d (w.store ptr) document now w v removed in
        sym (ap (λ (x : World f S). x.sent) (ok-injective sent))
        ∙ rw (db_remove_node-sent (w.store ptr) document now w v removed, store_eq) refl

    remove_node-sent :
        (fuel : ℕ) (now : Timestamp) (ptr : Ptr) (w w' : World f S)
        → remove_node (document_interactor d) fuel now ptr w ≡ ok w'
        → (doc : Document) × (w.current ≡ some doc)
          × (w'.sent ≡ w.sent ++ node_message d retracted doc.id (w.store ptr) now ∷ [])
    unfolding remove_node
    remove_node-sent fuel now ptr w w' h =
        let graph : World f S → Outcome (World f S) =
          on_graph (λ store g. ok (Graph.remove store g ptr)) in
        let (doc, open_eq, done) =
          with_document-current
            (λ doc w. (document_interactor d).remove ptr doc.id now w >>= graph >>= regen_mesh fuel)
            w w' h in
        let (v, before, meshed) =
          >>=-eq-ok ((document_interactor d).remove ptr doc.id now w >>= graph) (regen_mesh fuel)
            done in
        let (u, removed, changed) =
          >>=-eq-ok ((document_interactor d).remove ptr doc.id now w) graph before in
        (
          doc,
          open_eq,
          regen_mesh-sent fuel v w' meshed
              ∙ (on_graph-sent (λ store g. ok (Graph.remove store g ptr)) u v changed
                  ∙ remove-sent ptr doc.id now w u removed),
        )

    -- Where the network's interactor handles the removal of a node and comes back, a document was open,
    -- and the client has sent the removal of that node from its open document to its peers, with its own
    -- time: each removal that arrives causes another one.
    pub received_removal-sends :
        (fresh fuel : ℕ) (clock : Timestamp) (document : Uid) (nd : Node f) (t : Timestamp)
        (w w' : World f S)
        → receive (network_interactor d fresh fuel clock) (node_message d retracted document nd t) w
          ≡ ok w'
        → (doc : Document) × (w.current ≡ some doc)
          × (w'.sent ≡ w.sent ++ node_message d retracted doc.id nd clock ∷ [])
    unfolding receive network_interactor db_interactor
    received_removal-sends fresh fuel clock document nd t w w' h =
        let u = allocate nd w in
        let (v, called, removed) =
          >>=-eq-ok (db_remove_node d (u.store w.next) document t u)
            (remove_node (document_interactor d) fuel clock w.next) h in
        let (store_eq, _, current_eq) =
          db_remove_node-LeavesDocument d (u.store w.next) document t u v called in
        let (doc, open_eq, sent) = remove_node-sent fuel clock w.next v w' removed in
        let same : v.store w.next ≡ nd =
          ap (λ (s : Store f). s w.next) store_eq ∙ update_self w nd in
        (
          doc,
          sym current_eq ∙ open_eq,
          sent ∙ rw (db_remove_node-sent (u.store w.next) document t u v called, same) refl,
        )
