-- ===== src/Vm/Received.antt =====
-- What arrives keeps what the operations of the graph keep.
use structur3d.Prelude.{ℕ, ◌≡◌, subst, Outcome, ok, ◌>>=◌, >>=-eq-ok, ok-injective, arith}
use structur3d.Platform.{Floats}
use structur3d.Data.{Uid, Timestamp, Node, Attribute, coord, radius, set_operation_type, name}
use structur3d.Graph
use structur3d.Graph.{Ptr, Store, access, update}
use structur3d.Graph.Kept.{Property, IsKept, Any}
use structur3d.World.{World, allocate, on_db}
use structur3d.Document.{on_graph, remove_node}
use structur3d.Document.Invariant.{Holds, LeavesDocument, on_graph-Holds, LeavesDocument-Holds}
use structur3d.Document.Calls.{remove_node-Holds}
use structur3d.Db.Interface.{Database}
use structur3d.Wire.Message.{
  Message, Payload, Change, asserted, retracted, edge, update as updated, node, confirm,
}
use structur3d.Wire.Client.{process_edge, process_create_delete, process_payload, receive}
use structur3d.Vm.Interactors.{
  db_interactor, document_interactor, db_upsert, db_create_node, db_remove_node,
}
use structur3d.Vm.Network.{network_create, network_update, network_interactor}
use structur3d.Vm.Detached.{
  on_db-LeavesDocument, db_create_node-LeavesDocument, db_remove_node-LeavesDocument,
  document_interactor-IsDetached,
}
use structur3d.Vm.Handlers.{network_update-Holds, network_create-Holds, allocate-Holds}

-- After a call that leaves the document, a change of the graph.
pub then_graph :
    {f : Floats} {S : Type 0} (P Q : Property f) (call : World f S → Outcome (World f S))
    (change : Store f → Graph.Graph → Outcome Graph.Graph) (w w' : World f S)
    → LeavesDocument call
    → ((s : Store f) (n : Ptr) (g g' : Graph.Graph) → P s n g → change s g ≡ ok g' → Q s n g')
    → Holds P w
    → (call w >>= on_graph change) ≡ ok w'
    → Holds Q w'
then_graph P Q call change w w' leaves keeps held h =
    let (v, called, changed) = >>=-eq-ok (call w) (on_graph change) h in
    on_graph-Holds P Q change v w' (keeps v.store v.next)
      (LeavesDocument-Holds P call w v leaves held called) changed

-- The edge that a message makes is allowed.
abbrev pub AllowsEdge : (Uid → Uid → Type 0) → Change → Uid → Uid → Type 0
AllowsEdge Allowed asserted from to = Allowed from to
AllowsEdge Allowed retracted from to = Unit

abbrev pub AllowsPayload : {f : Floats} → (Uid → Uid → Type 0) → Payload f → Type 0
AllowsPayload Allowed (edge e) = AllowsEdge Allowed e.deleted e.from e.to
AllowsPayload Allowed (updated u) = Unit
AllowsPayload Allowed (node c) = Unit
AllowsPayload Allowed (confirm n) = Unit

AllowsEdge-Any : (change : Change) (from to : Uid) → AllowsEdge Any change from to
AllowsEdge-Any asserted from to = tt
AllowsEdge-Any retracted from to = tt

pub AllowsPayload-Any : {f : Floats} (p : Payload f) → AllowsPayload Any p
AllowsPayload-Any (edge e) = AllowsEdge-Any e.deleted e.from e.to
AllowsPayload-Any (updated u) = tt
AllowsPayload-Any (node c) = tt
AllowsPayload-Any (confirm n) = tt

module _ {f : Floats} {S : Type 0} (d : Database f S) where
  pub db_upsert-LeavesDocument :
      (entity : Uid) (a : Attribute f) (now : Timestamp) → LeavesDocument (db_upsert d entity a now)
  unfolding db_upsert
  db_upsert-LeavesDocument entity (coord c) now =
      on_db-LeavesDocument (λ db. d.upsert_coord db entity c now)
  db_upsert-LeavesDocument entity (radius r) now =
      on_db-LeavesDocument (λ db. d.upsert_radius db entity r now)
  db_upsert-LeavesDocument entity (set_operation_type t) now =
      on_db-LeavesDocument (λ db. d.upsert_set_operation_type db entity t now)
  db_upsert-LeavesDocument entity (name n) now =
      on_db-LeavesDocument (λ db. d.upsert_name db entity n now)

  module _ {P : Property f} {Allowed : Uid → Uid → Type 0} (kept : IsKept P Allowed)
      (fresh fuel : ℕ) (clock : Timestamp) where
    pub edge-Holds :
        (change : Change) (from to : Uid) (t : Timestamp) (w w' : World f S)
        → AllowsEdge Allowed change from to
        → Holds P w
        → process_edge (network_interactor d fresh fuel clock) change from to t w ≡ ok w'
        → Holds P w'
    unfolding process_edge network_interactor db_interactor
    edge-Holds asserted from to t w w' allowed =
        then_graph P P (on_db λ db. d.connect db from to t)
          (λ store g. Graph.connect store g fresh from to) w w'
          (on_db-LeavesDocument λ db. d.connect db from to t)
          (λ s n g g' k e. kept.kept_connect s n g g' fresh from to allowed k e)
    edge-Holds retracted from to t w w' allowed =
        then_graph P P (on_db λ db. d.disconnect db from to t)
          (λ store g. ok (Graph.disconnect store g from to)) w w'
          (on_db-LeavesDocument λ db. d.disconnect db from to t)
          (λ s n g g' k e. subst (P s n) (ok-injective e) (kept.kept_disconnect s n g from to k))

    node-Holds :
        (change : Change) (document : Uid) (nd : Node f) (t : Timestamp) (w w' : World f S)
        → Holds P w
        → process_create_delete (network_interactor d fresh fuel clock) change document nd t w
          ≡ ok w'
        → Holds P w'
    unfolding process_create_delete network_interactor db_interactor
    node-Holds asserted document nd t w w' held h =
        let u = allocate nd w in
        let call = db_create_node d (u.store w.next) document t in
        let (v, called, created) =
          >>=-eq-ok (call u) (λ v. network_create w.next document v.current v) h in
        let leaves = db_create_node-LeavesDocument d (u.store w.next) document t in
        let (_, next_eq, _) = leaves u v called in
        network_create-Holds kept w.next document v.current v w' (omega (arith, next_eq))
          (LeavesDocument-Holds P call u v leaves (allocate-Holds kept nd w held) called) created
    node-Holds retracted document nd t w w' held h =
        let u = allocate nd w in
        let call = db_remove_node d (u.store w.next) document t in
        let (v, called, removed) =
          >>=-eq-ok (call u) (remove_node (document_interactor d) fuel clock w.next) h in
        let leaves = db_remove_node-LeavesDocument d (u.store w.next) document t in
        remove_node-Holds (document_interactor-IsDetached d) fuel clock P P w.next v w'
          (λ g k. kept.kept_remove v.store v.next g w.next k)
          (LeavesDocument-Holds P call u v leaves (allocate-Holds kept nd w held) called) removed

    update-Holds :
        (entity : Uid) (a : Attribute f) (t : Timestamp) (w w' : World f S)
        → Holds P w
        → (db_upsert d entity a t w >>= network_update entity a) ≡ ok w'
        → Holds P w'
    update-Holds entity a t w w' held h =
        let (v, called, changed) =
          >>=-eq-ok (db_upsert d entity a t w) (network_update entity a) h in
        network_update-Holds kept entity a v w'
          (LeavesDocument-Holds P (db_upsert d entity a t) w v (db_upsert-LeavesDocument entity a t)
            held called)
          changed

    payload-Holds :
        (p : Payload f) (t : Timestamp) (w w' : World f S)
        → AllowsPayload Allowed p
        → Holds P w
        → process_payload (network_interactor d fresh fuel clock) p t w ≡ ok w'
        → Holds P w'
    unfolding process_payload network_interactor db_interactor
    payload-Holds (edge e) t w w' allowed held h =
        edge-Holds e.deleted e.from e.to t w w' allowed held h
    payload-Holds (updated u) t w w' allowed held h = update-Holds u.uid u.attribute t w w' held h
    payload-Holds (node c) t w w' allowed held h =
        node-Holds c.create c.document c.node t w w' held h
    payload-Holds (confirm n) t w w' allowed held h = subst (Holds P) (ok-injective h) held

    -- A message that is handled by the network's interactor, and comes back.
    pub received-Holds :
        (m : Message f) (w w' : World f S)
        → AllowsPayload Allowed m.payload
        → Holds P w
        → receive (network_interactor d fresh fuel clock) m w ≡ ok w'
        → Holds P w'
    unfolding receive
    received-Holds m = payload-Holds m.payload m.timestamp
