-- ===== src/Vm/OtherCalls.antt =====
-- The calls of a client that neither connect nor disconnect keep the edges of its store.
use structur3d.Prelude.{
  ℕ, Option, none, some, Outcome, ok, ◌>>=◌, >>=-eq-ok, ◌==◌, Bool-cases, inl, inr, ok-injective,
  subst,
}
use structur3d.Platform.{Floats}
use structur3d.Data.{
  Uid, Timestamp, Node, NodeType, Attribute, setop, coord, radius, set_operation_type, name, id,
}
use structur3d.Graph
use structur3d.Graph.{Ptr}
use structur3d.Wire.Message.{asserted, retracted}
use structur3d.World.{Document, World, on_db, send}
use structur3d.Document.{set_coord, set_radius, regen_mesh, create_node, remove_node, update_node}
use structur3d.Db.Interface.{Database}
use structur3d.Db.Interface.Edges.{
  Has, IsOther, IsEdgeStore, radius_upserted, radius_retracted, coord_upserted, coord_retracted,
  type_upserted, type_retracted, name_upserted, created, removed,
}
use structur3d.Vm.Interactors.{
  db_create_node, db_upsert, db_retract_node, db_remove_node, db_interactor, document_interactor,
  node_message,
}
use structur3d.Vm.Network.{network_create, network_update}
use structur3d.Vm.Leaves.{
  Keeps, LeavesDb, chain-Keeps, LeavesDb-Keeps, with_document-Keeps, on_graph-LeavesDb,
  on_nodes-LeavesDb, regen_mesh-LeavesDb, send-LeavesDb, on_db-called, network_update-LeavesDb,
  send_update-LeavesDb,
}

module _ {f : Floats} {S : Type 0} {d : Database f S} {Timely : S → Uid → Uid → Timestamp → Type 0}
    (laws : IsEdgeStore d Timely) (a b : Uid) where
  abbrev HasEdge : S → Type 0
  HasEdge db = Has d db a b

  abbrev pub KeepsEdge : (World f S → Outcome (World f S)) → Type 0
  KeepsEdge = Keeps HasEdge

  on_db-KeepsEdge : (call : S → Outcome S) → IsOther d call → KeepsEdge (on_db call)
  on_db-KeepsEdge call other w w' h =
      laws.other-Has call w.db w'.db a b other (on_db-called call w w' h)

  pub db_create_node-KeepsEdge :
      (nd : Node f) (document : Uid) (now : Timestamp)
      → KeepsEdge (db_create_node d nd document now)
  unfolding db_create_node
  db_create_node-KeepsEdge (Node.sphere s) document now =
      chain-Keeps HasEdge _ _
        (chain-Keeps HasEdge _ _ (on_db-KeepsEdge _ (created s.uid NodeType.sphere document now))
          (on_db-KeepsEdge _ (radius_upserted s.uid s.radius now)))
        (on_db-KeepsEdge _ (coord_upserted s.uid s.coord now))
  db_create_node-KeepsEdge (setop o) document now =
      chain-Keeps HasEdge _ _
        (on_db-KeepsEdge _ (created o.uid NodeType.set_operation document now))
        (on_db-KeepsEdge _ (type_upserted o.uid o.type now))

  db_retract_node-KeepsEdge : (nd : Node f) (now : Timestamp) → KeepsEdge (db_retract_node d nd now)
  unfolding db_retract_node
  db_retract_node-KeepsEdge (Node.sphere s) now =
      chain-Keeps HasEdge _ _ (on_db-KeepsEdge _ (radius_retracted s.uid s.radius now))
        (on_db-KeepsEdge _ (coord_retracted s.uid s.coord now))
  db_retract_node-KeepsEdge (setop o) now = on_db-KeepsEdge _ (type_retracted o.uid o.type now)

  pub db_remove_node-KeepsEdge :
      (nd : Node f) (document : Uid) (now : Timestamp)
      → KeepsEdge (db_remove_node d nd document now)
  unfolding db_remove_node
  db_remove_node-KeepsEdge nd document now =
      chain-Keeps HasEdge _ _ (on_db-KeepsEdge _ (removed (id nd) document now))
        (db_retract_node-KeepsEdge nd now)

  pub db_upsert-KeepsEdge :
      (entity : Uid) (x : Attribute f) (now : Timestamp) → KeepsEdge (db_upsert d entity x now)
  unfolding db_upsert
  db_upsert-KeepsEdge entity (coord c) now = on_db-KeepsEdge _ (coord_upserted entity c now)
  db_upsert-KeepsEdge entity (radius r) now = on_db-KeepsEdge _ (radius_upserted entity r now)
  db_upsert-KeepsEdge entity (set_operation_type t) now =
      on_db-KeepsEdge _ (type_upserted entity t now)
  db_upsert-KeepsEdge entity (name n) now = on_db-KeepsEdge _ (name_upserted entity n now)

  upsert-KeepsEdge :
      (entity : Uid) (x : Attribute f) (now : Timestamp)
      → KeepsEdge ((document_interactor d).upsert entity x now)
  unfolding document_interactor
  upsert-KeepsEdge entity x now =
      chain-Keeps HasEdge _ _ (db_upsert-KeepsEdge entity x now)
        (LeavesDb-Keeps HasEdge _ (send_update-LeavesDb d entity x now))

  -- After a call that keeps the edge, a change of the graph and of the mesh.
  with_mesh :
      (call : World f S → Outcome (World f S)) (change : World f S → Outcome (World f S)) (fuel : ℕ)
      → KeepsEdge call
      → LeavesDb change
      → KeepsEdge (λ w. call w >>= change >>= regen_mesh fuel)
  with_mesh call change fuel keeps leaves =
      chain-Keeps HasEdge _ _ (chain-Keeps HasEdge _ _ keeps (LeavesDb-Keeps HasEdge _ leaves))
        (LeavesDb-Keeps HasEdge _ (regen_mesh-LeavesDb fuel))

  pub create_node-KeepsEdge :
      (fuel : ℕ) (now : Timestamp) (ptr : Ptr)
      → KeepsEdge (create_node (document_interactor d) fuel now ptr)
  unfolding create_node document_interactor db_interactor
  create_node-KeepsEdge fuel now ptr = with_document-Keeps HasEdge _ λ doc.
      with_mesh _ _ fuel
        (chain-Keeps HasEdge _ (λ w. send (node_message d asserted doc.id (w.store ptr) now) w)
          (λ w. db_create_node-KeepsEdge (w.store ptr) doc.id now w)
          (LeavesDb-Keeps HasEdge _
            (send-LeavesDb λ w. node_message d asserted doc.id (w.store ptr) now)))
        (on_graph-LeavesDb λ _ g. ok (Graph.create g ptr))

  pub remove_node-KeepsEdge :
      (fuel : ℕ) (now : Timestamp) (ptr : Ptr)
      → KeepsEdge (remove_node (document_interactor d) fuel now ptr)
  unfolding remove_node document_interactor db_interactor
  remove_node-KeepsEdge fuel now ptr = with_document-Keeps HasEdge _ λ doc.
      with_mesh _ _ fuel
        (chain-Keeps HasEdge _ (λ w. send (node_message d retracted doc.id (w.store ptr) now) w)
          (λ w. db_remove_node-KeepsEdge (w.store ptr) doc.id now w)
          (LeavesDb-Keeps HasEdge _
            (send-LeavesDb λ w. node_message d retracted doc.id (w.store ptr) now)))
        (on_graph-LeavesDb λ store g. ok (Graph.remove store g ptr))

  pub update_node-KeepsEdge :
      (fuel : ℕ) (now : Timestamp) (nd : Node f)
      → KeepsEdge (update_node (document_interactor d) fuel now nd)
  unfolding update_node
  update_node-KeepsEdge fuel now (Node.sphere s) w w' h =
      with_mesh _ _ fuel
        (chain-Keeps HasEdge _ _ (upsert-KeepsEdge s.uid (radius s.radius) now)
          (upsert-KeepsEdge s.uid (coord s.coord) now))
        (on_nodes-LeavesDb s.uid λ nd. set_coord s.coord nd >>= set_radius s.radius) w w' h
  update_node-KeepsEdge fuel now (setop o) w w' h =
      let (u, _, fails) =
        >>=-eq-ok ((document_interactor d).upsert o.uid (set_operation_type o.type) now w) _ h in
      absurd (cc)

  pub network_create-KeepsEdge :
      (ptr : Ptr) (document : Uid) (o : Option Document) → KeepsEdge (network_create ptr document o)
  unfolding network_create
  network_create-KeepsEdge ptr document none w w' h has =
      subst (λ (x : World f S). HasEdge x.db) (ok-injective h) has
  network_create-KeepsEdge ptr document (some doc) w w' h has =
      elim (Bool-cases (doc.id == document)) [
        | inl same ↦
            LeavesDb-Keeps HasEdge _ (on_graph-LeavesDb λ _ g. ok (Graph.create g ptr)) w w'
              (rw (same, network_create) at h) has
        | inr other ↦
            subst (λ (x : World f S). HasEdge x.db) (ok-injective (rw (other, network_create) at h))
              has
      ]

  pub network_update-KeepsEdge :
      (entity : Uid) (x : Attribute f) → KeepsEdge (network_update entity x)
  network_update-KeepsEdge entity x =
      LeavesDb-Keeps HasEdge (network_update entity x) (network_update-LeavesDb entity x)
