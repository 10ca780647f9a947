-- ===== src/Vm/Leaves.antt =====
-- What the parts of a client's calls leave of its store: a view of the store that stays, or that only grows.
use structur3d.Prelude.{
  ℕ, ◌≡◌, sym, ◌∙◌, ap, none, some, Option, Outcome, ok, abort, ◌>>=◌, >>=-eq-ok, ok-injective,
}
use structur3d.Platform.{Floats}
use structur3d.Data.{Uid, Node, Timestamp, Attribute, coord, radius, set_operation_type, name}
use structur3d.Vm.Interactors.{send_update, update_message}
use structur3d.Vm.Network.{network_update}
use structur3d.Db.Interface.{Database}
use structur3d.Graph
use structur3d.Graph.{Ptr, Store, Forest, trees, access}
use structur3d.Wire.Message.{Message}
use structur3d.World.{Document, World, on_db, send}
use structur3d.Document.{
  with_document, on_graph, on_nodes, start_job, regen_mesh, set_coord, set_radius, set_type,
}

module _ {f : Floats} {S : Type 0} where
  -- Whatever `R` says of the store before a call, it says of the store after it.
  abbrev pub Keeps : (S → Type 0) → (World f S → Outcome (World f S)) → Type 0
  Keeps R call = (w w' : World f S) → call w ≡ ok w' → R w.db → R w'.db

  -- The call does not touch the store.
  abbrev pub LeavesDb : (World f S → Outcome (World f S)) → Type 0
  LeavesDb call = (w w' : World f S) → call w ≡ ok w' → w'.db ≡ w.db

  pub chain-Keeps :
      (R : S → Type 0) (first second : World f S → Outcome (World f S))
      → Keeps R first
      → Keeps R second
      → Keeps R (λ w. first w >>= second)
  chain-Keeps R first second a b w w' h r =
      let (u, one, two) = >>=-eq-ok (first w) second h in b u w' two (a w u one r)

  pub chain-LeavesDb :
      (first second : World f S → Outcome (World f S))
      → LeavesDb first
      → LeavesDb second
      → LeavesDb (λ w. first w >>= second)
  chain-LeavesDb first second a b w w' h =
      let (u, one, two) = >>=-eq-ok (first w) second h in b u w' two ∙ a w u one

  pub LeavesDb-Keeps :
      (R : S → Type 0) (call : World f S → Outcome (World f S)) → LeavesDb call → Keeps R call
  LeavesDb-Keeps R call leaves w w' h r = rw (leaves w w' h) r

  -- A function of the open document.
  pub with_document-cases :
      (body : Document → World f S → Outcome (World f S)) (w w' : World f S) (o : Option Document)
      → elim o [ none ↦ abort | some doc ↦ body doc w ] ≡ ok w'
      → (doc : Document) × (body doc w ≡ ok w')
  with_document-cases body w w' none h = absurd (cc)
  with_document-cases body w w' (some doc) h = (doc, h)

  pub with_document-Keeps :
      (R : S → Type 0) (body : Document → World f S → Outcome (World f S))
      → ((doc : Document) → Keeps R (body doc))
      → Keeps R (with_document body)
  with_document-Keeps R body each w w' h =
      let (doc, h') = with_document-cases body w w' w.current h in each doc w w' h'

  pub with_document-LeavesDb :
      (body : Document → World f S → Outcome (World f S))
      → ((doc : Document) → LeavesDb (body doc))
      → LeavesDb (with_document body)
  with_document-LeavesDb body each w w' h =
      let (doc, h') = with_document-cases body w w' w.current h in each doc w w' h'

  pub on_graph-LeavesDb :
      (change : Store f → Graph.Graph → Outcome Graph.Graph) → LeavesDb (on_graph change)
  on_graph-LeavesDb change = with_document-LeavesDb _ λ doc w w' h.
      let (g, _, done) = >>=-eq-ok (change w.store doc.graph) _ h in
      sym (ap (λ (x : World f S). x.db) (ok-injective done))

  pub on_nodes-LeavesDb :
      (uid : Uid) (action : Node f → Outcome (Node f)) → LeavesDb (on_nodes uid action)
  on_nodes-LeavesDb uid action = with_document-LeavesDb _ λ doc w w' h.
      let (store, _, done) = >>=-eq-ok (access doc.graph uid action w.store) _ h in
      sym (ap (λ (x : World f S). x.db) (ok-injective done))

  start_job-LeavesDb : (doc : Document) (forest : Option Forest) → LeavesDb (start_job doc forest)
  unfolding start_job
  start_job-LeavesDb doc none w w' h = absurd (cc)
  start_job-LeavesDb doc (some forest) w w' h = sym (ap (λ (x : World f S). x.db) (ok-injective h))

  pub regen_mesh-LeavesDb : (fuel : ℕ) → LeavesDb (regen_mesh fuel)
  unfolding regen_mesh
  regen_mesh-LeavesDb fuel = with_document-LeavesDb _ λ doc w w' h.
      let (forest, _, started) = >>=-eq-ok (trees w.store fuel doc.graph) _ h in
      start_job-LeavesDb doc forest w w' started

  pub send-LeavesDb : (message : World f S → Message f) → LeavesDb (λ w. send (message w) w)
  send-LeavesDb message w w' h = sym (ap (λ (x : World f S). x.db) (ok-injective h))

  -- A call of the store.
  pub on_db-called :
      (call : S → Outcome S) (w w' : World f S) → on_db call w ≡ ok w' → call w.db ≡ ok w'.db
  on_db-called call w w' h =
      let (db, called, done) = >>=-eq-ok (call w.db) _ h in
      called ∙ ap ok (ap (λ (x : World f S). x.db) (ok-injective done))

  -- A call of the store, and what does not touch it.
  pub on_db-then :
      (call : S → Outcome S) (rest : World f S → Outcome (World f S)) (w w' : World f S)
      → LeavesDb rest
      → (on_db call w >>= rest) ≡ ok w'
      → call w.db ≡ ok w'.db
  on_db-then call rest w w' leaves h =
      let (u, one, two) = >>=-eq-ok (on_db call w) rest h in
      on_db-called call w u one ∙ ap ok (sym (leaves u w' two))

  pub network_update-LeavesDb :
      (entity : Uid) (x : Attribute f) → LeavesDb (network_update {S = S} entity x)
  unfolding network_update
  network_update-LeavesDb entity (coord c) w w' = on_nodes-LeavesDb entity (set_coord c) w w'
  network_update-LeavesDb entity (radius r) w w' = on_nodes-LeavesDb entity (set_radius r) w w'
  network_update-LeavesDb entity (set_operation_type t) w w' =
      on_nodes-LeavesDb entity (set_type t) w w'
  network_update-LeavesDb entity (name n) w w' =
      λ h. sym (ap (λ (x : World f S). x.db) (ok-injective h))

  pub send_update-LeavesDb :
      (d : Database f S) (entity : Uid) (x : Attribute f) (now : Timestamp)
      → LeavesDb (send_update d entity x now)
  unfolding send_update
  send_update-LeavesDb d entity (coord c) now w w' =
      send-LeavesDb (λ _. update_message d entity (coord c) now) w w'
  send_update-LeavesDb d entity (radius r) now w w' =
      send-LeavesDb (λ _. update_message d entity (radius r) now) w w'
  send_update-LeavesDb d entity (set_operation_type t) now w w' =
      send-LeavesDb (λ _. update_message d entity (set_operation_type t) now) w w'
  send_update-LeavesDb d entity (name n) now w w' =
      λ h. sym (ap (λ (x : World f S). x.db) (ok-injective h))
