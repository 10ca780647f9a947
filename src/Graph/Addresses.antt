-- ===== src/Graph/Addresses.antt =====
-- The nodes of a graph in memory: new addresses, and changes of nodes in place.
use structur3d.Prelude.{
  suc, ◌≡◌, ◌<◌, refl, sym, ◌∙◌, subst, inl, inr, List, [], ◌∷◌, ◌++◌, In, In-append, arith,
  Outcome, ok, ◌>>=◌, >>=-eq-ok, ok-injective, ◌==◌, Bool-cases, ap,
}
use structur3d.Platform.{Floats}
use structur3d.Data.{Uid, Node, id}
use structur3d.Graph.{
  Ptr, Store, Graph, id_at, create, remove, disconnect, connect, update, access, access_loop,
  make_edge,
}
use structur3d.Graph.Changes.{
  IsWellFormed, create-IsWellFormed, remove_lem, remove-IsWellFormed, disconnect-IsWellFormed,
}
use structur3d.Graph.Connections.{connect-IsWellFormed}

module _ {f : Floats} where
  -- The graph is well-formed, and its nodes live at addresses before the next free one.
  pub record IsHeld (store : Store f) (next : Ptr) (g : Graph) : Type 0 where
    pub well : IsWellFormed store g
    pub below : (p : Ptr) → In p g.nodes → p < next

  pub create-IsHeld :
      (store : Store f) (next : Ptr) (g : Graph) (node : Ptr)
      → node < next
      → IsHeld store next g
      → IsHeld store next (create g node)
  unfolding create
  create-IsHeld store next g node low h = record {
    well = create-IsWellFormed store g node h.well;
    below = λ p i. elim ((In-append p g.nodes (node ∷ [])).0 i) [
      | inl old ↦ h.below p old
      | inr (inl same) ↦ omega arith
      | inr (inr bad) ↦ absurd bad
    ];
  }

  pub remove-IsHeld :
      (store : Store f) (next : Ptr) (g : Graph) (node : Ptr)
      → IsHeld store next g
      → IsHeld store next (remove store g node)
  remove-IsHeld store next g node h = record {
    well = remove-IsWellFormed store g node h.well;
    below = λ p i. h.below p (((remove_lem store g node).0 p).0 i).0;
  }

  pub disconnect-IsHeld :
      (store : Store f) (next : Ptr) (g : Graph) (from to : Uid)
      → IsHeld store next g
      → IsHeld store next (disconnect store g from to)
  unfolding disconnect
  disconnect-IsHeld store next g from to h = record {
    well = disconnect-IsWellFormed store g from to h.well;
    below = h.below;
  }

  connect-nodes :
      (store : Store f) (g g' : Graph) (fresh from to : Uid)
      → connect store g fresh from to ≡ ok g'
      → g'.nodes ≡ g.nodes
  unfolding connect
  connect-nodes store g g' fresh from to h =
      let (e, _, done) =
        >>=-eq-ok (make_edge store fresh _ _) (λ e. ok (record g { edges = g.edges ++ e ∷ [] }))
          h in
      sym (ap (λ (x : Graph). x.nodes) (ok-injective done))

  pub connect-IsHeld :
      (store : Store f) (next : Ptr) (g g' : Graph) (fresh from to : Uid)
      → IsHeld store next g
      → connect store g fresh from to ≡ ok g'
      → IsHeld store next g'
  connect-IsHeld store next g g' fresh from to h made = record {
    well = connect-IsWellFormed store g g' fresh from to h.well made;
    below = λ p i. h.below p (subst (In p) (connect-nodes store g g' fresh from to made) i);
  }

  -- Another memory with the same ids at the nodes of the graph, and with no fewer addresses taken.
  IsHeld-moved :
      (store store' : Store f) (next next' : Ptr) (g : Graph)
      → ((p : Ptr) → p < next → (id_at store' p ≡ id_at store p) × (p < next'))
      → IsHeld store next g
      → IsHeld store' next' g
  IsHeld-moved store store' next next' g same h = record {
    well = record {
      from_in = h.well.from_in;
      to_in = h.well.to_in;
      no_loop = λ e i q. h.well.no_loop e i (
          sym (same e.from (h.below e.from (h.well.from_in e i))).0
          ∙ q
          ∙ (same e.to (h.below e.to (h.well.to_in e i))).0);
    };
    below = λ p i. (same p (h.below p i)).1;
  }

  -- A node at a new address.
  pub allocated-IsHeld :
      (store : Store f) (next : Ptr) (g : Graph) (node : Node f)
      → IsHeld store next g
      → IsHeld (update store next node) (suc next) g
  allocated-IsHeld store next g node =
      IsHeld-moved store (update store next node) next (suc next) g
        λ p low. (ground arith, omega arith)

  -- The action leaves the id of a node as it is.
  abbrev pub KeepsId : (Node f → Outcome (Node f)) → Type 0
  KeepsId action = (n n' : Node f) → action n ≡ ok n' → id n' ≡ id n

  access_loop-id :
      (uid : Uid) (action : Node f → Outcome (Node f)) (first : Ptr) (nodes : List Ptr)
      (store store' : Store f) (p : Ptr)
      → KeepsId action
      → access_loop uid action first nodes store ≡ ok store'
      → id_at store' p ≡ id_at store p
  unfolding access_loop
  access_loop-id uid action first [] store store' p keeps h =
      ap (λ (s : Store f). id (s p)) (sym (ok-injective h))
  access_loop-id uid action first (node ∷ nodes) store store' p keeps h =
      elim (Bool-cases (id (store node) == uid)) [
        | inl hit ↦
            let (s, first_done, later) =
              >>=-eq-ok (action (store first) >>= λ changed. ok (update store first changed))
                (access_loop uid action first nodes) (rw (hit, access_loop) at h) in
            let (changed, acted, stored) = >>=-eq-ok (action (store first)) _ first_done in
            access_loop-id uid action first nodes s store' p keeps later
            ∙ (ap (λ (s : Store f). id (s p)) (sym (ok-injective stored))
                ∙ update-id store first changed p (keeps (store first) changed acted))
        | inr miss ↦
            access_loop-id uid action first nodes store store' p keeps (rw (miss, access_loop) at h)
      ]
    where
      update-id :
          (store : Store f) (at : Ptr) (n : Node f) (p : Ptr)
          → id n ≡ id (store at)
          → id_at (update store at n) p ≡ id_at store p
      update-id store at n p same = ground arith

  pub access-id :
      (g : Graph) (uid : Uid) (action : Node f → Outcome (Node f)) (store store' : Store f)
      → KeepsId action
      → access g uid action store ≡ ok store'
      → (p : Ptr) → id_at store' p ≡ id_at store p
  unfolding access
  access-id g uid action store store' keeps h p = from_nodes g.nodes refl
    where
      from_nodes : (nodes : List Ptr) → g.nodes ≡ nodes → id_at store' p ≡ id_at store p
      from_nodes [] e = ap (λ (s : Store f). id (s p)) (sym (ok-injective (rw (e, access) at h)))
      from_nodes (first ∷ rest) e =
          access_loop-id uid action first (first ∷ rest) store store' p keeps (rw (e, access) at h)

  -- An action that keeps ids, through `access`.
  pub access-IsHeld :
      (g : Graph) (uid : Uid) (action : Node f → Outcome (Node f)) (store store' : Store f)
      (next : Ptr)
      → KeepsId action
      → access g uid action store ≡ ok store'
      → IsHeld store next g
      → IsHeld store' next g
  access-IsHeld g uid action store store' next keeps h held =
      IsHeld-moved store store' next next g
        (λ p low. (access-id g uid action store store' keeps h p, low)) held
