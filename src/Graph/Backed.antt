-- ===== src/Graph/Backed.antt =====
-- A graph whose edges are all in a relation between ids, as in the store's edges.
use structur3d.Prelude.{
  ◌≡◌, ◌<◌, sym, ◌∙◌, inl, inr, In, In-append, [], ◌∷◌, ◌++◌, subst, ok, ok-injective, arith,
}
use structur3d.Platform.{Floats}
use structur3d.Data.{Uid}
use structur3d.Graph.{Ptr, Store, Graph, Edge, id_at, create, disconnect, connect, update}
use structur3d.Graph.Changes.{remove_lem, disconnect_lem}
use structur3d.Graph.Addresses.{
  IsHeld, create-IsHeld, remove-IsHeld, disconnect-IsHeld, connect-IsHeld, allocated-IsHeld,
  access-IsHeld, access-id,
}
use structur3d.Graph.Branches.{connect_cases}
use structur3d.Graph.Kept.{IsKept}

-- The graph is held, and every edge of it is in the relation, by the ids of its ends.
pub record IsBacked {f : Floats} (R : Uid → Uid → Type 0) (store : Store f) (next : Ptr) (g : Graph)
    : Type 0 where
  pub held : IsHeld store next g
  pub backed : (e : Edge) → In e g.edges → R (id_at store e.from) (id_at store e.to)

module _ {f : Floats} {R : Uid → Uid → Type 0} where
  pub weaker-IsBacked :
      {R' : Uid → Uid → Type 0} (store : Store f) (next : Ptr) (g : Graph)
      → ((from to : Uid) → R from to → R' from to)
      → IsBacked R store next g
      → IsBacked R' store next g
  weaker-IsBacked store next g h b = record { held = b.held; backed = λ e i. h _ _ (b.backed e i) }

  -- A relation without the edge that is removed.
  pub disconnect-IsBacked :
      {R' : Uid → Uid → Type 0} (store : Store f) (next : Ptr) (g : Graph) (from to : Uid)
      → ((a b : Uid) → R a b → ¬ ((a ≡ from) × (b ≡ to)) → R' a b)
      → IsBacked R store next g
      → IsBacked R' store next (disconnect store g from to)
  disconnect-IsBacked store next g from to h b = record {
    held = disconnect-IsHeld store next g from to b.held;
    backed = λ e i.
        let (old, other) = (disconnect_lem store g from to e).0 i in h _ _ (b.backed e old) other;
  }

  -- Another memory with the same ids at the nodes of the graph.
  moved-backed :
      (store store' : Store f) (next : Ptr) (g : Graph)
      → ((p : Ptr) → p < next → id_at store' p ≡ id_at store p)
      → IsBacked R store next g
      → (e : Edge) → In e g.edges
      → R (id_at store' e.from) (id_at store' e.to)
  moved-backed store store' next g same b e i =
      let from_eq = same e.from (b.held.below e.from (b.held.well.from_in e i)) in
      let to_eq = same e.to (b.held.below e.to (b.held.well.to_in e i)) in
      rw (from_eq, to_eq) (b.backed e i)

  connect-IsBacked :
      (store : Store f) (next : Ptr) (g g' : Graph) (fresh from to : Uid)
      → R from to
      → IsBacked R store next g
      → connect store g fresh from to ≡ ok g'
      → IsBacked R store next g'
  connect-IsBacked store next g g' fresh from to allowed b h = record {
    held = connect-IsHeld store next g g' fresh from to b.held h;
    backed = elim (connect_cases store g fresh from to) [
      | inl (_, _, _, (e, made, new)) ↦
          let same : record g { edges = g.edges ++ e ∷ [] } ≡ g' = ok-injective (sym made ∙ h) in
          subst
            (λ (x : Graph). (e : Edge) → In e x.edges → R (id_at store e.from) (id_at store e.to))
            same
            λ e' i. elim ((In-append e' g.edges (e ∷ [])).0 i) [
              | inl old ↦ b.backed e' old
              | inr (inl last) ↦ rw (last, new.from_eq, new.to_eq) allowed
              | inr (inr bad) ↦ absurd bad
            ]
      | inr (_, fails) ↦ let bad = sym fails ∙ h in absurd (cc)
    ];
  }

  pub IsBacked-IsKept : IsKept {f = f} (IsBacked R) R
  unfolding create
  IsBacked-IsKept = record {
    kept_create = λ store next g node low b. record {
      held = create-IsHeld store next g node low b.held;
      backed = b.backed;
    };
    kept_remove = λ store next g node b. record {
      held = remove-IsHeld store next g node b.held;
      backed = λ e i. b.backed e (((remove_lem store g node).1 e).0 i).0;
    };
    kept_disconnect =
        λ store next g from to b. disconnect-IsBacked store next g from to (λ x y r _. r) b;
    kept_connect = connect-IsBacked;
    kept_allocate = λ store next g node b. record {
      held = allocated-IsHeld store next g node b.held;
      backed = moved-backed store (update store next node) next g (λ p low. ground arith) b;
    };
    kept_access = λ g uid action store store' next keeps h b. record {
      held = access-IsHeld g uid action store store' next keeps h b.held;
      backed =
          moved-backed store store' next g (λ p _. access-id g uid action store store' keeps h p) b;
    };
  }
