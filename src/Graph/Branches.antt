-- ===== src/Graph/Branches.antt =====
-- `Graph::connect` on all branches.
use structur3d.Prelude.{◌≡◌, ◌≢◌, refl, ◌⊎◌, inl, inr, List, [], ◌∷◌, ◌++◌, ok, abort, ℕ_discrete}
use structur3d.Platform.{Floats}
use structur3d.Data.{Uid}
use structur3d.Graph.{Ptr, Store, Edge, Graph, id_at, connect}
use structur3d.Graph.Connections.{HasId, IsNewEdge, connect_lem, connect-aborts}

module _ {f : Floats} (store : Store f) where
  HasId-cases : (nodes : List Ptr) (uid : Uid) → HasId store nodes uid ⊎ (¬ HasId store nodes uid)
  HasId-cases [] uid = inr λ (p, i, e). absurd i
  HasId-cases (q ∷ nodes) uid = elim (ℕ_discrete (id_at store q) uid) [
    | yes here ↦ inl (q, inl refl, here)
    | no other ↦ elim (HasId-cases nodes uid) [
      | inl (p, i, e) ↦ inl (p, inr i, e)
      | inr missing ↦
          inr λ (p, i, e). elim i [ inl same ↦ other (rw same at e) | inr j ↦ missing (p, j, e) ]
    ]
  ]

  -- Either both ids have a node and differ, and `connect` appends one edge between such nodes and changes
  -- nothing else; or the ids are the same or one of them has no node, and the program ends.
  pub connect_cases :
      (g : Graph) (fresh from to : Uid)
      → ((from ≢ to)
          × HasId store g.nodes from
          × HasId store g.nodes to
          × ((e : Edge) × (connect store g fresh from to
                ≡ ok (record g { edges = g.edges ++ e ∷ [] }))
              × IsNewEdge store g fresh from to e))
        ⊎ (((from ≡ to) ⊎ (¬ HasId store g.nodes from) ⊎ (¬ HasId store g.nodes to))
            × (connect store g fresh from to ≡ abort))
  connect_cases g fresh from to = elim (ℕ_discrete from to) [
    | yes same ↦ inr (inl same, connect-aborts store g fresh from to (inl same))
    | no ne ↦ elim (HasId-cases g.nodes from) [
      | inr missing ↦
          inr (inr (inl missing), connect-aborts store g fresh from to (inr (inl missing)))
      | inl a ↦ elim (HasId-cases g.nodes to) [
        | inr missing ↦
            inr (inr (inr missing), connect-aborts store g fresh from to (inr (inr missing)))
        | inl b ↦ inl (ne, a, b, connect_lem store g fresh from to ne a b)
      ]
    ]
  ]
