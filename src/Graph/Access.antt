-- ===== src/Graph/Access.antt =====
-- `Graph::access`, which runs its action on the first node, whichever node has the uid.
use structur3d.Prelude.{
  ◌≡◌, ◌≢◌, inl, inr, List, [], ◌∷◌, Outcome, ok, ◌==◌, arith, Bool-cases, Outcome-cases,
}
use structur3d.Platform.{Floats}
use structur3d.Data.{Uid, Node, id}
use structur3d.Graph.{Ptr, Store, Graph, update, access, access_loop}

module _ {f : Floats} (uid : Uid) (action : Node f → Outcome (Node f)) where
  access_loop-frame :
      (first : Ptr) (nodes : List Ptr) (store store' : Store f) (p : Ptr)
      → first ≢ p
      → access_loop uid action first nodes store ≡ ok store'
      → store' p ≡ store p
  unfolding access_loop
  access_loop-frame first [] store store' p ne h = ground arith
  access_loop-frame first (node ∷ nodes) store store' p ne h =
      elim (Bool-cases (id (store node) == uid)) [
        | inl hit ↦ elim (Outcome-cases (action (store first))) [
          | inl fails ↦ let bad = rw (hit, fails, access_loop) at h in absurd (cc)
          | inr (changed, e) ↦
              let rest =
                access_loop-frame first nodes (update store first changed) store' p ne
                  (rw (hit, e, access_loop) at h) in
              ground arith
        ]
        | inr miss ↦ access_loop-frame first nodes store store' p ne (rw (miss, access_loop) at h)
      ]

  -- Where `access` comes back, it has changed no node but the first of the graph, whatever the uid
  -- and the action.
  pub access-frame :
      (g : Graph) (first : Ptr) (rest : List Ptr) (store store' : Store f) (p : Ptr)
      → g.nodes ≡ first ∷ rest
      → first ≢ p
      → access g uid action store ≡ ok store'
      → store' p ≡ store p
  unfolding access
  access-frame g first rest store store' p nodes ne h =
      access_loop-frame first (first ∷ rest) store store' p ne (rw (nodes, access) at h)
