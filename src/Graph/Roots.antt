-- ===== src/Graph/Roots.antt =====
-- `Graph::roots`: the counts of incoming edges, in a map from nodes.
use structur3d.Prelude.{
  ◌+◌, ◌<◌, ◌≡◌, ◌≢◌, refl, ◌⊎◌, inl, inr, ◌↔◌, List, [], ◌∷◌, In, ok, ◌==◌, arith, Bool-cases, sym,
}
use structur3d.Graph.{
  Ptr, Edge, Graph, Counts, insert, increment, count_nodes, count_edges, zeros, roots,
}

-- The node is a key.
abbrev HasKey : Ptr → Counts → Type 0
HasKey p [] = ⊥
HasKey p ((j, n) ∷ m) = (p ≡ j) ⊎ HasKey p m

-- The node is a key with the count 0.
abbrev IsZero : Ptr → Counts → Type 0
IsZero p [] = ⊥
IsZero p ((j, n) ∷ m) = ((p ≡ j) × (n ≡ 0)) ⊎ IsZero p m

abbrev IsBelow : Ptr → Counts → Type 0
IsBelow k [] = Unit
IsBelow k ((j, n) ∷ m) = (k < j) × IsBelow k m

-- The keys grow from entry to entry.
abbrev IsSorted : Counts → Type 0
IsSorted [] = Unit
IsSorted ((j, n) ∷ m) = IsBelow j m × IsSorted m

IsBelow-IsZero : (k : Ptr) (m : Counts) → IsBelow k m → ¬ IsZero k m
IsBelow-IsZero k [] h z = z
IsBelow-IsZero k ((j, n) ∷ m) h z = ground (arith, IsBelow-IsZero k m)

IsBelow-trans : (a b : Ptr) (m : Counts) → a < b → IsBelow b m → IsBelow a m
IsBelow-trans a b [] h k = tt
IsBelow-trans a b ((j, n) ∷ m) h k = ground (arith, IsBelow-trans a b m)

In-zeros : (p : Ptr) (m : Counts) → In p (zeros m) ↔ IsZero p m
unfolding zeros
In-zeros p [] = ground arith
In-zeros p ((j, n) ∷ m) = ground (arith, In-zeros p m)

insert-HasKey : (p k : Ptr) (m : Counts) → HasKey p (insert k m) ↔ ((p ≡ k) ⊎ HasKey p m)
unfolding insert
insert-HasKey p k [] = ground arith
insert-HasKey p k ((j, n) ∷ m) = ground (arith, insert-HasKey p k m)

insert-IsBelow : (b k : Ptr) (m : Counts) → b < k → IsBelow b m → IsBelow b (insert k m)
unfolding insert
insert-IsBelow b k [] lt h = ground arith
insert-IsBelow b k ((j, n) ∷ m) lt h = ground (arith, insert-IsBelow b k m)

insert-IsSorted : (k : Ptr) (m : Counts) → IsSorted m → IsSorted (insert k m)
unfolding insert
insert-IsSorted k [] h = ground arith
insert-IsSorted k ((j, n) ∷ m) h =
    ground (arith, insert-IsSorted k m, insert-IsBelow j k m, IsBelow-trans k j m)

-- Where every count is 0.
abbrev AllZero : Counts → Type 0
AllZero [] = Unit
AllZero ((j, n) ∷ m) = (n ≡ 0) × AllZero m

insert-AllZero : (k : Ptr) (m : Counts) → AllZero m → AllZero (insert k m)
unfolding insert
insert-AllZero k [] h = ground arith
insert-AllZero k ((j, n) ∷ m) h = ground (arith, insert-AllZero k m)

IsZero-AllZero : (p : Ptr) (m : Counts) → AllZero m → IsZero p m ↔ HasKey p m
IsZero-AllZero p [] h = ground arith
IsZero-AllZero p ((j, n) ∷ m) h = ground (arith, IsZero-AllZero p m)

count_nodes_lem :
    (nodes : List Ptr) (m : Counts)
    → AllZero m
    → IsSorted m
    → AllZero (count_nodes nodes m)
      × IsSorted (count_nodes nodes m)
      × ((p : Ptr) → HasKey p (count_nodes nodes m) ↔ (In p nodes ⊎ HasKey p m))
unfolding count_nodes
count_nodes_lem [] m z s = (z, s, λ p. ground arith)
count_nodes_lem (node ∷ nodes) m z s =
    let (z', s', keys) =
      count_nodes_lem nodes (insert node m) (insert-AllZero node m z) (insert-IsSorted node m s) in
    (z', s', λ p. ground (arith, keys p, insert-HasKey p node m))

-- What one turn of the loop over the edges does to the counts.
record IsCounted (k : Ptr) (m m' : Counts) : Type 0 where
  same_keys : (p : Ptr) → HasKey p m' ↔ HasKey p m
  same_below : (b : Ptr) → IsBelow b m → IsBelow b m'
  zero_left : (p : Ptr) → IsZero p m' ↔ (IsZero p m × (p ≢ k))
  sorted : IsSorted m'

increment_lem :
    (k : Ptr) (m : Counts)
    → IsSorted m
    → HasKey k m
    → (m' : Counts) × (increment k m ≡ ok m') × IsCounted k m m'
unfolding increment
increment_lem k [] s h = absurd h
increment_lem k ((j, n) ∷ m) s h = elim (Bool-cases (k == j)) [
  | inl hit ↦ (
    (j, n + 1) ∷ m,
    rw hit,
    record {
      same_keys = λ p. ground arith;
      same_below = λ b l. l;
      zero_left = λ p. ground (arith, IsBelow-IsZero j m);
      sorted = s;
    },
  )
  | inr miss ↦
      let (m', e, c) = increment_lem k m s.1 (ground arith) in
      (
        (j, n) ∷ m',
        rw (miss, e),
        record {
          same_keys = λ p. ground (arith, c.same_keys p);
          same_below = λ b l. (l.0, c.same_below b l.1);
          zero_left = λ p. ground (arith, c.zero_left p);
          sorted = (c.same_below j s.0, c.sorted);
        },
      )
]

count_edges_lem :
    (edges : List Edge) (m : Counts)
    → IsSorted m
    → ((e : Edge) → In e edges → HasKey e.to m)
    → (m' : Counts) × (count_edges edges m ≡ ok m')
      × ((p : Ptr) → IsZero p m' ↔ (IsZero p m × ((e : Edge) → In e edges → e.to ≢ p)))
unfolding count_edges
count_edges_lem [] m s h = (m, refl, λ p. (λ z. (z, λ e i. absurd i), λ z. z.0))
count_edges_lem (edge ∷ edges) m s h =
    let (u, first, c) = increment_lem edge.to m s (h edge (inl refl)) in
    let (m', rest, zero) =
      count_edges_lem edges u c.sorted (λ e i. (c.same_keys e.to).1 (h e (inr i))) in
    (
      m',
      rw first rest,
      λ p. (
        λ z.
            let (was, none_in) = (zero p).0 z in
            let (here, ne) = (c.zero_left p).0 was in
            (here, λ e i q. elim i [ inl same ↦ ground arith | inr j ↦ none_in e j q ]),
        λ (was, none_in). (zero p).1 (
          (c.zero_left p).1 (was, λ q. none_in edge (inl refl) (sym q)),
          λ e i. none_in e (inr i),
        ),
      ),
    )

-- Where every edge leads to a node of the graph, `roots` comes back, with just the nodes to which no
-- edge leads.
pub roots_lem :
    (g : Graph)
    → ((e : Edge) → In e g.edges → In e.to g.nodes)
    → (rs : List Ptr) × (roots g ≡ ok rs)
      × ((p : Ptr) → In p rs ↔ (In p g.nodes × ((e : Edge) → In e g.edges → e.to ≢ p)))
unfolding roots
roots_lem g inside =
    let start = count_nodes g.nodes [] in
    let (z, s, keys) = count_nodes_lem g.nodes [] tt tt in
    let (m, e, zero) = count_edges_lem g.edges start s (λ x i. (keys x.to).1 (inl (inside x i))) in
    (
      zeros m,
      rw e,
      λ p. (
        λ i.
            let (was, none_in) = (zero p).0 ((In-zeros p m).0 i) in
            (ground (arith, keys p, IsZero-AllZero p start z), none_in),
        λ (i, none_in).
            (In-zeros p m).1
              ((zero p).1 ((IsZero-AllZero p start z).1 ((keys p).1 (inl i)), none_in)),
      ),
    )
