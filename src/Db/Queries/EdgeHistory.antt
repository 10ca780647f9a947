-- ===== src/Db/Queries/EdgeHistory.antt =====
-- A history of `connect` and `disconnect` of one edge, in any order of arrival.
use structur3d.Prelude.{
  ℕ, ◌<◌, ◌≡◌, refl, sym, ◌⊎◌, ◌↔◌, Bool, true, false, not, String, List, [], ◌∷◌, map, In, arith,
  if◌then◌else◌, Outcome, ok, for_each,
}
use structur3d.Platform.{Engine, Platform, IsSql, IsCodec, rows}
use structur3d.Data.{Uid, Timestamp}
use structur3d.Db.Rows.{Row, is_deleted, new_row}
use structur3d.Db.State.{Db, is_edge_garbage, connect_row, connect, disconnect}
use structur3d.Db.Queries.{is_alive, edges}
use structur3d.Db.Queries.Edges.{IsEdge, IsNewestEdge, Stands, StoredEdge, is_alive_iff, edges_iff}

-- A call on the edge: its time, and whether it connects.
abbrev pub Call : Type 0
Call = Timestamp × Bool

abbrev pub edge_row : String → String → Call → Row String
edge_row from to (t, connects) = new_row (not connects) t from to

-- The calls as transactions on the table.
replay_calls :
    (sql : Engine) → sql.Table (Row String) → String → String → List Call → sql.Table (Row String)
replay_calls sql table from to [] = table
replay_calls sql table from to ((t, connects) ∷ cs) =
    replay_calls sql (connect_row sql table from to t (not connects)) from to cs

IsNewestEdge-iff :
    (M N : Row String → Type 0) (from to : String) (r : Row String)
    → ((s : Row String) → IsEdge from to s → M s ↔ N s)
    → IsNewestEdge M from to r ↔ IsNewestEdge N from to r
IsNewestEdge-iff M N from to r h = (
  λ n. record {
    member = (h r n.edge).0 n.member;
    edge = n.edge;
    newest = λ s i e. n.newest s ((h s e).1 i) e;
  },
  λ n. record {
    member = (h r n.edge).1 n.member;
    edge = n.edge;
    newest = λ s i e. n.newest s ((h s e).0 i) e;
  },
)

Stands-iff :
    (M N : Row String → Type 0) (from to : String)
    → ((r : Row String) → IsNewestEdge M from to r ↔ IsNewestEdge N from to r)
    → Stands M from to ↔ Stands N from to
Stands-iff M N from to h = (
  λ s. record { row = s.row; is_newest = (h s.row).0 s.is_newest; alive = s.alive },
  λ s. record { row = s.row; is_newest = (h s.row).1 s.is_newest; alive = s.alive },
)

pub edge_garbage-older :
    (from to : String) (t : ℕ) (r : Row String)
    → is_edge_garbage from to t r ≡ true
    → r.timestamp < t
unfolding is_deleted
edge_garbage-older from to t r h = ground arith

module _ {sql : Engine} (laws : IsSql sql) where
  pub In-connect_row :
      (table : sql.Table (Row String)) (from to : String) (t : ℕ) (d : Bool) (r : Row String)
      → In r (rows sql (connect_row sql table from to t d)) ↔ (
          (r ≡ new_row d t from to)
          ⊎ (In r (rows sql table) × (is_edge_garbage from to t r ≡ false)))
  unfolding connect_row
  In-connect_row table from to t d r = ground (
    arith,
    laws.in-insert r (new_row d t from to) (sql.remove_from (is_edge_garbage from to t) table),
    laws.in-remove r (is_edge_garbage from to t) table,
  )

  -- A call leaves the newest rows of its edge those of the table and the new row together.
  connect_row-IsNewestEdge :
      (E : Row String → Type 0) (table : sql.Table (Row String)) (from to : String) (t : ℕ)
      (d : Bool) (r : Row String)
      → IsNewestEdge (λ s. E s ⊎ In s (rows sql (connect_row sql table from to t d))) from to r
        ↔ IsNewestEdge (λ s. (s ≡ new_row d t from to) ⊎ E s ⊎ In s (rows sql table)) from to r
  connect_row-IsNewestEdge E table from to t d r =
      let new = new_row d t from to in
      let stored = In-connect_row table from to t d in
      (
        λ n. record {
          member = ground (arith, stored r, n.member);
          edge = n.edge;
          newest = λ s i e. ground (
            arith,
            i,
            stored s,
            stored new,
            n.newest s,
            n.newest new,
            edge_garbage-older from to t s,
          );
        },
        λ n. record {
          member = ground (arith, stored r, n.member, n.newest new, edge_garbage-older from to t r);
          edge = n.edge;
          newest = λ s i e. ground (arith, stored s, n.newest s, i);
        },
      )

  replay_calls-IsNewestEdge :
      (table : sql.Table (Row String)) (from to : String) (cs : List Call) (r : Row String)
      → IsNewestEdge (λ s. In s (rows sql (replay_calls sql table from to cs))) from to r
        ↔ IsNewestEdge (λ s. In s (map (edge_row from to) cs) ⊎ In s (rows sql table)) from to r
  unfolding replay_calls
  replay_calls-IsNewestEdge table from to [] r = IsNewestEdge-iff _ _ from to r λ s _. ground arith
  replay_calls-IsNewestEdge table from to ((t, c) ∷ cs) r =
      let after = connect_row sql table from to t (not c) in
      let E = λ (s : Row String). In s (map (edge_row from to) cs) in
      let (in_, out) = replay_calls-IsNewestEdge after from to cs r in
      let (in', out') = connect_row-IsNewestEdge E table from to t (not c) r in
      let (in'', out'') =
        IsNewestEdge-iff (λ s. (s ≡ new_row (not c) t from to) ⊎ E s ⊎ In s (rows sql table))
          (λ s. In s (map (edge_row from to) ((t, c) ∷ cs)) ⊎ In s (rows sql table)) from to r
          (λ s _. ground arith) in
      (λ n. in'' (in' (in_ n)), λ n. out (out' (out'' n)))

module _ {p : Platform} (a b : Uid) where
  -- A call of `connect` or `disconnect` for the edge.
  abbrev pub call_on : Call → Db p → Outcome (Db p)
  call_on (t, connects) db = if connects then connect db a b t else disconnect db a b t

  for_each-call_on :
      (cs : List Call) (db : Db p)
      → for_each cs call_on db
        ≡ ok (record db { edge = replay_calls p.sql db.edge (p.to_string a) (p.to_string b) cs })
  unfolding replay_calls connect disconnect
  for_each-call_on [] db = refl
  for_each-call_on ((t, true) ∷ cs) db = for_each-call_on cs _
  for_each-call_on ((t, false) ∷ cs) db = for_each-call_on cs _

module _ {p : Platform} (laws : IsSql p.sql) where
  -- After any calls of `connect` and `disconnect` for one edge, in any order of arrival, none of which
  -- fails, `edges` finds that the edge stands just where one of the newest entries among the calls
  -- and the rows of the edge before them connects; and then the target is among the edges.
  pub calls-is_alive :
      (a b : Uid) (db : Db p) (cs : List Call)
      → (db' : Db p) × (for_each cs (call_on a b) db ≡ ok db')
        × ((is_alive db' (p.to_string a) (p.to_string b) ≡ true)
            ↔ Stands
                (λ r.
                  In r (map (edge_row (p.to_string a) (p.to_string b)) cs) ⊎ StoredEdge laws db r)
                (p.to_string a)
                (p.to_string b))
        × (IsCodec p.uuids
            → is_alive db' (p.to_string a) (p.to_string b) ≡ true
            → In b (edges db' a))
  calls-is_alive a b db cs =
      let from = p.to_string a in
      let to = p.to_string b in
      let db' : Db p = record db { edge = replay_calls p.sql db.edge from to cs } in
      let alive = is_alive_iff laws db' from to in
      let same =
        Stands-iff (StoredEdge laws db')
          (λ r. In r (map (edge_row from to) cs) ⊎ StoredEdge laws db r) from to
          (replay_calls-IsNewestEdge laws db.edge from to cs) in
      (
        db',
        for_each-call_on a b cs db,
        (λ h. same.0 (alive.0 h), λ s. alive.1 (same.1 s)),
        λ codec h. (edges_iff laws db' a b).1 (to, alive.0 h, sym (codec b)),
      )
