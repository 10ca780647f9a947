-- ===== src/Db/Queries/NewestCall.antt =====
-- The newest of the calls on an edge decides, in any order of arrival.
use structur3d.Prelude.{
  ◌<◌, ◌≡◌, refl, ◌⊎◌, inl, inr, Bool, true, false, not, String, List, map, In, In-map, In-map_iff,
  arith, ok, for_each, Bool-cases,
}
use structur3d.Platform.{Platform, IsSql}
use structur3d.Data.{Uid, Timestamp}
use structur3d.Db.Rows.{Row, is_deleted}
use structur3d.Db.State.{Db}
use structur3d.Db.Queries.{is_alive}
use structur3d.Db.Queries.Edges.{IsEdge, Stands, StoredEdge}
use structur3d.Db.Queries.EdgeHistory.{Call, edge_row, call_on, calls-is_alive}

module _ {p : Platform} (laws : IsSql p.sql) (a b : Uid) (db : Db p) where
  -- The call is among the calls; every other one, and every row of the edge before them, is older.
  pub record IsNewestCall (cs : List Call) (t : Timestamp) (connects : Bool) : Type 0 where
    pub here : In (t, connects) cs
    pub others : (u : Timestamp) (c : Bool) → In (u, c) cs → (u < t) ⊎ ((u ≡ t) × (c ≡ connects))
    pub stored :
        (r : Row String)
        → StoredEdge laws db r
        → IsEdge (p.to_string a) (p.to_string b) r
        → r.timestamp < t

  -- What the calls and the rows before them say of the edge.
  abbrev Said : List Call → Row String → Type 0
  Said cs r = In r (map (edge_row (p.to_string a) (p.to_string b)) cs) ⊎ StoredEdge laws db r

  Said-lt_or_newest :
      (cs : List Call) (t : Timestamp) (connects : Bool) (r : Row String)
      → IsNewestCall cs t connects
      → Said cs r
      → IsEdge (p.to_string a) (p.to_string b) r
      → (r.timestamp < t) ⊎ ((r.timestamp ≡ t) × (r.deleted ≡ is_deleted (not connects)))
  unfolding is_deleted
  Said-lt_or_newest cs t connects r newest (inl i) edge =
      let ((u, c), j, same) = (In-map_iff (edge_row (p.to_string a) (p.to_string b)) r cs).0 i in
      elim (newest.others u c j) [
        | inl older ↦ inl (rw same older)
        | inr (time, way) ↦ inr (rw same time, rw (same, way) refl)
      ]
  Said-lt_or_newest cs t connects r newest (inr i) edge = inl (newest.stored r i edge)

  connects-Stands :
      (cs : List Call) (t : Timestamp)
      → IsNewestCall cs t true
      → Stands (Said cs) (p.to_string a) (p.to_string b)
  unfolding is_deleted
  connects-Stands cs t newest = record {
    row = edge_row (p.to_string a) (p.to_string b) (t, true);
    is_newest = record {
      member = inl (In-map (edge_row (p.to_string a) (p.to_string b)) (t, true) cs newest.here);
      edge = (refl, refl);
      newest = λ s i e. elim (Said-lt_or_newest cs t true s newest i e) [
        | inl older ↦ omega arith
        | inr (time, _) ↦ omega arith
      ];
    };
    alive = refl;
  }

  disconnects-not_Stands :
      (cs : List Call) (t : Timestamp)
      → IsNewestCall cs t false
      → ¬ Stands (Said cs) (p.to_string a) (p.to_string b)
  unfolding is_deleted
  disconnects-not_Stands cs t newest stands =
      let last : Said cs (edge_row (p.to_string a) (p.to_string b) (t, false)) =
        inl (In-map (edge_row (p.to_string a) (p.to_string b)) (t, false) cs newest.here) in
      let reached = stands.is_newest.newest _ last (refl, refl) in
      elim (Said-lt_or_newest cs t false stands.row newest stands.is_newest.member
        stands.is_newest.edge) [
          | inl older ↦ absurd (omega arith)
          | inr (_, gone) ↦ absurd (omega (arith, stands.alive))
        ]

  -- After any calls of `connect` and `disconnect` for one edge, none of which fails, in any order of arrival
  -- and with repetitions, the edge stands if the newest call connects and does not if it disconnects, where
  -- every other call and every row of the edge before them is older.
  pub newest_call-decides :
      (cs : List Call) (t : Timestamp) (connects : Bool)
      → IsNewestCall cs t connects
      → (db' : Db p) × (for_each cs (call_on a b) db ≡ ok db')
        × (is_alive db' (p.to_string a) (p.to_string b) ≡ connects)
  newest_call-decides cs t true newest =
      let (db', done, (_, alive), _) = calls-is_alive laws a b db cs in
      (db', done, alive (connects-Stands cs t newest))
  newest_call-decides cs t false newest =
      let (db', done, (alive, _), _) = calls-is_alive laws a b db cs in
      (
        db',
        done,
        elim (Bool-cases (is_alive db' (p.to_string a) (p.to_string b))) [
          | inl stands ↦ absurd (disconnects-not_Stands cs t newest (alive stands))
          | inr gone ↦ gone
        ],
      )
