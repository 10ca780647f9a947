-- ===== src/Db/Queries/EdgeStore.antt =====
-- The tables as a store of edges: what one call leaves of them.
use structur3d.Prelude.{
  ℕ, ◌≤◌, ◌≡◌, refl, sym, ◌∙◌, ap, subst, inl, inr, ◌⊎◌, ◌↔◌, Bool, true, false, String, In, arith,
  Outcome, ok, ok-injective, str_eq, ◌&&◌, eq_iff, Bool-cases, if◌then◌else◌, abort,
}
use structur3d.Platform.{Platform, IsSql, IsCodec, codec-injective, rows}
use structur3d.Data.{Uid, Timestamp}
use structur3d.Db.Rows.{Row, is_deleted, new_row}
use structur3d.Db.State.{
  Db, is_edge_garbage, connect_row, connect, disconnect, upsert_radius, retract_radius,
  upsert_coord, retract_coord, upsert_set_operation_type, retract_set_operation_type, upsert_name,
  retract_name, create, remove,
}
use structur3d.Db.Interface.{database_impl}
use structur3d.Db.Interface.Edges.{
  Has, IsOther, IsEdgeStore, radius_upserted, radius_retracted, coord_upserted, coord_retracted,
  type_upserted, type_retracted, name_upserted, name_retracted, created, removed,
}
use structur3d.Db.Queries.Edges.{IsEdge, Stands, StoredEdge, edges_iff}
use structur3d.Db.Queries.EdgeHistory.{In-connect_row}

-- No row of the edge is newer.
abbrev pub Timely : {p : Platform} → Db p → Uid → Uid → Timestamp → Type 0
Timely {p} db from to t =
    (r : Row String)
    → In r (rows p.sql db.edge)
    → IsEdge (p.to_string from) (p.to_string to) r
    → r.timestamp ≤ t

module _ {p : Platform} (laws : IsSql p.sql) where
  In-connected :
      (db db' : Db p) (from to : String) (t : ℕ) (deleted : Bool)
      → connect_row p.sql db.edge from to t deleted ≡ db'.edge
      → (r : Row String)
      → StoredEdge laws db' r ↔ (
          (r ≡ new_row deleted t from to)
          ⊎ (StoredEdge laws db r × (is_edge_garbage from to t r ≡ false)))
  In-connected db db' from to t deleted same r =
      subst
        (λ (table : p.Table (Row String)). In r (rows p.sql table) ↔ (
          (r ≡ new_row deleted t from to)
          ⊎ (StoredEdge laws db r × (is_edge_garbage from to t r ≡ false))))
        same (In-connect_row laws db.edge from to t deleted r)

  connected-Stands :
      (db db' : Db p) (from to : String) (t : ℕ)
      → ((r : Row String) → StoredEdge laws db r → IsEdge from to r → r.timestamp ≤ t)
      → connect_row p.sql db.edge from to t false ≡ db'.edge
      → Stands (StoredEdge laws db') from to
  unfolding is_deleted
  connected-Stands db db' from to t timely same =
      let stored = In-connected db db' from to t false same in
      record {
        row = new_row false t from to;
        is_newest = record {
          member = (stored (new_row false t from to)).1 (inl refl);
          edge = (refl, refl);
          newest = λ s i e. elim ((stored s).0 i) [
            | inl new ↦ omega (arith, ap (λ (r : Row String). r.timestamp) new)
            | inr (old, _) ↦ timely s old e
          ];
        };
        alive = refl;
      }

  -- A call on one edge leaves another one standing.
  called-Stands :
      (db db' : Db p) (from to : String) (t : ℕ) (deleted : Bool) (a b : String)
      → connect_row p.sql db.edge from to t deleted ≡ db'.edge
      → ¬ ((a ≡ from) × (b ≡ to))
      → Stands (StoredEdge laws db) a b
      → Stands (StoredEdge laws db') a b
  unfolding is_deleted
  called-Stands db db' from to t deleted a b same other s =
      let stored = In-connected db db' from to t deleted same in
      record {
        row = s.row;
        is_newest = record {
          member = (stored s.row).1 (inr (s.is_newest.member, kept));
          edge = s.is_newest.edge;
          newest = λ r i e. elim ((stored r).0 i) [
            | inl new ↦ absurd (
                other (
                  sym e.0 ∙ ap (λ (x : Row String). x.entity) new,
                  sym e.1 ∙ ap (λ (x : Row String). x.value) new,
                ))
            | inr (old, _) ↦ s.is_newest.newest r old e
          ];
        };
        alive = s.alive;
      }
    where
      kept : is_edge_garbage from to t s.row ≡ false
      kept = ground (
        arith,
        eq_iff s.row.entity from,
        eq_iff s.row.value to,
        s.is_newest.edge.0,
        s.is_newest.edge.1,
        s.alive,
        other,
      )

-- A statement that no CHECK constraint refuses.
pub accepted :
    {p : Platform} (c : Bool) (u db' : Db p) → (if c then ok u else abort) ≡ ok db' → ok u ≡ ok db'
accepted true u db' h = h
accepted false u db' h = absurd (cc)

module _ {p : Platform} (laws : IsSql p.sql) where
  -- A call that leaves the table of edges as it is.
  same_edge-Has :
      (db db' u : Db p) (a b : Uid)
      → u.edge ≡ db.edge
      → ok u ≡ ok db'
      → Has (database_impl p) db a b
      → Has (database_impl p) db' a b
  same_edge-Has db db' u a b same h has =
      let edge_eq : db.edge ≡ db'.edge = sym same ∙ ap (λ (x : Db p). x.edge) (ok-injective h) in
      let (to, stands, read) = (edges_iff laws db a b).0 has in
      (edges_iff laws db' a b).1 (
        to,
        subst
            (λ (table : p.Table (Row String)).
              Stands (λ r. In r (rows p.sql table)) (p.to_string a) to)
            edge_eq stands,
        read,
      )

  other-Has :
      (call : Db p → Outcome (Db p)) (db db' : Db p) (a b : Uid)
      → IsOther (database_impl p) call
      → call db ≡ ok db'
      → Has (database_impl p) db a b
      → Has (database_impl p) db' a b
  unfolding upsert_radius retract_radius upsert_coord retract_coord upsert_set_operation_type
      retract_set_operation_type upsert_name retract_name create remove
  other-Has call db db' a b (radius_upserted e r t) h =
      same_edge-Has db db' _ a b refl (accepted _ _ db' h)
  other-Has call db db' a b (radius_retracted e r t) h =
      same_edge-Has db db' _ a b refl (accepted _ _ db' h)
  other-Has call db db' a b (coord_upserted e c t) h = same_edge-Has db db' _ a b refl h
  other-Has call db db' a b (coord_retracted e c t) h = same_edge-Has db db' _ a b refl h
  other-Has call db db' a b (type_upserted e type t) h =
      same_edge-Has db db' _ a b refl (accepted _ _ db' h)
  other-Has call db db' a b (type_retracted e type t) h =
      same_edge-Has db db' _ a b refl (accepted _ _ db' h)
  other-Has call db db' a b (name_upserted e n t) h = same_edge-Has db db' _ a b refl h
  other-Has call db db' a b (name_retracted e n t) h = same_edge-Has db db' _ a b refl h
  other-Has call db db' a b (created e type document t) h = same_edge-Has db db' _ a b refl h
  other-Has call db db' a b (removed e document t) h = same_edge-Has db db' _ a b refl h

module _ {p : Platform} (laws : IsSql p.sql) (codec : IsCodec p.uuids) where
  disconnect-Has_other :
      (db db' : Db p) (from to : Uid) (t : Timestamp) (a b : Uid)
      → disconnect db from to t ≡ ok db'
      → ¬ ((a ≡ from) × (b ≡ to))
      → Has (database_impl p) db a b
      → Has (database_impl p) db' a b
  unfolding disconnect
  disconnect-Has_other db db' from to t a b h other has =
      let (text, stands, read) = (edges_iff laws db a b).0 has in
      (edges_iff laws db' a b).1 (
        text,
        called-Stands laws db db' (p.to_string from) (p.to_string to) t true (p.to_string a) text
            (ap (λ (x : Db p). x.edge) (ok-injective h))
            (λ (one, two).
              other
                (codec-injective p.uuids codec a from one, read ∙ (ap p.of_string two ∙ codec to)))
            stands,
        read,
      )

  connect-Has :
      (db db' : Db p) (from to : Uid) (t : Timestamp)
      → Timely db from to t
      → connect db from to t ≡ ok db'
      → Has (database_impl p) db' from to
  unfolding connect
  connect-Has db db' from to t timely h = (edges_iff laws db' from to).1 (
    p.to_string to,
    connected-Stands laws db db' (p.to_string from) (p.to_string to) t timely
        (ap (λ (x : Db p). x.edge) (ok-injective h)),
    sym (codec to),
  )

  connect-Has_other :
      (db db' : Db p) (from to : Uid) (t : Timestamp) (a b : Uid)
      → Timely db from to t
      → connect db from to t ≡ ok db'
      → Has (database_impl p) db a b
      → Has (database_impl p) db' a b
  unfolding connect
  connect-Has_other db db' from to t a b timely h has =
      let (text, stands, read) = (edges_iff laws db a b).0 has in
      let sa = p.to_string a in
      let sf = p.to_string from in
      let st = p.to_string to in
      let edge_eq : connect_row p.sql db.edge sf st t false ≡ db'.edge =
        ap (λ (x : Db p). x.edge) (ok-injective h) in
      let here : Stands (StoredEdge laws db') sa text =
        elim (Bool-cases (str_eq sa sf && str_eq text st)) [
          | inl hit ↦
              let one : sa ≡ sf = ground (arith, eq_iff sa sf) in
              let two : text ≡ st = ground (arith, eq_iff text st) in
              rw (one, two) (connected-Stands laws db db' sf st t timely edge_eq)
          | inr miss ↦
              called-Stands laws db db' sf st t false sa text edge_eq
                (λ (one, two). ground (arith, eq_iff sa sf, eq_iff text st)) stands
        ] in
      (edges_iff laws db' a b).1 (text, here, read)

  -- The tables keep the laws of a store of edges.
  pub IsEdgeStore-database_impl : IsEdgeStore (database_impl p) Timely
  IsEdgeStore-database_impl = record {
    other-Has = other-Has laws;
    connect-Has = connect-Has;
    connect-Has_other = connect-Has_other;
    disconnect-Has_other = disconnect-Has_other;
  }
