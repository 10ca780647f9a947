-- ===== src/Db/Interface/Edges.antt =====
-- What the edges of a store are after a call of it.
use structur3d.Prelude.{◌≡◌, In, Outcome, ok}
use structur3d.Platform.{Floats}
use structur3d.Data.{Uid, Timestamp, Coord, Radius, Name, SetOperationType, NodeType}
use structur3d.Db.Interface.{Database}

module _ {f : Floats} {S : Type 0} (d : Database f S) where
  -- The store has an edge.
  abbrev pub Has : S → Uid → Uid → Type 0
  Has db from to = In to (d.edges db from)

  -- The calls that change something else.
  pub data IsOther : (S → Outcome S) → Type 0 where
    radius_upserted :
        (e : Uid) (r : Radius f) (t : Timestamp) → IsOther (λ db. d.upsert_radius db e r t)
    radius_retracted :
        (e : Uid) (r : Radius f) (t : Timestamp) → IsOther (λ db. d.retract_radius db e r t)
    coord_upserted :
        (e : Uid) (c : Coord f) (t : Timestamp) → IsOther (λ db. d.upsert_coord db e c t)
    coord_retracted :
        (e : Uid) (c : Coord f) (t : Timestamp) → IsOther (λ db. d.retract_coord db e c t)
    type_upserted :
        (e : Uid) (type : SetOperationType) (t : Timestamp)
        → IsOther (λ db. d.upsert_set_operation_type db e type t)
    type_retracted :
        (e : Uid) (type : SetOperationType) (t : Timestamp)
        → IsOther (λ db. d.retract_set_operation_type db e type t)
    name_upserted : (e : Uid) (n : Name) (t : Timestamp) → IsOther (λ db. d.upsert_name db e n t)
    name_retracted : (e : Uid) (n : Name) (t : Timestamp) → IsOther (λ db. d.retract_name db e n t)
    created :
        (e : Uid) (type : NodeType) (document : Uid) (t : Timestamp)
        → IsOther (λ db. d.create db e type document t)
    removed : (e document : Uid) (t : Timestamp) → IsOther (λ db. d.remove db e document t)

  -- An edge that is connected in time is there, and no call removes another edge than the one that it
  -- disconnects.
  pub record IsEdgeStore (Timely : S → Uid → Uid → Timestamp → Type 0) : Type 0 where
    pub other-Has :
        (call : S → Outcome S) (db db' : S) (a b : Uid)
        → IsOther call
        → call db ≡ ok db'
        → Has db a b
        → Has db' a b
    pub connect-Has :
        (db db' : S) (from to : Uid) (t : Timestamp)
        → Timely db from to t
        → d.connect db from to t ≡ ok db'
        → Has db' from to
    pub connect-Has_other :
        (db db' : S) (from to : Uid) (t : Timestamp) (a b : Uid)
        → Timely db from to t
        → d.connect db from to t ≡ ok db'
        → Has db a b
        → Has db' a b
    pub disconnect-Has_other :
        (db db' : S) (from to : Uid) (t : Timestamp) (a b : Uid)
        → d.disconnect db from to t ≡ ok db'
        → ¬ ((a ≡ from) × (b ≡ to))
        → Has db a b
        → Has db' a b
