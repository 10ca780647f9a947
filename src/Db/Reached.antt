-- ===== src/Db/Reached.antt =====
-- The stores that calls lead to, from the empty one.
use structur3d.Prelude.{
  ◌≡◌, ◌≢◌, refl, sym, ◌∙◌, ap, subst, inl, inr, Bool, true, false, String, In, Outcome, ok,
  ok-injective, abort, if◌then◌else◌, Bool-cases,
}
use structur3d.Platform.{Platform, IsSql, IsCodec, rows}
use structur3d.Data.{Uid, Timestamp}
use structur3d.Db.Rows.{Row, new_row}
use structur3d.Db.State.{
  Db, make_database, connect, disconnect, upsert_radius, retract_radius, upsert_coord,
  retract_coord, upsert_set_operation_type, retract_set_operation_type, upsert_name, retract_name,
  create, remove, connect_row,
}
use structur3d.Db.Interface.{database_impl}
use structur3d.Db.Interface.Edges.{
  IsOther, radius_upserted, radius_retracted, coord_upserted, coord_retracted, type_upserted,
  type_retracted, name_upserted, name_retracted, created, removed,
}
use structur3d.Db.Queries.EdgeHistory.{In-connect_row}
use structur3d.Db.Queries.EdgeStore.{accepted}

-- A store after calls that came back, where each edge has two ends.
pub data Reached (p : Platform) : Db p → Type 0 where
  empty : Reached p (make_database p)
  changed :
      (db db' : Db p) (call : Db p → Outcome (Db p))
      → IsOther (database_impl p) call
      → call db ≡ ok db'
      → Reached p db
      → Reached p db'
  connected :
      (db db' : Db p) (from to : Uid) (t : Timestamp)
      → from ≢ to
      → connect db from to t ≡ ok db'
      → Reached p db
      → Reached p db'
  disconnected :
      (db db' : Db p) (from to : Uid) (t : Timestamp)
      → from ≢ to
      → disconnect db from to t ≡ ok db'
      → Reached p db
      → Reached p db'

module _ (p : Platform) where
  abbrev pub RadiiFit : p.Table (Row p.Float) → Type 0
  RadiiFit table = (r : Row p.Float) → In r (rows p.sql table) → p.le p.zero_f r.value ≡ true

  abbrev pub EdgesApart : p.Table (Row String) → Type 0
  EdgesApart table =
      (r : Row String) → In r (rows p.sql table) → p.of_string r.entity ≢ p.of_string r.value

module _ {p : Platform} (laws : IsSql p.sql) where
  -- No radius is negative, and no edge has the same uid at both ends.
  pub record IsClean (db : Db p) : Type 0 where
    pub radii : RadiiFit p db.radius
    pub edges : EdgesApart p db.edge

  -- A call that leaves both tables as they are.
  same-IsClean :
      (db u db' : Db p)
      → u.radius ≡ db.radius
      → u.edge ≡ db.edge
      → ok u ≡ ok db'
      → IsClean db
      → IsClean db'
  same-IsClean db u db' radius_eq edge_eq h clean =
      let same : u ≡ db' = ok-injective h in
      record {
        radii = subst (RadiiFit p) (sym radius_eq ∙ ap (λ (x : Db p). x.radius) same) clean.radii;
        edges = subst (EdgesApart p) (sym edge_eq ∙ ap (λ (x : Db p). x.edge) same) clean.edges;
      }

  radius-IsClean :
      (db db' : Db p) (e : Uid) (m : p.Float) (t : Timestamp) (deleted : Bool)
      → (if p.le p.zero_f (p.stored m)
          then ok (record db {
            radius = p.insert_into (new_row deleted t (p.to_string e) (p.stored m)) db.radius;
          })
          else abort)
        ≡ ok db'
      → IsClean db
      → IsClean db'
  radius-IsClean db db' e m t deleted h clean = elim (Bool-cases (p.le p.zero_f (p.stored m))) [
    | inl fits ↦ subst IsClean (ok-injective (rw fits at h)) record {
      radii = λ r i. elim ((laws.in-insert r _ db.radius).0 i) [
        | inl new ↦ rw new fits
        | inr old ↦ clean.radii r old
      ];
      edges = clean.edges;
    }
    | inr fails ↦ let bad = rw fails at h in absurd (cc)
  ]

  other-IsClean :
      (db db' : Db p) (call : Db p → Outcome (Db p))
      → IsOther (database_impl p) call
      → call db ≡ ok db'
      → IsClean db
      → IsClean db'
  unfolding upsert_radius retract_radius upsert_coord retract_coord upsert_set_operation_type
      retract_set_operation_type upsert_name retract_name create remove
  other-IsClean db db' call (radius_upserted e r t) h =
      radius-IsClean db db' e r.magnitude t false h
  other-IsClean db db' call (radius_retracted e r t) h =
      radius-IsClean db db' e r.magnitude t true h
  other-IsClean db db' call (coord_upserted e c t) h = same-IsClean db _ db' refl refl h
  other-IsClean db db' call (coord_retracted e c t) h = same-IsClean db _ db' refl refl h
  other-IsClean db db' call (type_upserted e type t) h =
      same-IsClean db _ db' refl refl (accepted _ _ db' h)
  other-IsClean db db' call (type_retracted e type t) h =
      same-IsClean db _ db' refl refl (accepted _ _ db' h)
  other-IsClean db db' call (name_upserted e n t) h = same-IsClean db _ db' refl refl h
  other-IsClean db db' call (name_retracted e n t) h = same-IsClean db _ db' refl refl h
  other-IsClean db db' call (created e type d t) h = same-IsClean db _ db' refl refl h
  other-IsClean db db' call (removed e d t) h = same-IsClean db _ db' refl refl h

  connect_row-IsClean :
      (codec : IsCodec p.uuids) (db db' : Db p) (from to : Uid) (t : Timestamp) (deleted : Bool)
      → from ≢ to
      → ok (record db {
        edge = connect_row p.sql db.edge (p.to_string from) (p.to_string to) t deleted;
      })
        ≡ ok db'
      → IsClean db
      → IsClean db'
  connect_row-IsClean codec db db' from to t deleted ne h clean =
      subst IsClean (ok-injective h) record {
        radii = clean.radii;
        edges = λ r i loop.
            elim ((In-connect_row laws db.edge (p.to_string from) (p.to_string to) t deleted r).0
              i) [
                | inl new ↦ ne (
                    sym (codec from)
                    ∙ (sym (ap (λ (x : Row String). p.of_string x.entity) new)
                        ∙ (loop ∙ (ap (λ (x : Row String). p.of_string x.value) new ∙ codec to))))
                | inr (old, _) ↦ clean.edges r old loop
              ];
      }

  pub Reached-IsClean : IsCodec p.uuids → (db : Db p) → Reached p db → IsClean db
  unfolding make_database connect disconnect
  Reached-IsClean codec _ empty = record {
    radii = λ r i. absurd (laws.in-create r i);
    edges = λ r i. absurd (laws.in-create r i);
  }
  Reached-IsClean codec _ (changed db db' call other h reached) =
      other-IsClean db db' call other h (Reached-IsClean codec db reached)
  Reached-IsClean codec _ (connected db db' from to t ne h reached) =
      connect_row-IsClean codec db db' from to t false ne h (Reached-IsClean codec db reached)
  Reached-IsClean codec _ (disconnected db db' from to t ne h reached) =
      connect_row-IsClean codec db db' from to t true ne h (Reached-IsClean codec db reached)
