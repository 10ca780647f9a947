-- ===== src/Db/Upserts.antt =====
-- Any history of the four upserts of src/db/DatabaseImpl.cpp, on all tables of attributes together.

pub mod Converge
use structur3d.Prelude.{
  ℕ, ◌≡◌, refl, Bool, true, false, ◌||◌, ◌==◌, Option, none, some, List, [], ◌∷◌, map, pick, In,
  inl, inr, Outcome, ok, abort, for_each, if◌then◌else◌,
}
use structur3d.Platform.{Engine, Platform}
use structur3d.Data.{Uid, Timestamp, Radius, SetOperationType, union, intersection}
use structur3d.Data.Codes.{from_operation_type}
use structur3d.Db.Rows.{Row, is_deleted, new_row, upsert_row}
use structur3d.Db.Rows.History.{Write, replay}
use structur3d.Db.State.{
  Db, check_type, upsert_radius, upsert_set_operation_type, upsert_coord, upsert_name, stored_coord,
}
use structur3d.Db.Queries.SphereHistory.{Move, move}
use structur3d.Db.Queries.SphereHistory
use structur3d.Db.Queries.NameHistory.{Naming, give}
use structur3d.Db.Queries.NameHistory

-- The arguments of a call with a radius.
pub record Resize (p : Platform) : Type 0 where
  pub entity : Uid
  pub radius : Radius p.floats
  pub timestamp : Timestamp

-- The arguments of a call with a type.
pub record Retype : Type 0 where
  pub entity : Uid
  pub type : SetOperationType
  pub timestamp : Timestamp

pub data Upsert (p : Platform) : Type 0 where
  moved : Move p → Upsert p
  resized : Resize p → Upsert p
  retyped : Retype → Upsert p
  named : Naming → Upsert p

abbrev pub type_write : Platform → Retype → Write ℕ
type_write p t = record {
  entity = p.to_string t.entity;
  value = from_operation_type t.type;
  timestamp = t.timestamp;
}

code-fits : (type : SetOperationType) → check_type (from_operation_type type) ≡ true
unfolding from_operation_type
code-fits union = refl
code-fits intersection = refl

module _ {p : Platform} where
  abbrev pub as_move : Upsert p → Option (Move p)
  as_move (moved m) = some m
  as_move (resized r) = none
  as_move (retyped t) = none
  as_move (named n) = none

  abbrev pub as_resize : Upsert p → Option (Resize p)
  as_resize (moved m) = none
  as_resize (resized r) = some r
  as_resize (retyped t) = none
  as_resize (named n) = none

  abbrev pub as_retype : Upsert p → Option Retype
  as_retype (moved m) = none
  as_retype (resized r) = none
  as_retype (retyped t) = some t
  as_retype (named n) = none

  abbrev pub as_naming : Upsert p → Option Naming
  as_naming (moved m) = none
  as_naming (resized r) = none
  as_naming (retyped t) = none
  as_naming (named n) = some n

  -- The call.
  abbrev pub perform : Upsert p → Db p → Outcome (Db p)
  perform (moved m) db = upsert_coord db m.entity m.coord m.timestamp
  perform (resized r) db = upsert_radius db r.entity r.radius r.timestamp
  perform (retyped t) db = upsert_set_operation_type db t.entity t.type t.timestamp
  perform (named n) db = upsert_name db n.entity n.name n.timestamp

  -- The column of the radii takes the magnitude.
  abbrev pub IsAccepted : Upsert p → Type 0
  IsAccepted (moved m) = Unit
  IsAccepted (resized r) = p.le p.zero_f (p.stored r.radius.magnitude) ≡ true
  IsAccepted (retyped t) = Unit
  IsAccepted (named n) = Unit

  abbrev pub radius_row : Resize p → Row p.Float
  radius_row r = new_row false r.timestamp (p.to_string r.entity) (p.stored r.radius.magnitude)

  pub insert_all : List (Resize p) → p.Table (Row p.Float) → p.Table (Row p.Float)
  insert_all [] table = table
  insert_all (r ∷ rs) table = insert_all rs (p.insert_into (radius_row r) table)

  -- What the tables are after the calls: each call is a transaction on the table of its attribute.
  abbrev pub upserted : Db p → List (Upsert p) → Db p
  upserted db us = record db {
    coord = replay p.sql db.coord (map SphereHistory.write_of (pick as_move us));
    radius = insert_all (pick as_resize us) db.radius;
    setoperationtype = replay p.sql db.setoperationtype (map (type_write p) (pick as_retype us));
    name = replay p.sql db.name (map (NameHistory.write_of p) (pick as_naming us));
  }

  abbrev pub AllAccepted : List (Upsert p) → Type 0
  AllAccepted us = (u : Upsert p) → In u us → IsAccepted u

  -- Calls that are accepted come back, and each of them changes the table of its attribute alone.
  pub for_each-perform :
      (us : List (Upsert p)) (db : Db p)
      → AllAccepted us
      → for_each us perform db ≡ ok (upserted db us)
  unfolding insert_all replay upsert_coord upsert_radius upsert_name upsert_set_operation_type
  for_each-perform [] db a = refl
  for_each-perform (moved m ∷ us) db a = for_each-perform us _ (λ u i. a u (inr i))
  for_each-perform (resized r ∷ us) db a =
      let fits = a (resized r) (inl refl) in rw fits (for_each-perform us _ (λ u i. a u (inr i)))
  for_each-perform (retyped t ∷ us) db a =
      rw (code-fits t.type) (for_each-perform us _ (λ u i. a u (inr i)))
  for_each-perform (named n ∷ us) db a = for_each-perform us _ (λ u i. a u (inr i))
