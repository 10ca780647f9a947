-- ===== src/Db/Interface.antt =====
-- include/db/Database.h: what the view model knows of a store, and the tables as one.
pub mod Edges
use structur3d.Prelude.{Option, List, Outcome}
use structur3d.Platform.{Floats, Platform}
use structur3d.Data.{Uid, Timestamp, Coord, Radius, Name, SetOperationType, NodeType, Sphere, SetOp}
use structur3d.Db.State
use structur3d.Db.State.{Db}
use structur3d.Db.Queries
use structur3d.Db.Queries.{DocumentWithName, IdWithType}

pub record Database (f : Floats) (S : Type 0) : Type 0 where
  pub upsert_radius : S → Uid → Radius f → Timestamp → Outcome S
  pub retract_radius : S → Uid → Radius f → Timestamp → Outcome S
  pub upsert_coord : S → Uid → Coord f → Timestamp → Outcome S
  pub retract_coord : S → Uid → Coord f → Timestamp → Outcome S
  pub upsert_set_operation_type : S → Uid → SetOperationType → Timestamp → Outcome S
  pub retract_set_operation_type : S → Uid → SetOperationType → Timestamp → Outcome S
  pub upsert_name : S → Uid → Name → Timestamp → Outcome S
  pub retract_name : S → Uid → Name → Timestamp → Outcome S
  pub connect : S → Uid → Uid → Timestamp → Outcome S
  pub disconnect : S → Uid → Uid → Timestamp → Outcome S
  pub edges : S → Uid → List Uid
  pub create : S → Uid → NodeType → Uid → Timestamp → Outcome S
  pub remove : S → Uid → Uid → Timestamp → Outcome S
  pub documents : S → Outcome (List DocumentWithName)
  pub entities : S → Uid → List IdWithType
  pub sphere : S → Uid → Outcome (Option (Sphere f))
  pub setop : S → Uid → Option SetOp

abbrev pub database_impl : (p : Platform) → Database p.floats (Db p)
database_impl p = record {
  upsert_radius = State.upsert_radius;
  retract_radius = State.retract_radius;
  upsert_coord = State.upsert_coord;
  retract_coord = State.retract_coord;
  upsert_set_operation_type = State.upsert_set_operation_type;
  retract_set_operation_type = State.retract_set_operation_type;
  upsert_name = State.upsert_name;
  retract_name = State.retract_name;
  connect = State.connect;
  disconnect = State.disconnect;
  edges = Queries.edges;
  create = State.create;
  remove = State.remove;
  documents = Queries.documents;
  entities = Queries.entities;
  sphere = Queries.sphere;
  setop = Queries.setop;
}
