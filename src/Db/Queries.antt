-- ===== src/Db/Queries.antt =====
-- src/db/DatabaseImpl.cpp: the calls that read.
pub mod Best
pub mod Edges
pub mod EdgeHistory
pub mod NewestCall
pub mod NewestMove
pub mod Removed
pub mod EdgeStore
pub mod Sweeps
pub mod Spheres
pub mod SphereHistory
pub mod Retractions
pub mod Names
pub mod NameHistory
pub mod Documents
pub mod Entities
pub mod Created
pub mod Total
use structur3d.Prelude.{
  ℕ, ◌≡◌, Bool, true, false, ◌&&◌, ◌||◌, String, Option, none, some, List, [], ◌∷◌, ◌++◌, map,
  Outcome, ok, abort, ◌>>=◌, ltb, ◌==◌, str_eq, if◌then◌else◌,
}
use structur3d.Platform.{Platform}
use structur3d.Data.{
  Uid, Timestamp, Coord, Radius, Name, SetOperationType, NodeType, Sphere, SetOp, make_radius,
}
use structur3d.Data.Codes.{to_operation_type, from_integral, distance_from_origin}
use structur3d.Data.Names.{make_name}
use structur3d.Db.Priority.{preferred_name}
use structur3d.Db.Rows.{Row, is_live, is_deleted, latest, max_timestamp, is_at}
use structur3d.Db.State.{Db, DocumentColumns}

-- include/db/DocumentWithName.h
pub record DocumentWithName : Type 0 where
  pub uid : Uid
  pub name : Name

-- include/db/IDWithType.h
pub record IdWithType : Type 0 where
  pub uid : Uid
  pub type : NodeType

-- The loop over the names of a document, all with the newest timestamp.
unfoldable pub preferred_of : Name → List (Row (List ℕ)) → Outcome Name
preferred_of latest_name [] = ok latest_name
preferred_of latest_name (row ∷ rows) = do
  this_name ← make_name row.value
  preferred_of (preferred_name latest_name this_name) rows

-- The loop over the rows of an edge with its newest timestamp.
unfoldable pub any_alive : List (Row String) → Bool
any_alive [] = false
any_alive (row ∷ rows) = row.deleted == 0 || any_alive rows

module _ (p : Platform) where
  unfoldable pub typed : List (Row DocumentColumns) → List IdWithType
  unfolding from_integral
  typed [] = []
  typed (row ∷ rows) = elim (from_integral row.value.type) [
    | none ↦ typed rows
    | some type ↦ record { uid = p.of_string row.entity; type = type } ∷ typed rows
  ]

  -- The loop over the radii: a larger one replaces the best.
  unfoldable pub max_radius : p.Float → List (Row p.Float) → p.Float
  max_radius best [] = best
  max_radius best (row ∷ rows) = max_radius (if p.lt best row.value then row.value else best) rows

  -- The loop over the coordinates: a farther one replaces the best.
  unfoldable pub farthest : Coord p.floats → List (Row (Coord p.floats)) → Coord p.floats
  farthest best [] = best
  farthest best (row ∷ rows) =
      farthest
        (if p.lt (distance_from_origin best) (distance_from_origin row.value)
          then row.value
          else best)
        rows

  unfoldable pub sphere_of :
      Uid → List (Row p.Float) → List (Row (Coord p.floats)) → Outcome (Option (Sphere p.floats))
  unfolding max_radius farthest make_radius
  sphere_of from [] coords = ok none
  sphere_of from (r ∷ radii) [] = ok none
  sphere_of from (r ∷ radii) (c ∷ coords) = do
    radius ← make_radius {f = p.floats} (max_radius r.value (r ∷ radii))
    ok (some (record { uid = from; coord = farthest c.value (c ∷ coords); radius = radius }))

module _ {p : Platform} where
  -- A turn of the loop of `documents`: the names of one document.
  unfoldable pub name_of_document : Db p → String → Outcome (Option Name)
  unfolding preferred_of
  name_of_document db document = elim (latest p.sql db.name document) [
    | [] ↦ ok none
    | first ∷ rest ↦ make_name first.value >>= λ name.
        preferred_of name (first ∷ rest) >>= λ latest_name. ok (some latest_name)
  ]

  unfoldable pub documents_among : Db p → List String → Outcome (List DocumentWithName)
  unfolding name_of_document
  documents_among db [] = ok []
  documents_among db (document ∷ documents) = do
    name ← name_of_document db document
    rest ← documents_among db documents
    ok (elim name [
      | none ↦ rest
      | some latest_name ↦ record { uid = p.of_string document; name = latest_name } ∷ rest
    ])

  unfoldable pub documents : Db p → Outcome (List DocumentWithName)
  unfolding documents_among
  documents db =
      let alive = p.select (λ r. r.deleted == is_deleted false) db.document in
      documents_among db (p.group_by (map (λ r. r.value.document) alive))

  unfoldable pub entities : Db p → Uid → List IdWithType
  unfolding typed
  entities db of_document =
      let did = p.to_string of_document in
      typed p (p.select (λ r. r.deleted == 0 && str_eq r.value.document did) db.document)

  -- `max(edge.timestamp)` of the group of one target
  unfoldable pub newest_edge : Db p → String → String → Option ℕ
  newest_edge db eid to =
      max_timestamp (p.select (λ r. str_eq r.entity eid && str_eq r.value to) db.edge)

  unfoldable pub latest_edges : Db p → String → String → List (Row String)
  unfolding newest_edge
  latest_edges db eid to =
      let newest = newest_edge db eid to in
      p.select (λ r. str_eq r.entity eid && str_eq r.value to && is_at newest r.timestamp) db.edge

  -- The flag `alive` of one turn of the loop.
  unfoldable pub is_alive : Db p → String → String → Bool
  unfolding any_alive latest_edges
  is_alive db eid to = any_alive (latest_edges db eid to)

  unfoldable pub alive_among : Db p → String → List String → List Uid
  unfolding is_alive
  alive_among db eid [] = []
  alive_among db eid (to ∷ tos) =
      if is_alive db eid to then p.of_string to ∷ alive_among db eid tos else alive_among db eid tos

  unfoldable pub edges : Db p → Uid → List Uid
  unfolding alive_among
  edges db of_entity =
      let eid = p.to_string of_entity in
      alive_among db eid
        (p.group_by (map (λ r. r.value) (p.select (λ r. str_eq r.entity eid) db.edge)))

  unfoldable pub sphere : Db p → Uid → Outcome (Option (Sphere p.floats))
  unfolding sphere_of
  sphere db from =
      let eid = p.to_string from in
      elim (p.newest (λ r. r.timestamp) (p.select (is_live eid) db.document)) [
        | none ↦ ok none
        | some row ↦ sphere_of p from (latest p.sql db.radius eid) (latest p.sql db.coord eid)
      ]

  unfoldable pub setop : Db p → Uid → Option SetOp
  unfolding to_operation_type
  setop db from =
      let eid = p.to_string from in
      elim (p.newest (λ r. r.timestamp) (p.select (is_live eid) db.setoperationtype)) [
        | none ↦ none
        | some row ↦ elim (to_operation_type row.value) [
          | none ↦ none
          | some type ↦ some (record { uid = from; type = type })
        ]
      ]
