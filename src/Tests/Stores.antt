-- ===== src/Tests/Stores.antt =====
-- Tables of a client's store.
mod Documents
mod Upserts
use structur3d.Prelude.{
  ℕ, ◌≡◌, refl, ◌↔◌, ◌⊎◌, true, false, String, Option, inl, inr, some, none, List, [], ◌∷◌, map, In,
  arith, eq_iff, ok, for_each,
}
use structur3d.Platform.{rows, IsCodec}
use structur3d.Platform.Memory.{
  list_engine, list_engine-IsSql, letter_uuids, whole, whole-IsOrdered, memory,
}
use structur3d.Data.{Coord, Sphere, make_radius, Name, NodeType}
use structur3d.Data.Codes.{distance_from_origin, from_integral}
use structur3d.Db.Rows.{
  Row, is_deleted, max_timestamp, last_writer_wins_timestamp, new_row, upsert_row, latest,
}
use structur3d.Db.Rows.Newest.{IsNewest}
use structur3d.Db.Rows.History.{row_of}
use structur3d.Db.State.{
  Db, DocumentColumns, connect_row, retract_coord, retract_radius, upsert_i_coord, upsert_i_radius,
}
use structur3d.Db.Queries.{
  sphere, sphere_of, max_radius, farthest, is_alive, edges, name_of_document, DocumentWithName,
  documents, entities,
}
use structur3d.Db.Queries.Spheres.{
  IsSphereOf, IsBestOf, NewestRadius, NoLive, sphere-IsSphereOf, sphere-none_iff,
}
use structur3d.Db.Queries.SphereHistory.{Move, move, write_of, sphere-moves}
use structur3d.Db.Queries.Edges.{Stands, StoredEdge, edges_iff}
use structur3d.Db.Queries.Sweeps.{sweep_resurrects}
use structur3d.Db.Queries.NewestMove.{IsNewestMove, newest_move-decides}
use structur3d.Db.Queries.NewestCall.{IsNewestCall, newest_call-decides}
use structur3d.Db.Queries.EdgeHistory.{Call, call_on, edge_row, calls-is_alive}
use structur3d.Db.Queries.NameHistory.{Naming, give, AllTexts, names_converge}
use structur3d.Db.Queries.Documents.{HasEntity, documents_lem}
use structur3d.Db.Queries.Entities.{entities_iff}
use structur3d.Db.Queries.Retractions.{retract_coord-live, retract_radius-latest}

abbrev pub at_x : ℕ → Coord whole
at_x n = record { x = n; y = 0; z = 0 }

-- The entity 1 of the document 2 is a sphere at 3 with the radius 5, and 1 has an edge to 4.
abbrev pub ball_db : Db memory
ball_db = record {
  edge = new_row false 1 "u" "uuuu" ∷ [];
  radius = new_row false 1 "u" 5 ∷ [];
  coord = new_row false 1 "u" (at_x 3) ∷ [];
  setoperationtype = [];
  document = new_row false 1 "u" (record { type = 0; document = "uu" }) ∷ [];
  name = [];
}

abbrev ball : Sphere whole
ball = record { uid = 1; coord = at_x 3; radius = record { magnitude = 5 } }

ball_found : sphere ball_db 1 ≡ ok (some ball)
unfolding sphere sphere_of max_radius farthest make_radius latest last_writer_wins_timestamp
    max_timestamp is_deleted distance_from_origin
ball_found = refl

sphere-IsSphereOf_example : IsSphereOf ball_db 1 ball
sphere-IsSphereOf_example =
    sphere-IsSphereOf memory whole-IsOrdered list_engine-IsSql ball_db 1 ball ball_found

sphere-none_iff_example : (sphere ball_db 1 ≡ ok none) ↔ (
    NoLive memory ball_db.document 1
    ⊎ NoLive memory ball_db.radius 1
    ⊎ NoLive memory ball_db.coord 1)
sphere-none_iff_example = sphere-none_iff memory list_engine-IsSql ball_db 1

-- A late move, and an older one that arrives after it.
abbrev moves : List (Move memory)
moves =
    record { entity = 1; coord = at_x 9; timestamp = 7 }
    ∷ record { entity = 1; coord = at_x 4; timestamp = 5 }
    ∷ []

sphere-moves_example :
    (db' : Db memory) × (for_each moves move ball_db ≡ ok db')
    × ((s : Sphere whole)
        → sphere db' 1 ≡ ok (some s)
        → IsBestOf memory.lt distance_from_origin
            (IsNewest
              (λ r. In r (map row_of (map write_of moves)) ⊎ In r (rows list_engine ball_db.coord))
              "u")
            s.coord
          × IsBestOf memory.lt (λ x. x) (NewestRadius ball_db 1) s.radius.magnitude)
sphere-moves_example = sphere-moves {p = memory} list_engine-IsSql whole-IsOrdered ball_db moves 1

-- A call that disconnects, and an older one that connects.
abbrev calls : List Call
calls = (8, false) ∷ (6, true) ∷ []

calls-is_alive_example :
    (db' : Db memory) × (for_each calls (call_on 1 4) ball_db ≡ ok db')
    × ((is_alive db' "u" "uuuu" ≡ true)
        ↔ Stands
            (λ r.
              In r (map (edge_row "u" "uuuu") calls)
              ⊎ StoredEdge {p = memory} list_engine-IsSql ball_db r)
            "u"
            "uuuu")
    × (IsCodec letter_uuids → is_alive db' "u" "uuuu" ≡ true → In 4 (edges db' 1))
calls-is_alive_example = calls-is_alive {p = memory} list_engine-IsSql 1 4 ball_db calls

abbrev no_edges : List (Row String)
no_edges = []

abbrev late_edge : List (Row String)
late_edge =
    connect_row list_engine (connect_row list_engine no_edges "a" "b" 5 true) "a" "b" 3 false

a-ne-c : ¬ (◌≡◌ {A = String} "a" "c" × ◌≡◌ {A = String} "b" "d")
a-ne-c (e, _) = let bad = (eq_iff "a" "c").1 e in absurd (cc)

sweep_resurrects_example :
    (¬ Stands (λ r. In r (rows list_engine late_edge)) "a" "b")
    × Stands
        (λ r. In r (rows list_engine (connect_row list_engine late_edge "c" "d" 9 false)))
        "a"
        "b"
sweep_resurrects_example =
    sweep_resurrects list_engine-IsSql no_edges "a" "b" "c" "d" 3 5 9 false (λ s i. absurd i) a-ne-c
      (omega arith) (omega arith)

-- The store after the coordinates were retracted at 6.
abbrev retracted_coord_db : Db memory
retracted_coord_db = record ball_db { coord = new_row false 6 "u" (at_x 3) ∷ [] }

retracts_coord : retract_coord ball_db 1 (at_x 3) 6 ≡ ok retracted_coord_db
unfolding retract_coord upsert_i_coord upsert_row is_deleted
retracts_coord = refl

retract_coord-live_example : ¬ NoLive memory retracted_coord_db.coord 1
retract_coord-live_example =
    retract_coord-live {p = memory} list_engine-IsSql ball_db retracted_coord_db 1 (at_x 3) 6
      retracts_coord

-- The store after the radius was retracted at 6.
abbrev retracted_radius_db : Db memory
retracted_radius_db = record ball_db { radius = new_row true 6 "u" 5 ∷ new_row false 1 "u" 5 ∷ [] }

retracts_radius : retract_radius ball_db 1 (record { magnitude = 5 }) 6 ≡ ok retracted_radius_db
unfolding retract_radius upsert_i_radius upsert_row is_deleted
retracts_radius = refl

retract_radius-latest_example :
    In (new_row false 1 "u" 5) (latest list_engine retracted_radius_db.radius "u")
    ↔ In (new_row false 1 "u" 5) (latest list_engine ball_db.radius "u")
retract_radius-latest_example =
    retract_radius-latest {p = memory} list_engine-IsSql ball_db retracted_radius_db 1 1
      (record { magnitude = 5 }) 6 (new_row false 1 "u" 5) retracts_radius

calls-IsNewestCall : IsNewestCall {p = memory} list_engine-IsSql 1 4 ball_db calls 8 false
calls-IsNewestCall = record {
  here = inl refl;
  others = λ u c i. ground arith;
  stored = λ r i e. elim i [ inl q ↦ rw q (omega arith) | inr bad ↦ absurd bad ];
}

newest_call-decides_example :
    (db' : Db memory) × (for_each calls (call_on 1 4) ball_db ≡ ok db')
    × (is_alive db' "u" "uuuu" ≡ false)
newest_call-decides_example =
    newest_call-decides {p = memory} list_engine-IsSql 1 4 ball_db calls 8 false calls-IsNewestCall

moves-IsNewestMove :
    IsNewestMove {p = memory} list_engine-IsSql whole-IsOrdered ball_db moves
      (record { entity = 1; coord = at_x 9; timestamp = 7 })
moves-IsNewestMove = record {
  here = inl refl;
  others = λ n i same. elim i [
    | inl q ↦ inr q
    | inr (inl q) ↦ inl (rw q (omega arith))
    | inr (inr bad) ↦ absurd bad
  ];
  stored = λ r i l. elim i [ inl q ↦ rw q (omega arith) | inr bad ↦ absurd bad ];
}

newest_move-decides_example :
    (db' : Db memory) × (s' : Sphere whole) × (for_each moves move ball_db ≡ ok db')
    × (sphere db' 1 ≡ ok (some s'))
    × (s'.coord ≡ at_x 9)
    × (s'.radius ≡ ball.radius)
newest_move-decides_example =
    newest_move-decides {p = memory} list_engine-IsSql whole-IsOrdered ball_db moves
      (record { entity = 1; coord = at_x 9; timestamp = 7 }) ball moves-IsNewestMove ball_found
