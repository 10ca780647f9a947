-- ===== src/Tests/Stores/Documents.antt =====
-- The documents of a store, their names and their entities.
use structur3d.Prelude.{
  ℕ, [], ◌∷◌, refl, false, ◌≡◌, ◌≢◌, ◌<◌, ap, ◌↔◌, inl, inr, String, some, List, In, ok, arith,
}
use structur3d.Platform.{rows}
use structur3d.Platform.Memory.{
  list_engine, list_engine-IsSql, letter_uuids, letter_uuids-IsCodec, memory,
}
use structur3d.Data.{Uid, NodeType}
use structur3d.Data.Codes.{from_integral}
use structur3d.Db.Rows.{Row, new_row, latest, last_writer_wins_timestamp, max_timestamp, is_deleted}
use structur3d.Data.Names.{less, make_name, all_allowed, is_allowed, allowed_characters, run}
use structur3d.Db.Priority.{preferred_name}
use structur3d.Db.Queries.Names.{IsText, NewestName}
use structur3d.Db.State.{Db, DocumentColumns, create, remove}
use structur3d.Db.Queries.{
  name_of_document, documents_among, preferred_of, DocumentWithName, IdWithType, documents,
  entities,
}
use structur3d.Db.Queries.Documents.{HasEntity, documents_lem}
use structur3d.Db.Queries.Entities.{entities_iff}
use structur3d.Db.Queries.Removed.{
  ArePrinted, StoredNode, IsLiveIn, remove-entities, late_create_resurrects,
}
use structur3d.Tests.Stores.{ball_db}

-- The document of the ball has two names of the same time, and an older one.
abbrev named_db : Db memory
named_db = record ball_db {
  name =
      new_row false 5 "uu" (66 ∷ 65 ∷ [])
      ∷ new_row false 5 "uu" (65 ∷ 66 ∷ [])
      ∷ new_row false 3 "uu" (32 ∷ [])
      ∷ [];
}

named-IsText : (d : String) (r : Row (List ℕ)) → NewestName named_db d r → IsText r.value
named-IsText d r n = elim n.member [
  | inl q ↦ rw q ((λ e. cc), ((omega arith, omega arith), ((omega arith, omega arith), tt)))
  | inr i ↦ elim i [
    | inl q ↦ rw q ((λ e. cc), ((omega arith, omega arith), ((omega arith, omega arith), tt)))
    | inr j ↦ elim j [
      | inl q ↦ rw q ((λ e. cc), ((omega arith, omega arith), tt))
      | inr bad ↦ absurd bad
    ]
  ]
]

lists_it : documents named_db ≡ ok (record { uid = 2; name = record { value = 65 ∷ 66 ∷ [] } } ∷ [])
unfolding documents documents_among name_of_document preferred_of preferred_name less make_name
    all_allowed is_allowed latest last_writer_wins_timestamp max_timestamp is_deleted
    allowed_characters run
lists_it = refl

documents_lem_example :
    (ds : List DocumentWithName) × (documents named_db ≡ ok ds)
    × ((x : DocumentWithName)
        → In x ds ↔ (
            (d : String) × HasEntity {p = memory} list_engine-IsSql named_db d
            × ((r : Row (List ℕ)) × NewestName named_db d r × (x.name.value ≡ r.value))
            × ((r : Row (List ℕ)) → NewestName named_db d r → less r.value x.name.value ≡ false)
            × (x.uid ≡ memory.of_string d)))
documents_lem_example = documents_lem {p = memory} list_engine-IsSql named_db named-IsText

entities_iff_example : In (record { uid = 1; type = NodeType.sphere }) (entities ball_db 2) ↔ (
    (r : Row DocumentColumns) × In r (rows list_engine ball_db.document)
    × (r.deleted ≡ 0)
    × (r.value.document ≡ "uu")
    × (from_integral r.value.type ≡ some NodeType.sphere)
    × (1 ≡ letter_uuids.of_string r.entity))
entities_iff_example =
    entities_iff {p = memory} list_engine-IsSql ball_db 2
      (record { uid = 1; type = NodeType.sphere })

ball-ArePrinted : ArePrinted {p = memory} list_engine-IsSql ball_db
ball-ArePrinted r i = elim i [
  | inl q ↦ (1, ap (λ (s : Row DocumentColumns). s.entity) q)
  | inr bad ↦ absurd bad
]

ball-older :
    (s : Row DocumentColumns)
    → StoredNode {p = memory} list_engine-IsSql ball_db s
    → IsLiveIn memory 1 2 s
    → s.timestamp < 4
ball-older s i l = elim i [ inl q ↦ rw q (omega arith) | inr bad ↦ absurd bad ]

remove-entities_example :
    (db' : Db memory) × (remove ball_db 1 2 4 ≡ ok db')
    × ((x : IdWithType) → In x (entities db' 2) ↔ (In x (entities ball_db 2) × (x.uid ≢ 1)))
    × ((other : Uid) (x : IdWithType)
        → other ≢ 2
        → In x (entities db' other) ↔ In x (entities ball_db other))
remove-entities_example =
    remove-entities {p = memory} list_engine-IsSql letter_uuids-IsCodec ball_db 1 2 4
      ball-ArePrinted ball-older

late_create_resurrects_example :
    (gone : Db memory) × (back : Db memory) × (remove ball_db 1 2 6 ≡ ok gone)
    × (create gone 1 NodeType.sphere 2 4 ≡ ok back)
    × ((x : IdWithType) → In x (entities gone 2) → x.uid ≢ 1)
    × In (record { uid = 1; type = NodeType.sphere }) (entities back 2)
late_create_resurrects_example =
    late_create_resurrects {p = memory} list_engine-IsSql letter_uuids-IsCodec ball_db 1 2
      NodeType.sphere 4 6 ball-ArePrinted ball-older (omega arith)
