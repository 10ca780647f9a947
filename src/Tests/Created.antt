-- ===== src/Tests/Created.antt =====
-- A node that is created in a store and loaded again.
use structur3d.Prelude.{eq_iff, inl, inr, ◌≡◌, refl, none, false, [], ok, some, In, ◌∷◌, arith}
use structur3d.Platform.Memory.{list_engine-IsSql, letter_uuids-IsCodec, whole, memory}
use structur3d.Data.{Node}
use structur3d.Db.State.{Db}
use structur3d.Db.Queries.{entities}
use structur3d.Db.Interface.{database_impl}
use structur3d.World.{World}
use structur3d.Vm.Interactors.{db_create_node}
use structur3d.Vm.Open.{load_node}
use structur3d.Vm.RoundTrip.{type_of, stored_node, IsUnwritten, created-IsLoaded}
use structur3d.Db.Rows.{new_row}

-- The sphere 3, at 7 with the radius 2.
abbrev ball : Node whole
ball =
    Node.sphere (record {
      uid = 3;
      coord = record { x = 7; y = 0; z = 0 };
      radius = record { magnitude = 2 };
    })

-- A store in which another entity has a newer radius, and 3 an older one.
abbrev before : Db memory
before = record {
  edge = [];
  radius = new_row false 9 "u" 5 ∷ new_row false 1 "uuu" 4 ∷ [];
  coord = [];
  setoperationtype = [];
  document = [];
  name = [];
}

abbrev client : World whole (Db memory)
client = record {
  db = before;
  sent = [];
  store = λ p. ball;
  next = 0;
  current = none;
  documents = [];
}

before-IsUnwritten : IsUnwritten memory before 3 6
before-IsUnwritten = record {
  radius = λ s i l. elim i [
    | inl q ↦ let bad = (eq_iff "u" "uuu").1 (rw q at l.1) in absurd (cc)
    | inr (inl q) ↦ rw q (omega arith)
    | inr (inr bad) ↦ absurd bad
  ];
  coord = λ r i l. absurd i;
  type = λ r i l. absurd i;
}

created-IsLoaded_example :
    (w' : World whole (Db memory)) × (db_create_node (database_impl memory) ball 2 6 client ≡ ok w')
    × (load_node (database_impl memory) w'.db (record { uid = 3; type = type_of memory ball })
        ≡ ok (some (stored_node memory ball)))
    × In (record { uid = 3; type = type_of memory ball }) (entities w'.db 2)
created-IsLoaded_example =
    created-IsLoaded memory list_engine-IsSql ball 2 6 client letter_uuids-IsCodec refl
      before-IsUnwritten
