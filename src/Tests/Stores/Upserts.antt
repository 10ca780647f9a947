-- ===== src/Tests/Stores/Upserts.antt =====
-- A store that gets upserts of several attributes, in two orders.
use structur3d.Prelude.{
  ◌≡◌, refl, ◌↔◌, List, [], ◌∷◌, In, inl, inr, arith, ok, for_each, subst, sym,
}
use structur3d.Platform.Memory.{list_engine-IsSql, memory}
use structur3d.Data.{union}
use structur3d.Db.State.{Db}
use structur3d.Db.Upserts.{Upsert, moved, resized, retyped, named, perform, IsAccepted, AllAccepted}
use structur3d.Db.Upserts.Converge.{Agree, TextsOnly, upserts_converge}
use structur3d.Tests.Stores.{ball_db, at_x}

abbrev one_move : Upsert memory
one_move = moved (record { entity = 1; coord = at_x 9; timestamp = 7 })

abbrev one_size : Upsert memory
one_size = resized (record { entity = 1; radius = record { magnitude = 4 }; timestamp = 5 })

abbrev one_type : Upsert memory
one_type = retyped (record { entity = 3; type = union; timestamp = 6 })

abbrev one_name : Upsert memory
one_name = named (record { entity = 2; name = record { value = 97 ∷ [] }; timestamp = 3 })

-- Four calls, and the same in another order, one of them twice.
abbrev these : List (Upsert memory)
these = one_move ∷ one_size ∷ one_type ∷ one_name ∷ []

abbrev those : List (Upsert memory)
those = one_name ∷ one_move ∷ one_type ∷ one_move ∷ one_size ∷ []

these-accepted : AllAccepted these
these-accepted u i = elim i [
  | inl q ↦ subst IsAccepted (sym q) tt
  | inr (inl q) ↦ subst IsAccepted (sym q) refl
  | inr (inr (inl q)) ↦ subst IsAccepted (sym q) tt
  | inr (inr (inr (inl q))) ↦ subst IsAccepted (sym q) tt
  | inr (inr (inr (inr bad))) ↦ absurd bad
]

these-texts : TextsOnly {p = memory} list_engine-IsSql ball_db these
these-texts = record {
  called = λ m i. elim i [
    | inl q ↦ rw q (λ e. cc, ((omega arith, omega arith), tt))
    | inr bad ↦ absurd bad
  ];
  stored = λ r i. absurd i;
}

reordered : (u : Upsert memory) → In u these ↔ In u those
reordered u = ground arith

upserts_converge_example :
    (u : Db memory) × (v : Db memory) × (for_each these perform ball_db ≡ ok u)
    × (for_each those perform ball_db ≡ ok v)
    × Agree {p = memory} list_engine-IsSql u v
    × (u.edge ≡ ball_db.edge)
    × (u.document ≡ ball_db.document)
upserts_converge_example =
    upserts_converge {p = memory} list_engine-IsSql ball_db these those these-accepted these-texts
      reordered
