-- ===== src/Db/Queries/Entities.antt =====
-- `DatabaseImpl::entities` against the rows of the table.
use structur3d.Prelude.{
  ◌≡◌, refl, sym, ◌∙◌, ap, ◌⊎◌, inl, inr, ◌↔◌, String, Option, none, some, List, [], ◌∷◌, In,
  eq_iff, arith,
}
use mathlib.Core.Option.{some-injective}
use structur3d.Platform.{Platform, IsSql, rows}
use structur3d.Data.{Uid, NodeType}
use structur3d.Data.Codes.{from_integral}
use structur3d.Db.Rows.{Row}
use structur3d.Db.State.{Db, DocumentColumns}
use structur3d.Db.Queries.{IdWithType, entities, typed}

module _ {p : Platform} (laws : IsSql p.sql) (db : Db p) where
  abbrev push_typed : String → Option NodeType → List IdWithType → List IdWithType
  push_typed eid type rest = elim type [
    | none ↦ rest
    | some t ↦ record { uid = p.of_string eid; type = t } ∷ rest
  ]

  In-push_typed :
      (eid : String) (o : Option NodeType) (rest : List IdWithType) (x : IdWithType)
      → In x (push_typed eid o rest) ↔ (((o ≡ some x.type) × (x.uid ≡ p.of_string eid)) ⊎ In x rest)
  In-push_typed eid none rest x = (λ i. inr i, λ h. elim h [ inl (e, q) ↦ absurd (cc) | inr i ↦ i ])
  In-push_typed eid (some t) rest x = (
    λ i. elim i [
      | inl q ↦
          inl (ap some (sym (ap (λ (y : IdWithType). y.type) q)), ap (λ (y : IdWithType). y.uid) q)
      | inr j ↦ inr j
    ],
    λ h. elim h [
      | inl (e, q) ↦ inl (
          ap (λ (u : Uid). record { uid = u; type = x.type }) q
          ∙ ap (λ (k : NodeType). record { uid = p.of_string eid; type = k })
              (sym (some-injective t x.type e)))
      | inr i ↦ inr i
    ],
  )

  In-typed :
      (rs : List (Row DocumentColumns)) (x : IdWithType)
      → In x (typed p rs) ↔ (
          (r : Row DocumentColumns) × In r rs
          × (from_integral r.value.type ≡ some x.type)
          × (x.uid ≡ p.of_string r.entity))
  unfolding typed
  In-typed [] x = (λ i. absurd i, λ (r, i, e, q). absurd i)
  In-typed (r ∷ rs) x =
      let (to, from) = In-push_typed r.entity (from_integral r.value.type) (typed p rs) x in
      (
        λ i. elim (to i) [
          | inl (e, q) ↦ (r, inl refl, e, q)
          | inr j ↦ let (s, k, e, q) = (In-typed rs x).0 j in (s, inr k, e, q)
        ],
        λ (s, i, e, q). from (elim i [
          | inl same ↦ inl (rw same at e, rw same at q)
          | inr j ↦ inr ((In-typed rs x).1 (s, j, e, q))
        ]),
      )

  -- `entities` lists just the uids and types of the live rows of the document whose type has a meaning.
  pub entities_iff :
      (document : Uid) (x : IdWithType)
      → In x (entities db document) ↔ (
          (r : Row DocumentColumns) × In r (rows p.sql db.document)
          × (r.deleted ≡ 0)
          × (r.value.document ≡ p.to_string document)
          × (from_integral r.value.type ≡ some x.type)
          × (x.uid ≡ p.of_string r.entity))
  unfolding entities
  entities_iff document x = (
    λ i.
        let (r, j, e, q) = (In-typed _ x).0 i in
        let (stored, test) = (laws.in-select r _ db.document).0 j in
        (
          r,
          stored,
          ground arith,
          ground (arith, eq_iff r.value.document (p.to_string document)),
          e,
          q,
        ),
    λ (r, stored, live, here, e, q). (In-typed _ x).1 (
      r,
      (laws.in-select r _ db.document).1
          (stored, ground (arith, eq_iff r.value.document (p.to_string document))),
      e,
      q,
    ),
  )
