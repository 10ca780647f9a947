-- ===== src/Db/Queries/Documents.antt =====
-- `DatabaseImpl::documents` against the rows of the tables.
use structur3d.Prelude.{
  ℕ, ◌≡◌, refl, sym, ◌∙◌, ap, subst, ◌⊎◌, inl, inr, ◌↔◌, false, String, Option, none, some, List,
  [], ◌∷◌, map, In, In-map_iff, ok, ◌==◌, arith, ok-injective,
}
use mathlib.Core.Option.{some-injective}
use structur3d.Platform.{Platform, IsSql, rows}
use structur3d.Data.{Uid, Name}
use structur3d.Data.Names.{less}
use structur3d.Db.Rows.{Row, is_deleted}
use structur3d.Db.State.{Db, DocumentColumns}
use structur3d.Db.Queries.{DocumentWithName, documents, documents_among, name_of_document}
use structur3d.Db.Queries.Names.{
  IsText, NewestName, IsNameOf, name_of_document_lem, name_of_document_iff,
}

module _ {p : Platform} (db : Db p) where
  abbrev entry : String → Name → DocumentWithName
  entry document name = record { uid = p.of_string document; name = name }

  abbrev push : String → Option Name → List DocumentWithName → List DocumentWithName
  push document name rest = elim name [ none ↦ rest | some n ↦ entry document n ∷ rest ]

  In-push :
      (document : String) (o : Option Name) (rest : List DocumentWithName) (x : DocumentWithName)
      → In x (push document o rest)
        ↔ (((n : Name) × (o ≡ some n) × (x ≡ entry document n)) ⊎ In x rest)
  In-push document none rest x =
      (λ i. inr i, λ h. elim h [ inl (n, e, q) ↦ absurd (cc) | inr i ↦ i ])
  In-push document (some n) rest x = (
    λ i. elim i [ inl q ↦ inl (n, refl, q) | inr j ↦ inr j ],
    λ h. elim h [
      | inl (m, e, q) ↦ inl (q ∙ ap (entry document) (sym (some-injective n m e)))
      | inr i ↦ inr i
    ],
  )

  documents_among_lem :
      (ds : List String)
      → ((d : String) → In d ds → (o : Option Name) × (name_of_document db d ≡ ok o))
      → (out : List DocumentWithName) × (documents_among db ds ≡ ok out)
        × ((x : DocumentWithName)
            → In x out ↔ (
                (d : String) × (n : Name) × In d ds
                × (name_of_document db d ≡ ok (some n))
                × (x ≡ entry d n)))
  unfolding documents_among
  documents_among_lem [] h = ([], refl, λ x. (λ i. absurd i, λ (d, n, i, e, q). absurd i))
  documents_among_lem (d ∷ ds) h =
      let (o, named) = h d (inl refl) in
      let (out, rest, mem) = documents_among_lem ds (λ e i. h e (inr i)) in
      (
        push d o out,
        rw (named, rest),
        λ x. (
          λ i. elim ((In-push d o out x).0 i) [
            | inl (n, e, q) ↦ (d, n, inl refl, named ∙ ap ok e, q)
            | inr j ↦ let (c, n, k, e, q) = (mem x).0 j in (c, n, inr k, e, q)
          ],
          λ (c, n, i, e, q). (In-push d o out x).1 (elim i [
            | inl same ↦ inl (n, ok-injective (sym named ∙ rw same at e), rw same at q)
            | inr j ↦ inr ((mem x).1 (c, n, j, e, q))
          ]),
        ),
      )

module _ {p : Platform} (laws : IsSql p.sql) (db : Db p) where
  -- Something lives in the document.
  abbrev pub HasEntity : String → Type 0
  HasEntity document =
      (r : Row DocumentColumns) × In r (rows p.sql db.document)
      × (r.deleted ≡ 0)
      × (r.value.document ≡ document)

  listed : List String
  listed =
      p.group_by
        (map (λ r. r.value.document) (p.select (λ r. r.deleted == is_deleted false) db.document))

  In-listed : (document : String) → In document listed ↔ HasEntity document
  unfolding listed is_deleted
  In-listed document = (
    λ i.
        let (r, j, e) = (In-map_iff _ document _).0 ((laws.in-group document _).0 i) in
        let (stored, live) = (laws.in-select r _ db.document).0 j in
        (r, stored, ground arith, sym e),
    λ (r, stored, live, e). (laws.in-group document _).1 (
        (In-map_iff (λ r. r.value.document) document _).1
          (r, (laws.in-select r _ db.document).1 (stored, ground arith), sym e)),
  )

  -- Where every newest live row of a name holds a name, `documents` comes back, and lists just those
  -- documents that have a live entity and a newest live row of a name, each under the name of such a
  -- row than which no other such row has a lesser one.
  pub documents_lem :
      ((d : String) (r : Row (List ℕ)) → NewestName db d r → IsText r.value)
      → (ds : List DocumentWithName) × (documents db ≡ ok ds)
        × ((x : DocumentWithName)
            → In x ds ↔ (
                (d : String) × HasEntity d
                × ((r : Row (List ℕ)) × NewestName db d r × (x.name.value ≡ r.value))
                × ((r : Row (List ℕ)) → NewestName db d r → less r.value x.name.value ≡ false)
                × (x.uid ≡ p.of_string d)))
  unfolding documents listed
  documents_lem valid =
      let (ds, e, mem) =
        documents_among_lem db listed
          λ d _. let (o, named, _) = name_of_document_lem laws db d (valid d) in (o, named) in
      let is_name = λ (d : String) (n : Name). name_of_document_iff laws db d (valid d) n in
      (
        ds,
        e,
        λ x. (
          λ i.
              let (d, n, j, named, q) = (mem x).0 i in
              let (attained, least) =
                subst (λ m. IsNameOf db d (some m)) (sym (ap (λ (y : DocumentWithName). y.name) q))
                  ((is_name d n).0 named) in
              (d, (In-listed d).0 j, attained, least, ap (λ (y : DocumentWithName). y.uid) q),
          λ (d, alive, attained, least, q). (mem x).1 (
            d,
            x.name,
            (In-listed d).1 alive,
            (is_name d x.name).1 (attained, least),
            ap (λ (u : Uid). record { uid = u; name = x.name }) q,
          ),
        ),
      )
