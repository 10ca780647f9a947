-- ===== src/Db/Queries/Removed.antt =====
-- What `entities` lists after a node was removed, and after a creation that arrives late.
use structur3d.Prelude.{
  ℕ, ◌<◌, ◌≡◌, ◌≢◌, refl, sym, ◌∙◌, ap, ◌⊎◌, inl, ◌↔◌, Bool, true, false, In, arith, ok, eq_iff,
}
use structur3d.Platform.{Platform, IsSql, IsCodec, codec-injective, rows}
use structur3d.Data.{Uid, Timestamp, NodeType}
use structur3d.Data.Codes.{to_integral, from_integral_iff}
use structur3d.Db.Rows.{Row, is_deleted, new_row}
use structur3d.Db.State.{Db, DocumentColumns, is_document_garbage, create_row, create, remove}
use structur3d.Db.Queries.{IdWithType, entities}
use structur3d.Db.Queries.Entities.{entities_iff}

module _ (p : Platform) where
  -- A live row of an entity in a document.
  abbrev pub IsLiveIn : Uid → Uid → Row DocumentColumns → Type 0
  IsLiveIn entity document r =
      (r.deleted ≡ 0) × (r.entity ≡ p.to_string entity) × (r.value.document ≡ p.to_string document)

  abbrev pub columns : ℕ → Uid → DocumentColumns
  columns type document = record { type = type; document = p.to_string document }

module _ {p : Platform} (laws : IsSql p.sql) where
  -- A row of the table of documents.
  abbrev pub StoredNode : Db p → Row DocumentColumns → Type 0
  StoredNode db r = In r (rows p.sql db.document)

  In-create_row :
      (db : Db p) (e : Uid) (type : ℕ) (d : Uid) (t : ℕ) (deleted : Bool) (r : Row DocumentColumns)
      → In r
          (rows p.sql (create_row p.sql db.document (p.to_string e) type (p.to_string d) t deleted))
        ↔ ((r ≡ new_row deleted t (p.to_string e) (columns p type d))
            ⊎ (StoredNode db r × (is_document_garbage (p.to_string e) (p.to_string d) t r ≡ false)))
  unfolding create_row
  In-create_row db e type d t deleted r = ground (
    arith,
    laws.in-insert r (new_row deleted t (p.to_string e) (columns p type d))
        (p.remove_from (is_document_garbage (p.to_string e) (p.to_string d) t) db.document),
    laws.in-remove r (is_document_garbage (p.to_string e) (p.to_string d) t) db.document,
  )

  -- The live rows after a removal that is newer than the live rows of its node.
  removed-live :
      (db : Db p) (e : Uid) (type : ℕ) (d : Uid) (t : ℕ) (r : Row DocumentColumns)
      → ((s : Row DocumentColumns) → StoredNode db s → IsLiveIn p e d s → s.timestamp < t)
      → (In r
            (rows p.sql (create_row p.sql db.document (p.to_string e) type (p.to_string d) t true))
          × (r.deleted ≡ 0))
        ↔ (StoredNode db r
            × (r.deleted ≡ 0)
            × ¬ ((r.entity ≡ p.to_string e) × (r.value.document ≡ p.to_string d)))
  unfolding is_deleted
  removed-live db e type d t r older = ground (
    arith,
    In-create_row db e type d t true r,
    older r,
    eq_iff r.entity (p.to_string e),
    eq_iff r.value.document (p.to_string d),
  )

  -- The entities are printed uuids.
  abbrev pub ArePrinted : Db p → Type 0
  ArePrinted db =
      (r : Row DocumentColumns) → StoredNode db r → (x : Uid) × (r.entity ≡ p.to_string x)

  -- Where printed uuids are read back, and the table holds printed ones: the removal of a node from a document,
  -- newer than all live rows of the node in it, comes back. After it, `entities` lists just the others of
  -- the document, and of every other document what it listed before.
  pub remove-entities :
      IsCodec p.uuids
      → (db : Db p) (e d : Uid) (t : Timestamp) → ArePrinted db
      → ((s : Row DocumentColumns) → StoredNode db s → IsLiveIn p e d s → s.timestamp < t)
      → (db' : Db p) × (remove db e d t ≡ ok db')
        × ((x : IdWithType) → In x (entities db' d) ↔ (In x (entities db d) × (x.uid ≢ e)))
        × ((other : Uid) (x : IdWithType)
            → other ≢ d
            → In x (entities db' other) ↔ In x (entities db other))
  unfolding remove
  remove-entities codec db e d t printed older = (
    after,
    refl,
    λ x. (
      λ i.
          let (r, stored, live, here, type, q) = (entities_iff laws after d x).0 i in
          let (old, _, apart) = (same r).0 (stored, live) in
          let (y, text) = printed r old in
          (
            (entities_iff laws db d x).1 (r, old, live, here, type, q),
            λ is_e.
                let y_eq : y ≡ e = sym (codec y) ∙ (ap p.of_string (sym text) ∙ (sym q ∙ is_e)) in
                apart (text ∙ ap p.to_string y_eq, here),
          ),
      λ (i, ne).
          let (r, old, live, here, type, q) = (entities_iff laws db d x).0 i in
          let apart = λ (both : (r.entity ≡ p.to_string e) × (r.value.document ≡ p.to_string d)).
            ne (q ∙ (ap p.of_string both.0 ∙ codec e)) in
          (entities_iff laws after d x).1
            (r, ((same r).1 (old, live, apart)).0, live, here, type, q),
    ),
    λ other x ne. (
      λ i.
          let (r, stored, live, here, type, q) = (entities_iff laws after other x).0 i in
          (entities_iff laws db other x).1 (r, ((same r).0 (stored, live)).0, live, here, type, q),
      λ i.
          let (r, old, live, here, type, q) = (entities_iff laws db other x).0 i in
          let apart = λ (both : (r.entity ≡ p.to_string e) × (r.value.document ≡ p.to_string d)).
            ne (codec-injective p.uuids codec other d (sym here ∙ both.1)) in
          (entities_iff laws after other x).1
            (r, ((same r).1 (old, live, apart)).0, live, here, type, q),
    ),
  )
    where
      after : Db p
      after = record db {
        document =
            create_row p.sql db.document (p.to_string e) (to_integral NodeType.sphere)
              (p.to_string d) t true;
      }

      same :
          (r : Row DocumentColumns)
          → (StoredNode after r × (r.deleted ≡ 0)) ↔ (
              StoredNode db r
              × (r.deleted ≡ 0)
              × ¬ ((r.entity ≡ p.to_string e) × (r.value.document ≡ p.to_string d)))
      same r = removed-live db e (to_integral NodeType.sphere) d t r older

  -- Creations do not commute with removals. Where printed uuids are read back, and the table holds printed
  -- ones: let all live rows of a node in a document be older than `t`, and let its removal be of a later
  -- `u`. After the removal `entities` does not list the node; a creation of `t` that arrives then brings it
  -- back.
  pub late_create_resurrects :
      IsCodec p.uuids
      → (db : Db p) (e d : Uid) (type : NodeType) (t u : Timestamp) → ArePrinted db
      → ((s : Row DocumentColumns) → StoredNode db s → IsLiveIn p e d s → s.timestamp < t)
      → t < u
      → (gone : Db p) × (back : Db p) × (remove db e d u ≡ ok gone)
        × (create gone e type d t ≡ ok back)
        × ((x : IdWithType) → In x (entities gone d) → x.uid ≢ e)
        × In (record { uid = e; type = type }) (entities back d)
  unfolding create is_deleted
  late_create_resurrects codec db e d type t u printed older lt =
      let (gone, removed, listed, _) =
        remove-entities codec db e d u printed (λ s i l. omega (arith, older s i l, lt)) in
      let eid = p.to_string e in
      let did = p.to_string d in
      let new = new_row false t eid (columns p (to_integral type) d) in
      let back : Db p = record gone {
        document = create_row p.sql gone.document eid (to_integral type) did t false;
      } in
      (
        gone,
        back,
        removed,
        refl,
        λ x i. ((listed x).0 i).1,
        (entities_iff laws back d (record { uid = e; type = type })).1 (
          new,
          (In-create_row gone e (to_integral type) d t false new).1 (inl refl),
          refl,
          refl,
          (from_integral_iff (to_integral type) type).1 refl,
          sym (codec e),
        ),
      )
