-- ===== src/Db/Upserts/Converge.antt =====
-- Stores that got the same upserts agree.
use structur3d.Prelude.{
  ◌≡◌, refl, sym, ◌∙◌, ap, ◌↔◌, ◌⊎◌, Option, String, List, [], ◌∷◌, map, pick, In, In-map_same,
  In-pick_same, ok, for_each, arith, ok-injective,
}
use structur3d.Platform.{Platform, IsSql, rows}
use structur3d.Data.{Name}
use structur3d.Db.Rows.{Row, latest}
use structur3d.Db.Rows.Newest.{IsNewest-iff, In-latest}
use structur3d.Db.Rows.Convergence.{replay_order}
use structur3d.Db.State.{Db}
use structur3d.Db.Queries.{name_of_document}
use structur3d.Db.Queries.SphereHistory
use structur3d.Db.Queries.NameHistory.{AllTexts, names_converge, for_each-give}
use structur3d.Db.Upserts.{
  Upsert, Resize, as_move, as_resize, as_retype, as_naming, perform, AllAccepted, radius_row,
  type_write, insert_all, upserted, for_each-perform,
}

module _ {p : Platform} (laws : IsSql p.sql) where
  -- The two stores have the same last writes of every attribute, and the same edges and documents.
  pub record Agree (u v : Db p) : Type 0 where
    pub coords :
        (e : String) (r : Row _) → In r (latest p.sql u.coord e) ↔ In r (latest p.sql v.coord e)
    pub radii :
        (e : String) (r : Row _) → In r (latest p.sql u.radius e) ↔ In r (latest p.sql v.radius e)
    pub types :
        (e : String) (r : Row _)
        → In r (latest p.sql u.setoperationtype e) ↔ In r (latest p.sql v.setoperationtype e)
    pub names :
        (document : String)
        → (o : Option Name) × (name_of_document u document ≡ ok o)
          × (name_of_document v document ≡ ok o)
    pub edges : u.edge ≡ v.edge
    pub documents : u.document ≡ v.document

  In-insert_all :
      (rs : List (Resize p)) (table : p.Table (Row p.Float)) (r : Row p.Float)
      → In r (rows p.sql (insert_all rs table))
        ↔ (In r (map radius_row rs) ⊎ In r (rows p.sql table))
  unfolding insert_all
  In-insert_all [] table r = ground arith
  In-insert_all (s ∷ rs) table r = ground (
    arith,
    In-insert_all rs (p.insert_into (radius_row s) table) r,
    laws.in-insert r (radius_row s) table,
  )

  insert_all-same :
      (rs ss : List (Resize p)) (table : p.Table (Row p.Float)) (e : String) (r : Row p.Float)
      → ((x : Resize p) → In x rs ↔ In x ss)
      → In r (latest p.sql (insert_all rs table) e) ↔ In r (latest p.sql (insert_all ss table) e)
  insert_all-same rs ss table e r same =
      let (to, from) = In-latest laws (insert_all rs table) e r in
      let (to', from') = In-latest laws (insert_all ss table) e r in
      let (over, back) =
        IsNewest-iff (λ s. In s (rows p.sql (insert_all rs table)))
          (λ s. In s (rows p.sql (insert_all ss table))) e r
          λ s _. ground (
            arith,
            In-insert_all rs table s,
            In-insert_all ss table s,
            In-map_same radius_row s rs ss same,
          ) in
      (λ i. from' (over (to i)), λ i. from (back (to' i)))

  -- Names in the calls, and in the rows before them, are texts.
  abbrev pub TextsOnly : Db p → List (Upsert p) → Type 0
  TextsOnly db us = AllTexts laws db (pick as_naming us)

  upserted-Agree :
      (db : Db p) (us vs : List (Upsert p))
      → TextsOnly db us
      → ((x : Upsert p) → In x us ↔ In x vs)
      → Agree (upserted db us) (upserted db vs)
  unfolding name_of_document
  upserted-Agree db us vs texts same = record {
    coords = λ e r.
        replay_order laws db.coord _ _ e r
          λ w. In-map_same SphereHistory.write_of w _ _ λ m. In-pick_same as_move m us vs same;
    radii = λ e r. insert_all-same _ _ db.radius e r λ x. In-pick_same as_resize x us vs same;
    types = λ e r.
        replay_order laws db.setoperationtype _ _ e r
          λ w. In-map_same (type_write p) w _ _ λ t. In-pick_same as_retype t us vs same;
    names = λ document.
        let (u, v, o, left, right, named, named') =
          names_converge laws db (pick as_naming us) (pick as_naming vs) document texts
            λ n. In-pick_same as_naming n us vs same in
        let one = ok-injective (sym left ∙ for_each-give (pick as_naming us) db) in
        let other = ok-injective (sym right ∙ for_each-give (pick as_naming vs) db) in
        let asked = λ (x : Db p). name_of_document x document in
        (o, ap asked (sym one) ∙ named, ap asked (sym other) ∙ named');
    edges = refl;
    documents = refl;
  }

  -- Two histories of the same upserts, of any attributes and any entities, in different orders or with
  -- repetitions, come back, where the column of the radii takes each magnitude. They leave the same last
  -- writes of coordinates, radii and types of every entity, the same name of every document, and the tables
  -- of edges and documents as they were; where the names in the calls and in the rows before them are texts.
  pub upserts_converge :
      (db : Db p) (us vs : List (Upsert p))
      → AllAccepted us
      → TextsOnly db us
      → ((x : Upsert p) → In x us ↔ In x vs)
      → (u : Db p) × (v : Db p) × (for_each us perform db ≡ ok u)
        × (for_each vs perform db ≡ ok v)
        × Agree u v
        × (u.edge ≡ db.edge)
        × (u.document ≡ db.document)
  upserts_converge db us vs accepted texts same = (
    upserted db us,
    upserted db vs,
    for_each-perform us db accepted,
    for_each-perform vs db (λ x i. accepted x ((same x).1 i)),
    upserted-Agree db us vs texts same,
    refl,
    refl,
  )
