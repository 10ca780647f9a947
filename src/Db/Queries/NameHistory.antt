-- ===== src/Db/Queries/NameHistory.antt =====
-- The name of a document after a history of calls does not depend on their order.
use structur3d.Prelude.{
  ℕ, ◌≡◌, refl, sym, ◌∙◌, ap, inl, inr, ◌↔◌, false, String, Option, none, some, List, [], ◌∷◌, map,
  In, Outcome, ok, for_each, In-map_iff, subst,
}
use structur3d.Platform.{Platform, IsSql, rows}
use structur3d.Data.{Uid, Timestamp, Name}
use structur3d.Db.Rows.{Row, upsert_row}
use structur3d.Db.Rows.Newest.{In-latest}
use structur3d.Db.Rows.History.{Write, row_of, replay, replay-IsNewest}
use structur3d.Db.Rows.Convergence.{replay_order}
use structur3d.Db.State.{Db, upsert_name}
use structur3d.Db.Queries.{name_of_document}
use structur3d.Db.Queries.Names.{IsText, NewestName, IsNameOf, less-antisym, name_of_document_lem}

-- The arguments of a call of `upsert` with a name.
pub record Naming : Type 0 where
  pub entity : Uid
  pub name : Name
  pub timestamp : Timestamp

abbrev pub write_of : Platform → Naming → Write (List ℕ)
write_of p m = record {
  entity = p.to_string m.entity;
  value = m.name.value;
  timestamp = m.timestamp;
}

module _ {p : Platform} where
  abbrev pub give : Naming → Db p → Outcome (Db p)
  give m db = upsert_name db m.entity m.name m.timestamp

  pub for_each-give :
      (ms : List Naming) (db : Db p)
      → for_each ms give db ≡ ok (record db { name = replay p.sql db.name (map (write_of p) ms) })
  unfolding replay upsert_name
  for_each-give [] db = refl
  for_each-give (m ∷ ms) db = for_each-give ms (record db {
    name = upsert_row p.sql db.name (p.to_string m.entity) m.name.value m.timestamp false;
  })

-- Both are names of documents with the same newest rows.
IsNameOf-unique :
    {p : Platform} (db db' : Db p) (document : String) (o o' : Option Name)
    → ((r : Row (List ℕ)) → NewestName db document r ↔ NewestName db' document r)
    → IsNameOf db document o
    → IsNameOf db' document o'
    → o ≡ o'
IsNameOf-unique db db' document none none same a b = refl
IsNameOf-unique db db' document none (some n) same a ((r, m, e), least) =
    absurd (a r ((same r).1 m))
IsNameOf-unique db db' document (some n) none same ((r, m, e), least) b =
    absurd (b r ((same r).0 m))
IsNameOf-unique db db' document (some n) (some n') same ((r, m, e), least) ((r', m', e'), least') =
    ap (λ (v : List ℕ). some (record { value = v }))
      (less-antisym n.value n'.value (rw (← e) at (least' r ((same r).0 m)))
        (rw (← e') at (least r' ((same r').1 m'))))

module _ {p : Platform} (laws : IsSql p.sql) (db : Db p) where
  -- The calls, and the rows before them, hold names.
  pub record AllTexts (ms : List Naming) : Type 0 where
    pub called : (m : Naming) → In m ms → IsText m.name.value
    pub stored : (r : Row (List ℕ)) → In r (rows p.sql db.name) → IsText r.value

  after : List Naming → Db p
  after ms = record db { name = replay p.sql db.name (map (write_of p) ms) }

  after-texts :
      (ms : List Naming) (e : String) (r : Row (List ℕ))
      → AllTexts ms
      → NewestName (after ms) e r
      → IsText r.value
  unfolding after
  after-texts ms e r texts n =
      let member = ((replay-IsNewest laws db.name (map (write_of p) ms) e r).0 n).member in
      elim member [
        | inl i ↦
            let (w, j, q) = (In-map_iff row_of r (map (write_of p) ms)).0 i in
            let (m, k, q') = (In-map_iff (write_of p) w ms).0 j in
            subst IsText (sym (ap (λ (s : Row (List ℕ)). s.value) (q ∙ ap row_of q')))
              (texts.called m k)
        | inr i ↦ texts.stored r i
      ]

  after-same :
      (ms ns : List Naming) (e : String) (r : Row (List ℕ))
      → ((m : Naming) → In m ms ↔ In m ns)
      → NewestName (after ms) e r ↔ NewestName (after ns) e r
  unfolding after
  after-same ms ns e r same =
      let writes =
        λ (xs ys : List Naming) (to : (m : Naming) → In m xs → In m ys) (w : Write (List ℕ))
            (i : In w (map (write_of p) xs)).
          let (m, j, q) = (In-map_iff (write_of p) w xs).0 i in
          (In-map_iff (write_of p) w ys).1 (m, to m j, q) in
      let (to, from) =
        replay_order laws db.name (map (write_of p) ms) (map (write_of p) ns) e r
          λ w. (writes ms ns (λ m. (same m).0) w, writes ns ms (λ m. (same m).1) w) in
      let (in_, out) = In-latest laws (replay p.sql db.name (map (write_of p) ms)) e r in
      let (in', out') = In-latest laws (replay p.sql db.name (map (write_of p) ns)) e r in
      (λ n. in' (to (out n)), λ n. in_ (from (out' n)))

  -- Two histories of the same calls that name documents, in different orders or with repetitions, come
  -- back, and after them the query gives the same name of every document, where the calls and the rows
  -- before them hold names: which of two names with the same time counts does not depend on the engine's
  -- order of rows.
  pub names_converge :
      (ms ns : List Naming) (document : String)
      → AllTexts ms
      → ((m : Naming) → In m ms ↔ In m ns)
      → (u : Db p) × (v : Db p) × (o : Option Name) × (for_each ms give db ≡ ok u)
        × (for_each ns give db ≡ ok v)
        × (name_of_document u document ≡ ok o)
        × (name_of_document v document ≡ ok o)
  unfolding after
  names_converge ms ns document texts same =
      let texts' : AllTexts ns = record {
        called = λ m i. texts.called m ((same m).1 i);
        stored = texts.stored;
      } in
      let (o, named, is_name) =
        name_of_document_lem laws (after ms) document (λ r. after-texts ms document r texts) in
      let (o', named', is_name') =
        name_of_document_lem laws (after ns) document (λ r. after-texts ns document r texts') in
      let equal =
        IsNameOf-unique (after ms) (after ns) document o o' (λ r. after-same ms ns document r same)
          is_name is_name' in
      (
        after ms,
        after ns,
        o,
        for_each-give ms db,
        for_each-give ns db,
        named,
        named' ∙ ap ok (sym equal),
      )
