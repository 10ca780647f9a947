-- ===== src/Db/Column/Latest.antt =====
-- What `latest` of a column gives after an upsert.
use structur3d.Prelude.{
  ℕ, ◌<◌, ◌≡◌, refl, sym, ap, ◌↔◌, ◌⊎◌, inl, inr, Bool, true, false, ◌&&◌, String, some, List, [],
  ◌∷◌, map, In, arith, eq_iff, Option-cases, ok, ◌∙◌,
}
use structur3d.Platform.{Platform, IsSql, rows}
use structur3d.Data.{Uid, Timestamp}
use structur3d.Platform.Bitsery.{Bytes}
use structur3d.Utils.Serialize.RoundTrip.{RoundTrips}
use structur3d.Db.Rows.{Row, is_deleted, is_at}
use structur3d.Db.Rows.Newest.{max_timestamp-none, max_timestamp-attained}
use structur3d.Db.Column.{
  Column, AttributeColumns, is_live_in, is_column_garbage, colid_of, column_row, put, put_row,
  upsert, last_timestamp, latest_rows, read_row, reduce, preferred_row, latest,
}

-- A live row of the entity in the column.
abbrev pub IsLiveIn : ℕ → String → Row AttributeColumns → Type 0
IsLiveIn colid e r = (r.deleted ≡ 0) × (r.value.colid ≡ colid) × (r.entity ≡ e)

IsLiveIn-iff :
    (colid : ℕ) (e : String) (r : Row AttributeColumns)
    → (is_live_in colid e r ≡ true) ↔ IsLiveIn colid e r
unfolding is_deleted
IsLiveIn-iff colid e r = ground (arith, eq_iff r.entity e)

IsLiveIn-at_iff :
    (colid : ℕ) (e : String) (m : ℕ) (r : Row AttributeColumns)
    → (is_live_in colid e r && is_at (some m) r.timestamp ≡ true)
      ↔ (IsLiveIn colid e r × (r.timestamp ≡ m))
IsLiveIn-at_iff colid e m r = ground (arith, IsLiveIn-iff colid e r)

module _ (p : Platform) (laws : IsSql p.sql) {T : Type 0} (column : Column T) where
  In-put :
      (table : p.Table (Row AttributeColumns)) (e : String) (v : Bytes × ℕ) (t : ℕ) (d : Bool)
      (r : Row AttributeColumns)
      → In r (rows p.sql (put_row p column table e v t d)) ↔ (
          (r ≡ column_row column e v t d)
          ⊎ (In r (rows p.sql table) × (is_column_garbage (colid_of column) e t r ≡ false)))
  In-put table e v t d r = ground (
    arith,
    laws.in-insert r (column_row column e v t d)
        (p.remove_from (is_column_garbage (colid_of column) e t) table),
    laws.in-remove r (is_column_garbage (colid_of column) e t) table,
  )

  IsLiveIn-put :
      (table : p.Table (Row AttributeColumns)) (e : String) (v : Bytes × ℕ) (t : ℕ)
      (r : Row AttributeColumns)
      → ((s : Row AttributeColumns)
          → In s (rows p.sql table)
          → IsLiveIn (colid_of column) e s
          → s.timestamp < t)
      → (In r (rows p.sql (put_row p column table e v t false)) × IsLiveIn (colid_of column) e r)
        ↔ (r ≡ column_row column e v t false)
  unfolding is_deleted
  IsLiveIn-put table e v t r older =
      ground (arith, In-put table e v t false r, eq_iff r.entity e, older r)

  -- After a write that is newer than every live row of its entity in the column, the rows that count
  -- are copies of its row, and there is one.
  latest_rows-put :
      (table : p.Table (Row AttributeColumns)) (e : String) (v : Bytes × ℕ) (t : ℕ)
      (r : Row AttributeColumns)
      → ((s : Row AttributeColumns)
          → In s (rows p.sql table)
          → IsLiveIn (colid_of column) e s
          → s.timestamp < t)
      → In r (latest_rows p column (put_row p column table e v t false) e)
        ↔ (r ≡ column_row column e v t false)
  unfolding latest_rows last_timestamp
  latest_rows-put table e v t r older =
      let after = put_row p column table e v t false in
      let new = column_row column e v t false in
      let live = λ (s : Row AttributeColumns). IsLiveIn-put table e v t s older in
      let chosen =
        λ (s : Row AttributeColumns). laws.in-select s (is_live_in (colid_of column) e) after in
      elim (Option-cases (last_timestamp p column after e)) [
        | inl empty ↦ absurd (
            rw (max_timestamp-none _ empty) at (chosen new).1
              (((live new).1 refl).0, (IsLiveIn-iff _ e new).1 ((live new).1 refl).1))
        | inr (m, found) ↦
            let (top, i, at) = max_timestamp-attained _ m found in
            let (stored, test) = (chosen top).0 i in
            let top_new = (live top).0 (stored, (IsLiveIn-iff _ e top).0 test) in
            let when : t ≡ m = sym (ap (λ (s : Row AttributeColumns). s.timestamp) top_new) ∙ at in
            (
              λ j.
                  let (kept, both) = (laws.in-select r _ after).0 j in
                  let (here, _) = (IsLiveIn-at_iff _ e m r).0 (rw found at both) in
                  (live r).0 (kept, here),
              λ same.
                  let (kept, here) = (live r).1 same in
                  (laws.in-select r _ after).1 (
                    kept,
                    rw found (
                        (IsLiveIn-at_iff _ e m r).1
                          (here, ap (λ (s : Row AttributeColumns). s.timestamp) same ∙ when)),
                  ),
            )
      ]

module _ {T : Type 0} (column : Column T) (v : T) where
  reduce-copies :
      (rs : List (Row AttributeColumns))
      → column.preferred v v ≡ v
      → ((r : Row AttributeColumns) → In r rs → read_row column r ≡ v)
      → reduce column v (map (read_row column) rs) ≡ v
  unfolding reduce
  reduce-copies [] same copies = refl
  reduce-copies (r ∷ rs) same copies =
      rw (copies r (inl refl), same) (reduce-copies rs same (λ s i. copies s (inr i)))

  preferred_row-copies :
      (rs : List (Row AttributeColumns)) (new : Row AttributeColumns)
      → column.preferred v v ≡ v
      → In new rs
      → ((r : Row AttributeColumns) → In r rs → read_row column r ≡ v)
      → preferred_row column rs ≡ some v
  unfolding preferred_row
  preferred_row-copies [] new same i copies = absurd i
  preferred_row-copies (r ∷ rs) new same i copies =
      ap some (rw (copies r (inl refl), same) (reduce-copies rs same (λ s j. copies s (inr j))))

module _ (p : Platform) (laws : IsSql p.sql) {T : Type 0} (column : Column T) where
  -- A value that is written to a column, newer than every live row of its entity there, is the value
  -- that `latest` reads, where it is read back from the buffer into which it is written, and the
  -- preferred one of two equal values is that value. The write comes back.
  pub latest-upsert :
      (table : p.Table (Row AttributeColumns)) (entity : Uid) (v : T) (t : Timestamp)
      → RoundTrips column.serializator v
      → column.preferred v v ≡ v
      → ((s : Row AttributeColumns)
          → In s (rows p.sql table)
          → IsLiveIn (colid_of column) (p.to_string entity) s
          → s.timestamp < t)
      → (table' : p.Table (Row AttributeColumns)) × (upsert p column table entity v t ≡ ok table')
        × (latest p column table' entity ≡ some v)
  unfolding latest upsert put read_row
  latest-upsert table entity v t (buffer, size, wrote, reads) same older =
      let e = p.to_string entity in
      let new = column_row column e (buffer, size) t false in
      let copies = λ (r : Row AttributeColumns).
        latest_rows-put p laws column table e (buffer, size) t r older in
      (
        put_row p column table e (buffer, size) t false,
        rw wrote refl,
        preferred_row-copies column v _ new same ((copies new).1 refl) λ r i.
            ap (read_row column) ((copies r).0 i)
            ∙ ap (λ (got : T × Bool). got.0) (reads column.initial),
      )
