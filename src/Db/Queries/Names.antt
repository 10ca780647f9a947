-- ===== src/Db/Queries/Names.antt =====
-- The name of a document in `DatabaseImpl::documents`.
use structur3d.Prelude.{
  ℕ, ◌≡◌, ◌≢◌, refl, sym, ◌∙◌, subst, ok-injective, ap, ◌⊎◌, inl, inr, ◌↔◌, true, false, String,
  Option, none, some, List, [], ◌∷◌, In, All, ok, ◌>>=◌, arith, Bool-cases,
}
use structur3d.Platform.{Platform, IsSql, rows}
use structur3d.Data.{Name}
use structur3d.Data.Names.{less, make_name, make_name_iff, IsPrintable}
use structur3d.Db.Priority.{preferred_name}
use structur3d.Db.Rows.{Row, latest}
use structur3d.Db.Rows.Newest.{IsNewest, In-latest}
use structur3d.Db.State.{Db}
use structur3d.Db.Queries.{preferred_of, name_of_document}

-- Between two texts of which one is less, any third is above the one or below the other.
less-split : (a b c : List ℕ) → less a c ≡ true → (less a b ≡ true) ⊎ (less b c ≡ true)
unfolding less
less-split [] [] [] h = cc
less-split [] [] (z ∷ c) h = inr refl
less-split [] (y ∷ b) c h = inl refl
less-split (x ∷ a) b [] h = cc
less-split (x ∷ a) [] (z ∷ c) h = inr refl
less-split (x ∷ a) (y ∷ b) (z ∷ c) h = ground (arith, less-split a b c)

less_trans : (a b c : List ℕ) → less a b ≡ true → less b c ≡ true → less a c ≡ true
unfolding less
less_trans [] [] c h k = cc
less_trans [] (y ∷ b) [] h k = cc
less_trans [] (y ∷ b) (z ∷ c) h k = refl
less_trans (x ∷ a) [] c h k = cc
less_trans (x ∷ a) (y ∷ b) [] h k = cc
less_trans (x ∷ a) (y ∷ b) (z ∷ c) h k = ground (arith, less_trans a b c)

less_irrefl : (a : List ℕ) → less a a ≡ false
unfolding less
less_irrefl [] = refl
less_irrefl (x ∷ a) = ground (arith, less_irrefl a)

-- Two texts of which none is less are the same.
pub less-antisym : (a b : List ℕ) → less a b ≡ false → less b a ≡ false → a ≡ b
unfolding less
less-antisym [] [] h k = refl
less-antisym [] (y ∷ b) h k = cc
less-antisym (x ∷ a) [] h k = cc
less-antisym (x ∷ a) (y ∷ b) h k =
    let head : x ≡ y = ground arith in
    let tail : a ≡ b = less-antisym a b (ground arith) (ground arith) in rw (head, tail)

-- What the constructor of a name accepts.
abbrev pub IsText : List ℕ → Type 0
IsText cs = (cs ≢ []) × All IsPrintable cs

make_name-IsText : (cs : List ℕ) → IsText cs → make_name cs ≡ ok (record { value = cs })
make_name-IsText cs h = (make_name_iff cs (record { value = cs })).1 (h.0, h.1, refl)

-- The name is that of a row or the first, and no row and not the first is less.
record IsLeast (first : Name) (rs : List (Row (List ℕ))) (n : Name) : Type 0 where
  attained : (n ≡ first) ⊎ ((r : Row (List ℕ)) × In r rs × (n.value ≡ r.value))
  first_le : less first.value n.value ≡ false
  rows_le : (r : Row (List ℕ)) → In r rs → less r.value n.value ≡ false

preferred_of-IsLeast :
    (first : Name) (rs : List (Row (List ℕ)))
    → ((r : Row (List ℕ)) → In r rs → IsText r.value)
    → (n : Name) × (preferred_of first rs ≡ ok n) × IsLeast first rs n
unfolding preferred_of preferred_name
preferred_of-IsLeast first [] h = (
  first,
  refl,
  record { attained = inl refl; first_le = less_irrefl first.value; rows_le = λ r i. absurd i },
)
preferred_of-IsLeast first (r ∷ rs) h =
    let this : Name = record { value = r.value } in
    let made = make_name-IsText r.value (h r (inl refl)) in
    elim (Bool-cases (less first.value r.value)) [
      | inl kept ↦
          let (n, e, l) = preferred_of-IsLeast first rs (λ s i. h s (inr i)) in
          (
            n,
            rw (made, kept) e,
            record {
              attained = elim l.attained [
                | inl same ↦ inl same
                | inr (s, i, q) ↦ inr (s, inr i, q)
              ];
              first_le = l.first_le;
              rows_le = λ s i. elim i [
                | inl same ↦ rw same (
                    ground (
                      arith,
                      less_trans first.value r.value n.value,
                      l.first_le,
                      kept,
                      Bool-cases (less r.value n.value),
                    ))
                | inr j ↦ l.rows_le s j
              ];
            },
          )
      | inr replaced ↦
          let (n, e, l) = preferred_of-IsLeast this rs (λ s i. h s (inr i)) in
          (
            n,
            rw (made, replaced) e,
            record {
              attained = elim l.attained [
                | inl same ↦ inr (r, inl refl, ap (λ (x : Name). x.value) same)
                | inr (s, i, q) ↦ inr (s, inr i, q)
              ];
              first_le =
                  ground (arith, less-split first.value r.value n.value, l.first_le, replaced);
              rows_le = λ s i. elim i [ inl same ↦ rw same l.first_le | inr j ↦ l.rows_le s j ];
            },
          )
    ]

module _ {p : Platform} (db : Db p) (document : String) where
  -- The live rows of the document's name with the newest timestamp.
  abbrev pub NewestName : Row (List ℕ) → Type 0
  NewestName = IsNewest (λ s. In s (rows p.sql db.name)) document

  -- What the name of a document has to be.
  abbrev pub IsNameOf : Option Name → Type 0
  IsNameOf none = (r : Row (List ℕ)) → ¬ NewestName r
  IsNameOf (some n) =
      ((r : Row (List ℕ)) × NewestName r × (n.value ≡ r.value))
      × ((r : Row (List ℕ)) → NewestName r → less r.value n.value ≡ false)

module _ {p : Platform} (laws : IsSql p.sql) (db : Db p) (document : String) where
  from_rows :
      (rs : List (Row (List ℕ)))
      → ((r : Row (List ℕ)) → In r rs ↔ NewestName db document r)
      → ((r : Row (List ℕ)) → NewestName db document r → IsText r.value)
      → (o : Option Name) × (elim rs [
        | [] ↦ ok none
        | first ∷ rest ↦ make_name first.value >>= λ name.
            preferred_of name (first ∷ rest) >>= λ latest_name. ok (some latest_name)
      ]
          ≡ ok o)
        × IsNameOf db document o
  from_rows [] same valid = (none, refl, λ r n. (same r).1 n)
  from_rows (r ∷ rs) same valid =
      let first : Name = record { value = r.value } in
      let newest = (same r).0 (inl refl) in
      let (n, e, l) = preferred_of-IsLeast first (r ∷ rs) (λ s i. valid s ((same s).0 i)) in
      (
        some n,
        rw (make_name-IsText r.value (valid r newest), e),
        (
          elim l.attained [
            | inl is_first ↦ (r, newest, ap (λ (x : Name). x.value) is_first)
            | inr (s, i, q) ↦ (s, (same s).0 i, q)
          ],
          λ s m. l.rows_le s ((same s).1 m),
        ),
      )

  -- Where every newest live row of a document's name holds a name, the query comes back. There is no
  -- name just where there is no such row; otherwise it is the name of one, and none is less.
  pub name_of_document_lem :
      ((r : Row (List ℕ)) → NewestName db document r → IsText r.value)
      → (o : Option Name) × (name_of_document db document ≡ ok o) × IsNameOf db document o
  unfolding name_of_document
  name_of_document_lem valid =
      from_rows (latest p.sql db.name document) (In-latest laws db.name document) valid

module _ {p : Platform} (laws : IsSql p.sql) (db : Db p) (document : String) where
  -- There is only one name that it can be.
  IsNameOf-unique :
      (o : Option Name) (n : Name)
      → IsNameOf db document o
      → IsNameOf db document (some n)
      → o ≡ some n
  IsNameOf-unique none n none_is ((r, newest, _), _) = absurd (none_is r newest)
  IsNameOf-unique (some m) n ((r, here, at), least) ((s, there, at'), least') =
      ap (λ v. some (record { value = v }))
        (less-antisym m.value n.value (rw at (least' r here)) (rw at' (least s there)))

  pub name_of_document_iff :
      ((r : Row (List ℕ)) → NewestName db document r → IsText r.value)
      → (n : Name) → (name_of_document db document ≡ ok (some n)) ↔ IsNameOf db document (some n)
  name_of_document_iff valid n =
      let (o, named, is_name) = name_of_document_lem laws db document valid in
      (
        λ e. subst (IsNameOf db document) (ok-injective (sym named ∙ e)) is_name,
        λ h. named ∙ ap ok (IsNameOf-unique o n is_name h),
      )
