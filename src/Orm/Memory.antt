-- ===== src/Orm/Memory.antt =====
-- Tables in memory: an instance of the interface, where `findOne` picks the first row and `order`
-- is an insertion sort.
use liquidator.Base.{
  Option, ◌≡◌, refl, ◌∙◌, inl, inr, Bool, true, false, none, some, List, [], ◌∷◌, ◌++◌, map, filter,
  find, count, All, if◌then◌else◌, Bool-cases, arith,
}
use liquidator.Base.Int.{ℤ, ◌≤ℤ◌, leb_ℤ}
use liquidator.Orm.{Orm}
use liquidator.Orm.Rows.{In, IsAscending}

module _ {Row : Type 0} where
  unfoldable pub insert_by : (Row → ℤ) → Row → List Row → List Row
  insert_by key r [] = r ∷ []
  insert_by key r (x ∷ xs) =
      let rest = insert_by key r xs in if leb_ℤ (key r) (key x) then r ∷ x ∷ xs else x ∷ rest

  unfoldable pub sort_by : (Row → ℤ) → List Row → List Row
  unfolding insert_by
  sort_by key [] = []
  sort_by key (x ∷ xs) = insert_by key x (sort_by key xs)

  abbrev pub update_rows : (Row → Bool) → (Row → Row) → List Row → List Row
  update_rows p f t = map (λ r. if p r then f r else r) t

module _ {Row : Type 0} where
  pub find-none : (p : Row → Bool) (t : List Row) → find p t ≡ none → All (λ r. p r ≡ false) t
  find-none p [] h = tt
  find-none p (x ∷ xs) h = elim (Bool-cases (p x)) [
    | inl t ↦ absurd (ground arith)
    | inr f ↦ (f, find-none p xs (ground arith))
  ]

  pub find-some :
      (p : Row → Bool) (t : List Row) (r : Row) → find p t ≡ some r → In r t × (p r ≡ true)
  find-some p [] r h = cc
  find-some p (x ∷ xs) r h = elim (Bool-cases (p x)) [
    | inl t ↦ (inl (ground arith), ground arith)
    | inr f ↦ let s = find-some p xs r (ground arith) in (inr s.0, s.1)
  ]

  count-insert_by :
      (key : Row → ℤ) (p : Row → Bool) (r : Row) (t : List Row)
      → count p (insert_by key r t) ≡ count p (r ∷ t)
  unfolding insert_by
  count-insert_by key p r [] = refl
  count-insert_by key p r (x ∷ xs) = ground (arith, count-insert_by key p r xs)

  pub count-sort_by :
      (key : Row → ℤ) (p : Row → Bool) (t : List Row) → count p (sort_by key t) ≡ count p t
  unfolding sort_by
  count-sort_by key p [] = refl
  count-sort_by key p (x ∷ xs) =
      count-insert_by key p x (sort_by key xs) ∙ ground (arith, count-sort_by key p xs)

  All-trans :
      (key : Row → ℤ) (r x : Row) (t : List Row)
      → key r ≤ℤ key x
      → All (λ y. key x ≤ℤ key y) t
      → All (λ y. key r ≤ℤ key y) t
  All-trans key r x [] h a = tt
  All-trans key r x (y ∷ ys) h a = (omega (arith, a.0), All-trans key r x ys h a.1)

  All-insert_by :
      (key : Row → ℤ) (P : Row → Type 0) (r : Row) (t : List Row)
      → P r
      → All P t
      → All P (insert_by key r t)
  unfolding insert_by
  All-insert_by key P r [] h a = (h, tt)
  All-insert_by key P r (x ∷ xs) h a = elim (Bool-cases (leb_ℤ (key r) (key x))) [
    | inl t ↦ rw t (h, a)
    | inr f ↦ rw f (a.0, All-insert_by key P r xs h a.1)
  ]

  insert_by-IsAscending :
      (key : Row → ℤ) (r : Row) (t : List Row)
      → IsAscending key t
      → IsAscending key (insert_by key r t)
  unfolding insert_by
  insert_by-IsAscending key r [] h = (tt, tt)
  insert_by-IsAscending key r (x ∷ xs) h = elim (Bool-cases (leb_ℤ (key r) (key x))) [
    | inl t ↦ let le : key r ≤ℤ key x = ground arith in rw t ((le, All-trans key r x xs le h.0), h)
    | inr f ↦
        let le : key x ≤ℤ key r = ground arith in
        rw f
          (All-insert_by key (λ y. key x ≤ℤ key y) r xs le h.0, insert_by-IsAscending key r xs h.1)
  ]

  pub sort_by-IsAscending : (key : Row → ℤ) (t : List Row) → IsAscending key (sort_by key t)
  unfolding sort_by
  sort_by-IsAscending key [] = tt
  sort_by-IsAscending key (x ∷ xs) =
      insert_by-IsAscending key x (sort_by key xs) (sort_by-IsAscending key xs)

module _ {Row : Type 0} (p : Row → Bool) (row : Row) (t : List Row) where
  abbrev pub put_row : Option Row → List Row
  put_row none = t ++ (row ∷ [])
  put_row (some r) = update_rows p (λ _. row) t

  pub put_row-some :
      (o : Option Row) (r : Row) → o ≡ some r → put_row o ≡ update_rows p (λ _. row) t
  put_row-some none r e = absurd (let c : ⊥ = cc in c)
  put_row-some (some x) r e = refl

  pub put_row-none : (o : Option Row) → o ≡ none → put_row o ≡ t ++ (row ∷ [])
  put_row-none none e = refl
  put_row-none (some x) e = absurd (let c : ⊥ = cc in c)

abbrev pub memory : Orm
memory = record {
  find_all = λ p t. filter p t;
  find_one = λ p t. find p t;
  create = λ r t. t ++ (r ∷ []);
  update = λ p f t. update_rows p f t;
  upsert = λ p row t. put_row p row t (find p t);
  order_by = λ key t. sort_by key t;
  find_all_lem = λ p t. refl;
  find_one_none = λ p t h. find-none p t h;
  find_one_some = λ p t r h. find-some p t r h;
  create_lem = λ r t. refl;
  update_lem = λ p f t. refl;
  upsert_known = λ p row t r h. put_row-some p row t (find p t) r h;
  upsert_new = λ p row t h. put_row-none p row t (find p t) h;
  order_by-count = λ key p t. count-sort_by key p t;
  order_by-IsAscending = λ key t. sort_by-IsAscending key t;
}
