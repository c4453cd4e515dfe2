-- ===== src/Worker/Order.antt =====
-- Which pending position src/jobs/liquidate-check-queue/index.ts hands out.
use liquidator.Base.{
  count-never, ℕ, ◌≤◌, ◌≡◌, refl, subst, inl, inr, Bool, true, false, not, ◌&&◌, Option, none, some,
  List, [], ◌∷◌, filter, count, All, Bool-cases, arith, ==_iff,
}
use liquidator.Base.Results.{Result, ok, err}
use liquidator.Base.Int.{ℤ, ltb_ℤ, ◌≤ℤ◌}
use liquidator.BigNumber.{BigNumber}
use liquidator.BigNumber.Bigint.{Bigint}
use liquidator.Orm.{Orm}
use liquidator.Orm.Rows.{IsAscending}
use liquidator.State.{Liquidation}
use liquidator.Services.{Services}
use liquidator.Queue.{has_id}
use liquidator.Queue.Counts.{count-le, count-none}
use liquidator.Worker.{is_pending_row, last, sort_key, check_casts, best_pending}

count-filter :
    {Row : Type 0} (p q : Row → Bool) (xs : List Row)
    → count p (filter q xs) ≡ count (λ x. p x && q x) xs
count-filter p q [] = refl
count-filter p q (x ∷ xs) = ground (arith, count-filter p q xs)

last-none : {Num : Type 0} (xs : List (Liquidation Num)) → last xs ≡ none → xs ≡ []
unfolding last
last-none [] e = refl
last-none {Num = Num} (x ∷ xs) e = by_rest (last xs) e
  where
    by_rest :
        (o : Option (Liquidation Num))
        → (let end : Option (Liquidation Num) = elim o [ none ↦ some x | some l ↦ some l ] in end)
          ≡ none
        → x ∷ xs ≡ []
    by_rest none e = absurd (let c : ⊥ = cc in c)
    by_rest (some l) e = absurd (let c : ⊥ = cc in c)

module _ {Num : Type 0} (key : Liquidation Num → ℤ) where
  -- How many pending rows rank above a row.
  abbrev pub better : Liquidation Num → List (Liquidation Num) → ℕ
  better r = count (λ x. is_pending_row x && ltb_ℤ (key r) (key x))

  -- The row stands in the table, by every test.
  abbrev IsLast : Liquidation Num → List (Liquidation Num) → Type 0
  IsLast r xs = (better r xs ≡ 0) × ((p : Liquidation Num → Bool) → p r ≡ true → 1 ≤ count p xs)

  single : (x : Liquidation Num) → IsLast x (x ∷ [])
  single x = (ground arith, λ p h. rw h (omega arith))

  All-lower :
      (x : Liquidation Num) (xs : List (Liquidation Num))
      → All (λ y. key x ≤ℤ key y) xs
      → All (λ y. ltb_ℤ (key y) (key x) ≡ false) xs
  All-lower x [] h = tt
  All-lower x (y ∷ ys) h = (ground (arith, h.0), All-lower x ys h.1)

  longer :
      (x r : Liquidation Num) (xs : List (Liquidation Num))
      → All (λ y. key x ≤ℤ key y) xs
      → IsLast r xs
      → IsLast r (x ∷ xs)
  longer x r xs above h = (ground (arith, h.0, top), λ p t. ground (arith, h.1 p t))
    where
      lower : All (λ y. ltb_ℤ (key y) (key x) ≡ false) xs
      lower = All-lower x xs above

      top : key x ≤ℤ key r
      top = elim (Bool-cases (ltb_ℤ (key r) (key x))) [
        | inl t ↦ absurd (
            let some_lower = h.1 (λ y. ltb_ℤ (key y) (key x)) t in
            omega (arith, some_lower, count-none (λ y. ltb_ℤ (key y) (key x)) xs lower))
        | inr f ↦ ground arith
      ]

  -- The last row of a table in order.
  ranked :
      (r : Liquidation Num) (xs : List (Liquidation Num))
      → IsAscending key xs
      → last xs ≡ some r
      → IsLast r xs
  unfolding last
  ranked r [] h e = absurd (let c : ⊥ = cc in c)
  ranked r (x ∷ xs) h e = by_rest (last xs) refl e (ranked r xs h.1)
    where
      by_rest :
          (o : Option (Liquidation Num))
          → last xs ≡ o
          → (let end : Option (Liquidation Num) = elim o [ none ↦ some x | some l ↦ some l ] in end)
            ≡ some r
          → (last xs ≡ some r → IsLast r xs)
          → IsLast r (x ∷ xs)
      by_rest none q e ih =
          let same : x ≡ r = cc in
          rw (last-none xs q) (subst (λ z. IsLast z (x ∷ [])) same (single x))
      by_rest (some l) q e ih = longer x r xs h.0 (ih (let same : last xs ≡ some r = cc in same))

-- What the job's query must find: a pending position that no pending position outranks, or nothing
-- where none is pending.
abbrev pub IsGreatest :
    {Num : Type 0}
    → (Liquidation Num → ℤ)
    → List (Liquidation Num)
    → Option (Liquidation Num)
    → Type 0
IsGreatest key rows none = count is_pending_row rows ≡ 0
IsGreatest key rows (some r) =
    (is_pending_row r ≡ true)
    × (better key r rows ≡ 0)
    × (1 ≤ count (λ x. has_id r.id x && is_pending_row x) rows)

module _ (bn : BigNumber) (orm : Orm) {World : Type 0} (services : Services bn.Num World)
    (sortable : Bigint bn) where
  abbrev key : Liquidation bn.Num → ℤ
  key r = sort_key bn orm services sortable r

  count-ordered :
      (p : Liquidation bn.Num → Bool) (rows : List (Liquidation bn.Num))
      → count p (orm.order_by key (orm.find_all is_pending_row rows))
        ≡ count (λ x. p x && is_pending_row x) rows
  count-ordered p rows =
      rw
        (
          orm.order_by-count key p (orm.find_all is_pending_row rows),
          orm.find_all_lem is_pending_row rows,
        )
        (count-filter p is_pending_row rows)

  -- The last of the pending rows in order.
  pub last-IsGreatest :
      (rows : List (Liquidation bn.Num))
      → IsGreatest key rows (last (orm.order_by key (orm.find_all is_pending_row rows)))
  last-IsGreatest rows = by_end (last sorted) refl
    where
      sorted : List (Liquidation bn.Num)
      sorted = orm.order_by key (orm.find_all is_pending_row rows)

      by_end : (o : Option (Liquidation bn.Num)) → last sorted ≡ o → IsGreatest key rows o
      by_end none e =
          let empty : count is_pending_row sorted ≡ 0 = rw (last-none sorted e) refl in
          omega (
            arith,
            empty,
            count-ordered is_pending_row rows,
            count-le is_pending_row (λ x. is_pending_row x && is_pending_row x) rows
                (λ x t. ground arith),
          )
      by_end (some r) e =
          let z =
            ranked key r sorted (orm.order_by-IsAscending key (orm.find_all is_pending_row rows))
              e in
          (is_taken_pending r z.1, no_better r z.0, omega (arith, is_there r z.1))
        where
          is_taken_pending :
              (r : Liquidation bn.Num)
              → ((p : Liquidation bn.Num → Bool) → p r ≡ true → 1 ≤ count p sorted)
              → is_pending_row r ≡ true
          is_taken_pending r there = elim (Bool-cases (is_pending_row r)) [
            | inl t ↦ t
            | inr f ↦ absurd (
                omega (
                  arith,
                  there (λ x. not (is_pending_row x)) (rw f refl),
                  count-ordered (λ x. not (is_pending_row x)) rows,
                  count-never (λ x. not (is_pending_row x) && is_pending_row x) rows
                      (λ x. ground arith),
                ))
          ]

          no_better : (r : Liquidation bn.Num) → better key r sorted ≡ 0 → better key r rows ≡ 0
          no_better r h = omega (
            arith,
            h,
            count-ordered (λ x. is_pending_row x && ltb_ℤ (key r) (key x)) rows,
            count-le (λ x. is_pending_row x && ltb_ℤ (key r) (key x))
                (λ x. (is_pending_row x && ltb_ℤ (key r) (key x)) && is_pending_row x) rows
                (λ x t. ground arith),
          )

          is_there :
              (r : Liquidation bn.Num)
              → ((p : Liquidation bn.Num → Bool) → p r ≡ true → 1 ≤ count p sorted)
              → 1 ≤ count (λ x. has_id r.id x && is_pending_row x) rows
          is_there r there = omega (
            arith,
            there (has_id r.id) ((==_iff r.id r.id).1 refl),
            count-ordered (has_id r.id) rows,
          )

  -- What holds of the last of the pending rows holds of a pending row of the table.
  pub last-there :
      (rows : List (Liquidation bn.Num)) (r : Liquidation bn.Num) (p : Liquidation bn.Num → Bool)
      → last (orm.order_by key (orm.find_all is_pending_row rows)) ≡ some r
      → p r ≡ true
      → 1 ≤ count (λ x. p x && is_pending_row x) rows
  last-there rows r p e t =
      let sorted = orm.order_by key (orm.find_all is_pending_row rows) in
      let z =
        ranked key r sorted (orm.order_by-IsAscending key (orm.find_all is_pending_row rows)) e in
      omega (arith, z.1 p t, count-ordered p rows)

  -- What the query returns is a greatest row by the key, where it returns.
  pub returned-IsGreatest :
      (rows : List (Liquidation bn.Num)) (best : Option (Liquidation bn.Num))
      → best_pending bn orm services sortable rows ≡ ok best
      → IsGreatest key rows best
  unfolding best_pending
  returned-IsGreatest rows best e =
      go (check_casts bn orm services sortable (orm.find_all is_pending_row rows)) e
    where
      sorted : List (Liquidation bn.Num)
      sorted = orm.order_by key (orm.find_all is_pending_row rows)

      go :
          (r : Result (Unit {0}))
          → (let end : Result (Option (Liquidation bn.Num)) = elim r [
            | err e ↦ err e
            | ok u ↦ ok (last sorted)
          ] in
              end)
            ≡ ok best
          → IsGreatest key rows best
      go (err x) e = absurd (let c : ⊥ = cc in c)
      go (ok u) e =
          let same : last sorted ≡ best = cc in
          subst (IsGreatest key rows) same (last-IsGreatest rows)
