-- ===== src/Worker/Best.antt =====
-- Which pending position src/jobs/sheduler/liquidate-check-queue.ts hands out, by its profit: the
-- query sorts by a cast to 64 bits.
use liquidator.Base.{
  ◌≤◌, ◌≡◌, refl, ◌∙◌, ap, ◌⊎◌, inl, inr, Bool, true, false, not, ◌&&◌, Option, none, some, List,
  [], ◌∷◌, filter, count, All, Bool-cases, arith,
}
use liquidator.Base.Int.{ℤ, ltb_ℤ, leb_ℤ}
use liquidator.Base.Results.{ok, err, external}
use liquidator.BigNumber.{BigNumber}
use liquidator.BigNumber.Bigint.{Bigint, fits}
use liquidator.Orm.{Orm}
use liquidator.State.{Liquidation}
use liquidator.Services.{Services}
use liquidator.Queue.Counts.{count-none}
use liquidator.Worker.Order.{IsGreatest, last-IsGreatest, last-there}
use liquidator.Worker.{is_pending_row, last, sort_key, check_casts, best_pending}

count-le-All :
    {Row : Type 0} (p q : Row → Bool) (xs : List Row)
    → All (λ x. p x ≡ true → q x ≡ true) xs
    → count p xs ≤ count q xs
count-le-All p q [] h = omega arith
count-le-All p q (x ∷ xs) h = ground (arith, h.0, count-le-All p q xs h.1)

All-map :
    {Row : Type 0} {P Q : Row → Type 0} (xs : List Row)
    → ((x : Row) → P x → Q x)
    → All P xs
    → All Q xs
All-map [] f h = tt
All-map (x ∷ xs) f h = (f x h.0, All-map xs f h.1)

module _ (bn : BigNumber) (orm : Orm) {World : Type 0} (services : Services bn.Num World)
    (sortable : Bigint bn) (profit : Liquidation bn.Num → ℤ) where
  -- A pending row whose profit is out of the range.
  abbrev pub misfits : Liquidation bn.Num → Bool
  misfits r = is_pending_row r && not (fits (profit r))

  abbrev Reads : Liquidation bn.Num → Type 0
  Reads r = is_pending_row r ≡ true → bn.Denotes r.estimated_profit_eth (profit r) 0

  abbrev Agrees : Liquidation bn.Num → Type 0
  Agrees r = is_pending_row r ≡ true → sort_key bn orm services sortable r ≡ profit r

  key_fits :
      (r : Liquidation bn.Num)
      → sortable.to_bigint r.estimated_profit_eth ≡ ok (profit r)
      → sort_key bn orm services sortable r ≡ profit r
  unfolding sort_key
  key_fits r e = rw (e, sort_key) refl

  taken :
      (r : Liquidation bn.Num) (rs : List (Liquidation bn.Num)) (z : ℤ)
      → sortable.to_bigint r.estimated_profit_eth ≡ ok z
      → check_casts bn orm services sortable (r ∷ rs) ≡ check_casts bn orm services sortable rs
  unfolding check_casts
  taken r rs z e = rw (e, check_casts) refl

  refused :
      (r : Liquidation bn.Num) (rs : List (Liquidation bn.Num))
      → sortable.to_bigint r.estimated_profit_eth ≡ err external
      → check_casts bn orm services sortable (r ∷ rs) ≡ err external
  unfolding check_casts
  refused r rs e = rw (e, check_casts) refl

  abbrev Checked : List (Liquidation bn.Num) → Type 0
  Checked rows =
      ((check_casts bn orm services sortable (filter is_pending_row rows) ≡ ok tt)
        × (count misfits rows ≡ 0)
        × All Agrees rows)
      ⊎ ((check_casts bn orm services sortable (filter is_pending_row rows) ≡ err external)
          × (1 ≤ count misfits rows))

  no_rows : check_casts bn orm services sortable [] ≡ ok tt
  unfolding check_casts
  no_rows = refl

  check_casts_lem : (rows : List (Liquidation bn.Num)) → All Reads rows → Checked rows
  check_casts_lem [] h = inl (no_rows, refl, tt)
  check_casts_lem (r ∷ rows) h =
      by_status (Bool-cases (is_pending_row r)) (check_casts_lem rows h.1)
    where
      by_range :
          is_pending_row r ≡ true
          → (fits (profit r) ≡ true) ⊎ (fits (profit r) ≡ false)
          → Checked rows
          → Checked (r ∷ rows)
      by_range t (inr f) later = inr (
        rw t (
            refused r (filter is_pending_row rows)
              (sortable.out_of_range r.estimated_profit_eth (profit r) (h.0 t) f)),
        ground (arith, t, f),
      )
      by_range t (inl f) later =
          let cast = sortable.in_range r.estimated_profit_eth (profit r) (h.0 t) f in
          let same = taken r (filter is_pending_row rows) (profit r) cast in
          elim later [
            | inl c ↦
                inl (rw t (same ∙ c.0), ground (arith, t, f, c.1), (λ p. key_fits r cast, c.2))
            | inr c ↦ inr (rw t (same ∙ c.0), ground (arith, c.1))
          ]

      by_status :
          (is_pending_row r ≡ true) ⊎ (is_pending_row r ≡ false) → Checked rows → Checked (r ∷ rows)
      by_status (inl t) later = by_range t (Bool-cases (fits (profit r))) later
      by_status (inr f) later = elim later [
        | inl c ↦ inl (
          rw f c.0,
          ground (arith, f, c.1),
          (λ p. absurd (let z : ⊥ = ground (arith, f, p) in z), c.2),
        )
        | inr c ↦ inr (rw f c.0, ground (arith, f, c.1))
      ]

  eq_ℤ : ℤ → ℤ → Bool
  eq_ℤ a b = leb_ℤ a b && leb_ℤ b a

  -- A pending row that is the last in order has its profit as its key.
  last-Agrees :
      (rows : List (Liquidation bn.Num)) (r : Liquidation bn.Num)
      → All Agrees rows
      → last (orm.order_by (sort_key bn orm services sortable) (orm.find_all is_pending_row rows))
        ≡ some r
      → sort_key bn orm services sortable r ≡ profit r
  unfolding eq_ℤ
  last-Agrees rows r agree e = elim (Bool-cases (same r)) [
    | inl t ↦ ground (arith, t)
    | inr f ↦ absurd (
        omega (
          arith,
          last-there bn orm services sortable rows r (λ x. not (same x)) e (rw f refl),
          count-none (λ x. not (same x) && is_pending_row x) rows
              (All-map rows (λ (x : Liquidation bn.Num) (a : Agrees x). ground (arith, a)) agree),
        ))
  ]
    where
      same : Liquidation bn.Num → Bool
      same x = eq_ℤ (sort_key bn orm services sortable x) (profit x)

  abbrev key : Liquidation bn.Num → ℤ
  key r = sort_key bn orm services sortable r

  -- What is greatest by its key is greatest by its profit.
  by_profit :
      (rows : List (Liquidation bn.Num))
      → All Agrees rows
      → (o : Option (Liquidation bn.Num))
      → last (orm.order_by key (orm.find_all is_pending_row rows)) ≡ o
      → IsGreatest key rows o
      → IsGreatest profit rows o
  by_profit rows agree none e g = g
  by_profit rows agree (some r) e g =
      let same = last-Agrees rows r agree e in
      (
        g.0,
        omega (
          arith,
          g.1,
          count-le-All (λ x. is_pending_row x && ltb_ℤ (profit r) (profit x))
              (λ x. is_pending_row x && ltb_ℤ (key r) (key x)) rows
              (All-map rows
                (λ (x : Liquidation bn.Num) (a : Agrees x).
                  by_keys (is_pending_row x) (profit r) (profit x) (key r) (key x) same a)
                agree),
        ),
        g.2,
      )
    where
      by_keys :
          (b : Bool) (p q k l : ℤ)
          → k ≡ p
          → (b ≡ true → l ≡ q)
          → (b && ltb_ℤ p q) ≡ true
          → (b && ltb_ℤ k l) ≡ true
      by_keys false p q k l e f h = h
      by_keys true p q k l e f h = rw (e, f refl) h

  returns :
      (rows : List (Liquidation bn.Num))
      → check_casts bn orm services sortable (filter is_pending_row rows) ≡ ok tt
      → best_pending bn orm services sortable rows
        ≡ ok (last (orm.order_by key (orm.find_all is_pending_row rows)))
  unfolding best_pending
  returns rows e =
      let fetched : check_casts bn orm services sortable (orm.find_all is_pending_row rows)
          ≡ ok tt =
        ap (check_casts bn orm services sortable) (orm.find_all_lem is_pending_row rows) ∙ e in
      rw (fetched, best_pending) refl

  throws :
      (rows : List (Liquidation bn.Num))
      → check_casts bn orm services sortable (filter is_pending_row rows) ≡ err external
      → best_pending bn orm services sortable rows ≡ err external
  unfolding best_pending
  throws rows e =
      let fetched : check_casts bn orm services sortable (orm.find_all is_pending_row rows)
          ≡ err external =
        ap (check_casts bn orm services sortable) (orm.find_all_lem is_pending_row rows) ∙ e in
      rw (fetched, best_pending) refl

  -- Where the profits of the pending rows are whole numbers: if all of them are in the range of the
  -- cast, the query returns a pending position of the table that no pending position exceeds in its
  -- estimated profit, or none if none is pending; if one is out of the range, the query throws.
  pub best_pending-IsGreatest :
      (rows : List (Liquidation bn.Num))
      → All (λ r. is_pending_row r ≡ true → bn.Denotes r.estimated_profit_eth (profit r) 0) rows
      → ((count (λ r. is_pending_row r && not (fits (profit r))) rows ≡ 0)
          × (best : Option (Liquidation bn.Num)) × (best_pending bn orm services sortable rows
              ≡ ok best)
          × IsGreatest profit rows best)
        ⊎ ((1 ≤ count (λ r. is_pending_row r && not (fits (profit r))) rows)
            × (best_pending bn orm services sortable rows ≡ err external))
  best_pending-IsGreatest rows h = elim (check_casts_lem rows h) [
    | inl c ↦ inl (
      c.1,
      last (orm.order_by key (orm.find_all is_pending_row rows)),
      returns rows c.0,
      by_profit rows c.2 (last (orm.order_by key (orm.find_all is_pending_row rows))) refl
          (last-IsGreatest bn orm services sortable rows),
    )
    | inr c ↦ inr (c.1, throws rows c.0)
  ]
