-- ===== src/Queue/Counts.antt =====
-- How many rows of the queue pass a test, after a row is changed or added.
use liquidator.Base.{
  suc, ◌+◌, ◌≤◌, ◌≡◌, refl, sym, ap, ◌∙◌, inl, inr, Bool, true, false, not, ◌&&◌, List, [], ◌∷◌,
  map, count, count-append, All, if◌then◌else◌, Bool-cases, arith,
}
use liquidator.Orm.{Orm}
use liquidator.Orm.Rows.{In}

module _ {Row : Type 0} where
  -- The rows that a change touches, and those that it leaves alone.
  pub count-map_if :
      (p q : Row → Bool) (f : Row → Row) (t : List Row)
      → count p (map (λ r. if q r then f r else r) t)
        ≡ count (λ r. q r && p (f r)) t + count (λ r. p r && not (q r)) t
  count-map_if p q f [] = omega arith
  count-map_if p q f (x ∷ xs) = elim (Bool-cases (q x)) [
    | inl t ↦ rw t (elim (Bool-cases (p (f x))) [
      | inl u ↦ ground (arith, count-map_if p q f xs)
      | inr u ↦ ground (arith, count-map_if p q f xs)
    ])
    | inr t ↦ rw t (elim (Bool-cases (p x)) [
      | inl u ↦ ground (arith, count-map_if p q f xs)
      | inr u ↦ ground (arith, count-map_if p q f xs)
    ])
  ]

  pub count-le :
      (p q : Row → Bool) (t : List Row)
      → ((r : Row) → p r ≡ true → q r ≡ true)
      → count p t ≤ count q t
  count-le p q [] h = omega arith
  count-le p q (x ∷ xs) h = ground (arith, count-le p q xs h, h x)

  pub count-none : (p : Row → Bool) (t : List Row) → All (λ r. p r ≡ false) t → count p t ≡ 0
  count-none p [] h = refl
  count-none p (x ∷ xs) h = ground (arith, count-none p xs h.1)

  -- A row that passes both tests is counted by the first and not by the second.
  pub count-without :
      (p q : Row → Bool) (r : Row) (t : List Row)
      → In r t
      → p r ≡ true
      → q r ≡ true
      → suc (count (λ x. p x && not (q x)) t) ≤ count p t
  count-without p q r [] i hp hq = elim i [ ]
  count-without p q r (x ∷ xs) (inl e) hp hq =
      let px : p x ≡ true = ap p (sym e) ∙ hp in
      let qx : q x ≡ true = ap q (sym e) ∙ hq in
      let rest = count-le (λ y. p y && not (q y)) p xs (λ y k. ground arith) in
      rw (px, qx) (omega (arith, rest))
  count-without p q r (x ∷ xs) (inr i) hp hq = ground (arith, count-without p q r xs i hp hq)

module _ (orm : Orm) {Row : Type 0} where
  pub count-update :
      (p q : Row → Bool) (f : Row → Row) (t : List Row)
      → count p (orm.update q f t) ≡ count (λ r. q r && p (f r)) t + count (λ r. p r && not (q r)) t
  count-update p q f t = rw (orm.update_lem q f t) (count-map_if p q f t)

  -- A change after which no row passes that did not pass before.
  pub count-update_le :
      (p q : Row → Bool) (f : Row → Row) (t : List Row)
      → ((r : Row) → p (f r) ≡ true → p r ≡ true)
      → count p (orm.update q f t) ≤ count p t
  count-update_le p q f t h = rw (orm.update_lem q f t) (go t)
    where
      go : (l : List Row) → count p (map (λ r. if q r then f r else r) l) ≤ count p l
      go [] = omega arith
      go (x ∷ xs) = elim (Bool-cases (q x)) [
        | inl u ↦ rw u (ground (arith, go xs, h x))
        | inr u ↦ rw u (ground (arith, go xs))
      ]

  -- A change that touches at most as many rows as pass a second test.
  pub count-update_at :
      (p q : Row → Bool) (f : Row → Row) (t : List Row)
      → count p (orm.update q f t) ≤ count q t + count (λ r. p r && not (q r)) t
  count-update_at p q f t =
      let part = count-le (λ r. q r && p (f r)) q t (λ r k. ground arith) in
      rw (count-update p q f t) (omega (arith, part))

  pub count-create :
      (p : Row → Bool) (r : Row) (t : List Row)
      → count p (orm.create r t) ≡ count p t + (if p r then 1 else 0)
  count-create p r t = rw (orm.create_lem r t, count-append p t (r ∷ [])) refl
