-- ===== src/Reserves/Bits.antt =====
-- Which reserves a configuration names.
use liquidator.Base.{
  to_double, to_double-IsEven, ℕ, zero, suc, ◌+◌, ◌*◌, ◌/◌, ◌%◌, ◌^◌, ◌≤◌, ◌≡◌, refl, sym, ap, ◌∙◌,
  Bool, false, List, [], ◌∷◌, ◌==◌, Bool-cases, inl, inr, arith, ◌<◌, to_double_exact,
  if◌then◌else◌,
}
use native.Mathlib.Nat.{div-div-eq-div-mul, zero-div, pow-succ'}
use liquidator.Reserves.{digits_from, binary, slots}

-- The flags of the reserve j; a reserve past the end has none.
abbrev pub flags : ℕ → List (Bool × Bool) → Bool × Bool
flags j [] = (false, false)
flags zero (f ∷ rest) = f
flags (suc j) (f ∷ rest) = flags j rest

abbrev pub digit : ℕ → List Bool → Bool
digit k [] = false
digit zero (d ∷ ds) = d
digit (suc k) (d ∷ ds) = digit k ds

doubled : (j : ℕ) → 2 * suc j + 1 ≡ suc (suc (2 * j + 1))
doubled j = omega arith

doubled_suc : (j : ℕ) → 2 * suc j ≡ suc (suc (2 * j))
doubled_suc j = omega arith

flags-slots :
    (j : ℕ) (ds : List Bool) → flags j (slots ds) ≡ (digit (2 * j + 1) ds, digit (2 * j) ds)
unfolding slots
flags-slots j [] = refl
flags-slots zero (d ∷ []) = refl
flags-slots (suc j) (d ∷ []) = rw (doubled j, doubled_suc j) refl
flags-slots zero (d ∷ e ∷ ds) = refl
flags-slots (suc j) (d ∷ e ∷ ds) = rw (doubled j, doubled_suc j) (flags-slots j ds)

digit-digits_from : (fuel n k : ℕ) → n ≤ fuel → digit k (digits_from fuel n) ≡ (n / 2 ^ k % 2 == 1)
unfolding digits_from
digit-digits_from zero n k enough =
    let none_left : n ≡ 0 = omega (arith, enough) in rw (none_left, zero-div (2 ^ k)) refl
digit-digits_from (suc fuel) n zero enough = elim (Bool-cases (n == 0)) [
  | inl t ↦ rw t (ground (arith, t))
  | inr f ↦ rw f (ground (arith, f))
]
digit-digits_from (suc fuel) n (suc k) enough = elim (Bool-cases (n == 0)) [
  | inl t ↦ let none_left : n ≡ 0 = ground (arith, t) in rw (none_left, zero-div (2 ^ suc k)) refl
  | inr f ↦ rw f (
      digit-digits_from fuel (n / 2) k (ground (arith, enough, f))
      ∙ ap (λ m. m % 2 == 1)
          (div-div-eq-div-mul n 2 (2 ^ k) ∙ ap (λ m. n / m) (sym (pow-succ' 2 k))))
]

digits_of : ℕ → List Bool
digits_of n = if n == 0 then false ∷ [] else digits_from n n

digit-digits_of : (n k : ℕ) → digit k (digits_of n) ≡ (n / 2 ^ k % 2 == 1)
unfolding digits_of
digit-digits_of n k = elim (Bool-cases (n == 0)) [
  | inl t ↦
      let none_left : n ≡ 0 = ground (arith, t) in rw (t, none_left, zero-div (2 ^ k)) (all_zero k)
  | inr f ↦ rw f (digit-digits_from n n k (omega arith))
]
  where
    all_zero : (k : ℕ) → digit k (false ∷ []) ≡ false
    all_zero zero = refl
    all_zero (suc k) = refl

digit-binary : (n k : ℕ) → n < 2 ^ 53 → digit k (binary n) ≡ (n / 2 ^ k % 2 == 1)
unfolding binary digits_of
digit-binary n k small = rw (to_double_exact n small) (digit-digits_of n k)

-- The decoded flags of the reserve j are the bits 2 * j + 1 (a collateral) and 2 * j (a debt) of a
-- configuration below 2 ^ 53, as any with 26 reserves is, for every j, past the end of the text too.
pub flags-binary :
    (n j : ℕ)
    → n < 2 ^ 53
    → flags j (slots (binary n)) ≡ (n / 2 ^ (2 * j + 1) % 2 == 1, n / 2 ^ (2 * j) % 2 == 1)
flags-binary n j small =
    flags-slots j (binary n)
    ∙ ap (λ c. (c, digit (2 * j) (binary n))) (digit-binary n (2 * j + 1) small)
    ∙ ap (λ d. (n / 2 ^ (2 * j + 1) % 2 == 1, d)) (digit-binary n (2 * j) small)

-- For a configuration of 2 ^ 53 or more, one with the deposit flag of the 27th reserve or any flag of
-- a later one: the debt of the first reserve is not seen, whatever its bit is, since the
-- configuration goes through a double.
pub first_debt_lost : (n : ℕ) → 2 ^ 53 ≤ n → (flags 0 (slots (binary n))).1 ≡ false
unfolding binary digits_of
first_debt_lost n big =
    ap (λ f. f.1) (flags-slots 0 (digits_of (to_double n)))
    ∙ (digit-digits_of (to_double n) 0 ∙ no_unit (to_double n) (to_double-IsEven n big))
  where
    no_unit : (m : ℕ) → m % 2 ≡ 0 → (m / 2 ^ 0 % 2 == 1) ≡ false
    no_unit m h = ground (arith, h)
