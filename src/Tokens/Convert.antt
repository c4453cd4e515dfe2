-- ===== src/Tokens/Convert.antt =====
-- How far a conversion between tokens is from the exact value.
use native.Mathlib.Nat.{mul-one, zero-add, mul-le-mul, mul-le-mul_right, le_of_mul-le-mul_left}
use liquidator.Base.{ℕ, String, suc, ◌+◌, ◌*◌, ◌^◌, ◌≤◌, ◌<◌, ◌≡◌, ap, ◌∙◌, arith}
use liquidator.BigNumber.{BigNumber}
use liquidator.BigNumber.Rounding.{nearest, nearest_bounds, nearest-mul, pow-add, pow_pos}
use liquidator.BigNumber.Amounts.{IsWhole, IsWhole_cast}
use liquidator.Orm.{Orm}
use liquidator.Tokens.{TokenReads, converted}

-- The whole number that is computed: the quotient at 20 decimal places, and rounded once more.
abbrev pub conversion : ℕ → ℕ → ℕ → ℕ → ℕ → ℕ
conversion a df pf dt pt = nearest (nearest (a * pf * 10 ^ 20) (pt * 10 ^ df) * 10 ^ dt) (10 ^ 20)

scale :
    (n p df dt : ℕ)
    → nearest (nearest (n * 10 ^ 38) (p * 10 ^ (df + 18)) * 10 ^ dt * 10 ^ 0) (10 ^ 20)
      ≡ nearest (nearest (n * 10 ^ 20) (p * 10 ^ df) * 10 ^ dt) (10 ^ 20)
scale n p df dt =
    ap (λ (t : ℕ). nearest t (10 ^ 20))
      (mul-one _
        ∙ ap (λ (t : ℕ). t * 10 ^ dt)
            (ap (λ (t : ℕ). nearest t (p * 10 ^ (df + 18)))
                (let r : n * 10 ^ 38 ≡ n * 10 ^ 20 * 10 ^ 18 = omega arith in r)
              ∙ (ap (λ (t : ℕ). nearest (n * 10 ^ 20 * 10 ^ 18) (p * t)) (pow-add 10 df 18)
                  ∙ (ap (λ (t : ℕ). nearest (n * 10 ^ 20 * 10 ^ 18) t)
                        (let r : p * (10 ^ df * 10 ^ 18) ≡ p * 10 ^ df * 10 ^ 18 = omega arith in r)
                      ∙ nearest-mul (n * 10 ^ 20) (p * 10 ^ df) (10 ^ 18) (pow_pos 18)))))

-- Two roundings to the nearest miss a quotient by less than one, where the first is fine enough:
-- q is n t / d, and r is q e / t, with e at most t.
twice_rounded :
    (n d e t q r : ℕ)
    → 0 < t
    → e ≤ t
    → 2 * (n * t) ≤ 2 * (q * d) + d
    → 2 * (q * d) ≤ 2 * (n * t) + d
    → 2 * (q * e) ≤ 2 * (r * t) + t
    → 2 * (r * t) ≤ 2 * (q * e) + t
    → (r * d ≤ n * e + d) × (n * e ≤ r * d + d)
twice_rounded n d e t q r t_pos small low high below above = (
  le_of_mul-le-mul_left {k = 2 * t}
      (let first = mul-le-mul_right d above in
        let second = mul-le-mul_right e high in let third = mul-le-mul_right d small in omega arith)
      (omega (arith, t_pos)),
  le_of_mul-le-mul_left {k = 2 * t}
      (let first = mul-le-mul_right d below in
        let second = mul-le-mul_right e low in let third = mul-le-mul_right d small in omega arith)
      (omega (arith, t_pos)),
)

conversion_bounds :
    (a df pf dt pt : ℕ)
    → 0 < pt
    → 10 ^ dt ≤ 10 ^ 20
    → let c = conversion a df pf dt pt in
      (c * (pt * 10 ^ df) ≤ a * pf * 10 ^ dt + pt * 10 ^ df)
      × (a * pf * 10 ^ dt ≤ c * (pt * 10 ^ df) + pt * 10 ^ df)
conversion_bounds a df pf dt pt pt_pos small =
    let d_pos : 0 < pt * 10 ^ df = mul-le-mul pt_pos (pow_pos df) in
    let q = nearest (a * pf * 10 ^ 20) (pt * 10 ^ df) in
    let first = nearest_bounds (a * pf * 10 ^ 20) (pt * 10 ^ df) d_pos in
    let second = nearest_bounds (q * 10 ^ dt) (10 ^ 20) (pow_pos 20) in
    twice_rounded (a * pf) (pt * 10 ^ df) (10 ^ dt) (10 ^ 20) q (conversion a df pf dt pt)
      (pow_pos 20) small (first.0) (first.1) (second.0) (second.1)

module _ (bn : BigNumber) (orm : Orm) {World : Type 0} (reads : TokenReads bn.Num World)
    (account : String) where
  converted-IsWhole :
      (amount price_from price_to : bn.Num) (a df pf dt pt : ℕ)
      → IsWhole bn amount a
      → IsWhole bn price_from pf
      → IsWhole bn price_to (suc pt)
      → IsWhole bn
          (converted bn orm reads account amount df price_from dt price_to)
          (conversion a df pf dt (suc pt))
  unfolding converted
  converted-IsWhole amount price_from price_to a df pf dt pt ha hf ht =
      let product =
        bn.times_lem _ _ _ _ _ _ (bn.shifted_down_lem df _ _ _ ha)
          (bn.shifted_down_lem 18 _ _ _ hf) in
      let quotient = bn.div_lem _ _ _ _ _ _ product (bn.shifted_down_lem 18 _ _ _ ht) in
      IsWhole_cast bn _ (rw zero-add (scale (a * pf) (suc pt) df dt))
        (bn.to_fixed_lem 0 _ _ _ (bn.shifted_up_lem dt _ _ _ quotient))

  -- Where the amount and both prices are whole numbers, the second price is not 0, and the target has
  -- at most 20 decimals: what `convertToken` returns is a whole number that misses the exact value of
  -- the amount in the target token by one base unit at most.
  pub converted_bounds :
      (amount price_from price_to : bn.Num) (a df pf dt pt : ℕ)
      → IsWhole bn amount a
      → IsWhole bn price_from pf
      → IsWhole bn price_to (suc pt)
      → 10 ^ dt ≤ 10 ^ 20
      → (c : ℕ) × IsWhole bn (converted bn orm reads account amount df price_from dt price_to) c
        × (c * (suc pt * 10 ^ df) ≤ a * pf * 10 ^ dt + suc pt * 10 ^ df)
        × (a * pf * 10 ^ dt ≤ c * (suc pt * 10 ^ df) + suc pt * 10 ^ df)
  converted_bounds amount price_from price_to a df pf dt pt ha hf ht small =
      let bounds = conversion_bounds a df pf dt (suc pt) (omega arith) small in
      (
        conversion a df pf dt (suc pt),
        converted-IsWhole amount price_from price_to a df pf dt pt ha hf ht,
        bounds.0,
        bounds.1,
      )
