-- ===== src/Base/Double.antt =====
-- `Number` of a whole number: the double that is closest to it.
use Prim.Native.Nat.{ℕ, zero, suc, ◌+◌, ◌*◌, ◌/◌, ◌%◌, ◌^◌, ◌<◌, ◌≤◌}
use mathlib.Core.Path.{◌≡◌, refl, ap, ◌∙◌}
use native.Mathlib.Omega.{arith}
use mathlib.Core.Bool.{Bool, true, false, ◌&&◌, ◌||◌}
use mathlib.Core.Logic.{inl, inr}
use native.Mathlib.Nat.{mul_left_comm}
use liquidator.Base.Tests.{Bool-cases, ltb, ◌==◌, if◌then◌else◌}

-- The distance of neighbouring doubles about n, which has 53 digits of two and as many more as the
-- first argument at most.
unfoldable pub ulp : ℕ → ℕ → ℕ
ulp zero n = 1
ulp (suc more) n = let half = ulp more (n / 2) in if ltb n (2 ^ 53) then 1 else 2 * half

-- The multiple of u that is closest to n, and of two the even one.
unfoldable pub round_even : ℕ → ℕ → ℕ
round_even n u =
    let down = n / u in
    let below = 2 * (n % u) in
    if ltb below u || (below == u && down % 2 == 0) then down * u else (down + 1) * u

-- `Number(n)`, for an n below 2 ^ 256, which is all that a contract returns.
unfoldable pub to_double : ℕ → ℕ
to_double n = if ltb n (2 ^ 53) then n else round_even n (ulp 203 n)

-- Whole numbers below 2 ^ 53 are doubles.
pub to_double_exact : (n : ℕ) → n < 2 ^ 53 → to_double n ≡ n
unfolding to_double
to_double_exact n h = ground arith

-- From 2 ^ 53 on doubles are even.
even_multiple : (q h : ℕ) → q * (2 * h) % 2 ≡ 0
even_multiple q h = omega (arith, mul_left_comm q 2 h)

round_even-IsEven : (n h : ℕ) → round_even n (2 * h) % 2 ≡ 0
unfolding round_even
round_even-IsEven n h =
    elim (Bool-cases
      (ltb (2 * (n % (2 * h))) (2 * h) || (2 * (n % (2 * h)) == 2 * h && n / (2 * h) % 2 == 0))) [
        | inl t ↦ rw t (even_multiple (n / (2 * h)) h)
        | inr f ↦ rw f (even_multiple (n / (2 * h) + 1) h)
      ]

ulp_lem : (n : ℕ) → 2 ^ 53 ≤ n → ulp 203 n ≡ 2 * ulp 202 (n / 2)
unfolding ulp
ulp_lem n big = by_size (ltb n (2 ^ 53)) small
  where
    small : ltb n (2 ^ 53) ≡ false
    small = ground (arith, big)

    by_size : (b : Bool) → b ≡ false → (if b then 1 else 2 * ulp 202 (n / 2)) ≡ 2 * ulp 202 (n / 2)
    by_size true e = absurd (let c : ⊥ = cc in c)
    by_size false e = refl

pub to_double-IsEven : (n : ℕ) → 2 ^ 53 ≤ n → to_double n % 2 ≡ 0
unfolding to_double
to_double-IsEven n big = by_size (ltb n (2 ^ 53)) small
  where
    small : ltb n (2 ^ 53) ≡ false
    small = ground (arith, big)

    rounded : round_even n (ulp 203 n) % 2 ≡ 0
    rounded = ap (λ u. round_even n u % 2) (ulp_lem n big) ∙ round_even-IsEven n (ulp 202 (n / 2))

    by_size : (b : Bool) → b ≡ false → (if b then n else round_even n (ulp 203 n)) % 2 ≡ 0
    by_size true e = absurd (let c : ⊥ = cc in c)
    by_size false e = rounded
