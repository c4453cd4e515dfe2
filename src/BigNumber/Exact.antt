-- ===== src/BigNumber/Exact.antt =====
-- A number as a coefficient and a count of decimal places: an instance of the interface, which
-- shows that its laws can hold together and which the examples compute with.
use liquidator.Base.{ℕ, zero, suc, ◌+◌, ◌*◌, ◌^◌, ◌≡◌, refl, arith, ◌==◌, if◌then◌else◌}
use liquidator.Base.Int.{ℤ, pos, negsuc, ◌+ℤ◌, ◌-ℤ◌, ◌*ℤ◌, ltb_ℤ, leb_ℤ}
use liquidator.BigNumber.{BigNumber}
use liquidator.BigNumber.Rounding.{round_half_up, round_down, div_half_up}

abbrev pub Decimal : Type 0
Decimal = ℤ × ℕ

-- At one count of places the coefficients add up; else both are brought to a common count.
unfoldable pub align : (ℤ → ℤ → ℤ) → Decimal → Decimal → Decimal
align f (a, k) (b, l) =
    if k == l then (f a b, k) else (f (a *ℤ pos (10 ^ l)) (b *ℤ pos (10 ^ k)), k + l)

pub align_lem :
    (f : ℤ → ℤ → ℤ) (x y : Decimal) (a b : ℤ) (k : ℕ)
    → x ≡ (a, k)
    → y ≡ (b, k)
    → align f x y ≡ (f a b, k)
unfolding align
align_lem f x y a b k hx hy = rw (hx, hy) (ground arith)

unfoldable pub quotient : Decimal → Decimal → Decimal
quotient (a, k) (pos zero, l) = (pos 0, 0)
quotient (a, k) (pos (suc b), l) = (div_half_up (a *ℤ pos (10 ^ (l + 20))) (suc b * 10 ^ k), 20)
quotient (a, k) (negsuc b, l) =
    (div_half_up (pos 0 -ℤ a *ℤ pos (10 ^ (l + 20))) (suc b * 10 ^ k), 20)

pub quotient_lem :
    (x y : Decimal) (a : ℤ) (b k l : ℕ)
    → x ≡ (a, k)
    → y ≡ (pos (suc b), l)
    → quotient x y ≡ (div_half_up (a *ℤ pos (10 ^ (l + 20))) (suc b * 10 ^ k), 20)
unfolding quotient
quotient_lem x y a b k l hx hy = rw (hx, hy)

abbrev pub exact : BigNumber
exact = record {
  Num = Decimal;
  num = λ a k. (pos a, k);
  plus = align ◌+ℤ◌;
  minus = align ◌-ℤ◌;
  times = λ x y. (x.0 *ℤ y.0, x.1 + y.1);
  div = quotient;
  shifted_up = λ n x. (x.0 *ℤ pos (10 ^ n), x.1);
  shifted_down = λ n x. (x.0, x.1 + n);
  to_fixed = λ dp x. (round_half_up (x.0 *ℤ pos (10 ^ dp)) x.1, dp);
  to_fixed_down = λ dp x. (round_down (x.0 *ℤ pos (10 ^ dp)) x.1, dp);
  lt = λ x y. ltb_ℤ (x.0 *ℤ pos (10 ^ y.1)) (y.0 *ℤ pos (10 ^ x.1));
  lte = λ x y. leb_ℤ (x.0 *ℤ pos (10 ^ y.1)) (y.0 *ℤ pos (10 ^ x.1));
  number = λ x. x;
  Denotes = λ x a k. x ≡ (a, k);
  num_lem = λ a k. refl;
  plus_lem = align_lem ◌+ℤ◌;
  minus_lem = align_lem ◌-ℤ◌;
  times_lem = λ x y a b k l hx hy. rw (hx, hy) refl;
  div_lem = quotient_lem;
  shifted_up_lem = λ n x a k h. rw h refl;
  shifted_down_lem = λ n x a k h. rw h refl;
  to_fixed_lem = λ dp x a k h. rw h refl;
  to_fixed_down_lem = λ dp x a k h. rw h refl;
  lt_lem = λ x y a b k l hx hy. rw (hx, hy) refl;
  lte_lem = λ x y a b k l hx hy. rw (hx, hy) refl;
  number_exact = λ x h. refl;
  number_mono = λ x y h. h;
}
