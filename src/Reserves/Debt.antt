-- ===== src/Reserves/Debt.antt =====
-- A debt of a user is the stable debt and the variable debt together.
use native.Mathlib.Nat.{mul-one}
use liquidator.Base.{
  ℕ, String, ◌+◌, ◌≡◌, refl, subst, some, List, [], ◌∷◌, str_eq, str_eq_iff, Bool-cases, inl, inr,
  arith,
}
use liquidator.Base.Int.{pos, ◌+ℤ◌, +ℤ_parts, eq_of_parts}
use liquidator.BigNumber.{BigNumber}
use liquidator.BigNumber.Rounding.{nearest-one}
use liquidator.BigNumber.Amounts.{IsWhole, IsWhole_cast}
use liquidator.Estimate.{ReserveToken, UserReserve}
use liquidator.State.{Token}
use liquidator.Reserves.{s_debt, v_debt, put, entry, reserve_token, add_debt, enter}

entry-put :
    {Num : Type 0} (symbol : String) (token : ReserveToken Num)
    (entries : List (String × ReserveToken Num))
    → entry symbol (put symbol token entries) ≡ some token
unfolding entry put
entry-put symbol token [] = let same = (str_eq_iff symbol symbol).1 refl in rw same refl
entry-put symbol token ((s, t) ∷ rest) = elim (Bool-cases (str_eq s symbol)) [
  | inl e ↦ rw (e, e) refl
  | inr e ↦ rw (e, e) (entry-put symbol token rest)
]

module _ (bn : BigNumber) where
  sum-IsWhole :
      (x y : bn.Num) (m n : ℕ)
      → IsWhole bn x m
      → IsWhole bn y n
      → IsWhole bn (bn.to_fixed 0 (bn.plus x y)) (m + n)
  sum-IsWhole x y m n hx hy =
      let sum : pos m +ℤ pos n ≡ pos (m + n) =
        eq_of_parts (pos m +ℤ pos n) (pos (m + n)) (omega (arith, +ℤ_parts (pos m) (pos n))) in
      let exact_sum = subst (λ z. bn.Denotes (bn.plus x y) z 0) sum (bn.plus_lem x y _ _ 0 hx hy) in
      IsWhole_cast bn _ (rw (mul-one, nearest-one)) (bn.to_fixed_lem 0 _ _ _ exact_sum)

  -- Once both balances are entered, the debt of the token is the sum of the stable and the variable
  -- debt, whatever stood under its symbol before, where the two balances are whole numbers.
  pub debt_sum :
      (t : Token bn.Num) (stable variable rate : bn.Num) (m n : ℕ) (r : UserReserve bn.Num)
      → IsWhole bn stable m
      → IsWhole bn variable n
      → let after_stable = enter bn s_debt (reserve_token bn t stable rate) r in
        let after = enter bn v_debt (reserve_token bn t variable rate) after_stable in
        (e : ReserveToken bn.Num) × (entry t.symbol after.debt ≡ some e)
        × IsWhole bn e.amount (n + m)
  unfolding enter reserve_token add_debt
  debt_sum t stable variable rate m n r hm hn =
      let first = reserve_token bn t stable rate in
      let second = reserve_token bn t variable rate in
      rw (enter, entry-put t.symbol first r.debt)
        (
          add_debt bn second first,
          entry-put t.symbol (add_debt bn second first) (put t.symbol first r.debt),
          sum-IsWhole variable stable n m hn hm,
        )
