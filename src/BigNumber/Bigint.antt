-- ===== src/BigNumber/Bigint.antt =====
-- The cast `::bigint` of the database, of a column that has the digits of a number.
use liquidator.Base.{◌^◌, ◌-◌, ◌≡◌, Bool, true, false, ◌&&◌}
use liquidator.Base.Int.{ℤ, pos, negsuc, leb_ℤ}
use liquidator.Base.Results.{Result, ok, err, external}
use liquidator.BigNumber.{BigNumber}

-- The range of the type, which has 64 bits.
abbrev pub fits : ℤ → Bool
fits z = leb_ℤ (negsuc (2 ^ 63 - 1)) z && leb_ℤ z (pos (2 ^ 63 - 1))

-- A whole number out of the range is refused, as the documentation of PostgreSQL says.
pub record Bigint (bn : BigNumber) : Type 0 where
  pub to_bigint : bn.Num → Result ℤ
  pub in_range : (x : bn.Num) (z : ℤ) → bn.Denotes x z 0 → fits z ≡ true → to_bigint x ≡ ok z
  pub out_of_range :
      (x : bn.Num) (z : ℤ) → bn.Denotes x z 0 → fits z ≡ false → to_bigint x ≡ err external
