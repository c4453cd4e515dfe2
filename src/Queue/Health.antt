-- ===== src/Queue/Health.antt =====
-- Which health factors of the pool lead to a liquidation.
use liquidator.Base.{ℕ, ◌≤◌, ◌<◌, ◌^◌, ◌*◌, ◌/◌, ◌≡◌, ◌↔◌, refl, true, false, some, arith}
use liquidator.Base.Int.{pos}
use liquidator.BigNumber.{BigNumber}
use liquidator.Zone.{Zone, urgent, get_priority_zone_by_hf, matches_zone}
use liquidator.Zone.Partition.{zero_hf_missed}
use liquidator.Queue.{stored_health_factor, is_liquidatable}

-- The test that decides whether a refreshed account is put up for liquidation holds of the health
-- factor that is stored exactly if the pool's is at least 0.01 and below 1, in units of 10 ^ -18.
pub is_liquidatable-stored :
    (bn : BigNumber) (h : ℕ)
    → (is_liquidatable (stored_health_factor bn h) ≡ true) ↔ ((10 ^ 16 ≤ h) × (h < 10 ^ 18))
unfolding is_liquidatable stored_health_factor
is_liquidatable-stored bn h = ground (
  arith,
  bn.number_exact (h * 10 ^ 2 / 10 ^ 18),
  bn.number_exact 100 (omega arith),
  bn.number_mono 100 (h * 10 ^ 2 / 10 ^ 18),
)

-- The worst positions of all, whose health factor is below 0.01, are stored with the health factor
-- 0: it is in the urgent zone, but the position is not put into the queue, and no zone's query
-- fetches the user again.
pub tiny_hf_ignored :
    (bn : BigNumber) (h : ℕ) (z : Zone)
    → h < 10 ^ 16
    → let hf = stored_health_factor bn h in
      (get_priority_zone_by_hf hf ≡ urgent)
      × (is_liquidatable hf ≡ false)
      × (matches_zone (some z) hf ≡ false)
unfolding is_liquidatable
tiny_hf_ignored bn h z small =
    let zero_hf : stored_health_factor bn h ≡ pos 0 = stored_zero h small in
    let missed = zero_hf_missed z in rw zero_hf (missed.0, refl, missed.1)
  where
    stored_zero : (n : ℕ) → n < 10 ^ 16 → stored_health_factor bn n ≡ pos 0
    stored_zero n k =
        unfold stored_health_factor in ground (arith, bn.number_exact (n * 10 ^ 2 / 10 ^ 18))
