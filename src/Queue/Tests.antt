-- ===== src/Queue/Tests.antt =====
-- The stored health factors of concrete accounts.
use liquidator.Base.{◌*◌, ◌^◌, ◌≡◌, ◌↔◌, ◌≤◌, ◌<◌, true, false, some, arith}
use liquidator.BigNumber.Exact.{exact}
use liquidator.Zone.{get_priority_zone_by_hf, matches_zone, urgent}
use liquidator.Queue.{stored_health_factor, is_liquidatable}
use liquidator.Queue.Health.{is_liquidatable-stored, tiny_hf_ignored}

is_liquidatable-stored_example :
    (is_liquidatable (stored_health_factor exact (957 * 10 ^ 15)) ≡ true)
    ↔ ((10 ^ 16 ≤ 957 * 10 ^ 15) × (957 * 10 ^ 15 < 10 ^ 18))
is_liquidatable-stored_example = is_liquidatable-stored exact (957 * 10 ^ 15)

tiny_hf_ignored_example :
    let hf = stored_health_factor exact 5000 in
    (get_priority_zone_by_hf hf ≡ urgent)
    × (is_liquidatable hf ≡ false)
    × (matches_zone (some urgent) hf ≡ false)
tiny_hf_ignored_example = tiny_hf_ignored exact 5000 urgent (omega arith)
