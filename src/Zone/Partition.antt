-- ===== src/Zone/Partition.antt =====
-- How the zone of a health factor and the users that are fetched for a zone agree.
use liquidator.Base.{◌≡◌, ◌↔◌, ◌⊎◌, true, false, some, arith}
use liquidator.Base.Int.{ℤ, pos, ltb_ℤ}
use liquidator.Zone.{
  Zone, green, yellow, orange, red, urgent, no_borrows, get_priority_zone_by_hf, matches_zone,
}

-- A health factor that `updateUserAccountData` stores, other than 0.
abbrev pub IsMonitored : ℤ → Type 0
IsMonitored hf = (hf ≡ no_borrows) ⊎ (ltb_ℤ (pos 0) hf ≡ true)

-- For a health factor that is -1 or above 0, the users fetched for a zone are exactly those whose
-- health factor `getPriorityZoneByHF` puts into that zone: the five queries are disjoint, and
-- together they miss nobody.
pub matches_zone-get_priority_zone_by_hf :
    (z : Zone) (hf : ℤ)
    → IsMonitored hf
    → (matches_zone (some z) hf ≡ true) ↔ (get_priority_zone_by_hf hf ≡ z)
unfolding matches_zone get_priority_zone_by_hf
matches_zone-get_priority_zone_by_hf green hf h = ground arith
matches_zone-get_priority_zone_by_hf yellow hf h = ground arith
matches_zone-get_priority_zone_by_hf orange hf h = ground arith
matches_zone-get_priority_zone_by_hf red hf h = ground arith
matches_zone-get_priority_zone_by_hf urgent hf h = ground arith

-- A stored health factor of 0 is in the urgent zone, and no zone's query fetches such a user.
pub zero_hf_missed :
    (z : Zone)
    → (get_priority_zone_by_hf (pos 0) ≡ urgent) × (matches_zone (some z) (pos 0) ≡ false)
unfolding matches_zone get_priority_zone_by_hf
zero_hf_missed green = ground arith
zero_hf_missed yellow = ground arith
zero_hf_missed orange = ground arith
zero_hf_missed red = ground arith
zero_hf_missed urgent = ground arith
