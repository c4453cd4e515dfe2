-- ===== src/Zone/Tests.antt =====
-- The zones at concrete health factors.
use liquidator.Base.{◌≡◌, refl, ◌↔◌, inr, true, false, some}
use liquidator.Base.Int.{pos, negsuc}
use liquidator.Zone.{green, orange, red, urgent, get_priority_zone_by_hf, matches_zone}
use liquidator.Zone.Partition.{matches_zone-get_priority_zone_by_hf, zero_hf_missed}

matches_zone-get_priority_zone_by_hf_example :
    (matches_zone (some orange) (pos 132) ≡ true) ↔ (get_priority_zone_by_hf (pos 132) ≡ orange)
matches_zone-get_priority_zone_by_hf_example =
    matches_zone-get_priority_zone_by_hf orange (pos 132) (inr refl)

urgent_missed :
    (get_priority_zone_by_hf (pos 0) ≡ urgent) × (matches_zone (some urgent) (pos 0) ≡ false)
urgent_missed = zero_hf_missed urgent

zones_of : (get_priority_zone_by_hf (negsuc 99) ≡ green) × (get_priority_zone_by_hf (pos 110) ≡ red)
unfolding get_priority_zone_by_hf
zones_of = (refl, refl)
