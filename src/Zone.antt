-- ===== src/Zone.antt =====
-- src/utils/zone.ts, and the `where` clause that `getUsers` of src/database/UserAccount.ts builds
-- for a zone. Health factors are hundredths; -1, which stands for no debt, is -100 of them.
pub mod Partition
pub mod Tests
use liquidator.Base.{ℕ, String, Bool, ◌&&◌, not, Option, none, some, if◌then◌else◌}
use liquidator.Base.Int.{ℤ, pos, negsuc, ltb_ℤ, leb_ℤ, eqb_ℤ}
use liquidator.Config.{zone_red, zone_orange}

-- `enum ZONE`
pub data Zone : Type 0 where
  green yellow orange red urgent : Zone

abbrev pub no_borrows : ℤ
no_borrows = negsuc 99

abbrev pub one : ℤ
one = pos 100

pub record MonitoringOptions : Type 0 where
  pub health_factor : Option ℤ
  pub update_period : String

-- `MONITORINGS`, which has no entry for the urgent zone.
unfoldable pub monitorings : Zone → Option MonitoringOptions
monitorings green = some (record { health_factor = none; update_period = "0/1 0 * * *" })
monitorings yellow = some (record { health_factor = none; update_period = "0/1 0 * * *" })
monitorings orange =
    some (record { health_factor = some zone_orange; update_period = "0/1 * * * *" })
monitorings red = some (record { health_factor = some zone_red; update_period = "*/1 * * * *" })
monitorings urgent = none

-- `getPriorityZoneByHF`
unfoldable pub get_priority_zone_by_hf : ℤ → Zone
get_priority_zone_by_hf hf =
    if eqb_ℤ hf no_borrows
    then green
    else if ltb_ℤ hf one
    then urgent
    else if leb_ℤ hf zone_red
    then red
    else if leb_ℤ hf zone_orange
    then orange
    else yellow

-- The test on the health factor in the `where` clause of `getUsers`.
unfoldable pub matches_zone : Option Zone → ℤ → Bool
matches_zone none hf = not (eqb_ℤ hf no_borrows)
matches_zone (some green) hf = eqb_ℤ hf no_borrows
matches_zone (some yellow) hf = ltb_ℤ zone_orange hf
matches_zone (some orange) hf = ltb_ℤ zone_red hf && leb_ℤ hf zone_orange
matches_zone (some red) hf = leb_ℤ one hf && leb_ℤ hf zone_red
matches_zone (some urgent) hf = ltb_ℤ (pos 0) hf && ltb_ℤ hf one
