-- ===== src/Monitoring/Tests.antt =====
-- Three users, in the urgent, the red and the yellow zone.
use liquidator.Base.{ℕ, ◌≡◌, refl, true, [], ◌∷◌, count, ◌&&◌}
use liquidator.Base.Int.{pos, leb_ℤ}
use liquidator.BigNumber.Exact.{Decimal}
use liquidator.Orm.Memory.{memory}
use liquidator.Zone.{one}
use liquidator.State.{App}
use liquidator.Services.Sample.{app, user}
use liquidator.Monitoring.Fetched.{fetched, monitored_once}
use liquidator.Monitoring.{monitored_zones}

abbrev three : App Decimal ℕ
three = record app {
  users =
      record user { id = "u3"; health_factor = pos 900 }
      ∷ record user { id = "u2"; health_factor = pos 105 }
      ∷ record user { id = "u1"; health_factor = pos 95 }
      ∷ [];
}

monitored_once_example :
    fetched memory (λ u. true) three monitored_zones
    ≡ count (λ u. leb_ℤ one u.health_factor && true) three.users
monitored_once_example = monitored_once memory (λ u. true) three

-- Two of them are fetched.
two_fetched : count (λ u. leb_ℤ one u.health_factor && true) three.users ≡ 2
two_fetched = refl
