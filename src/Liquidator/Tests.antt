-- ===== src/Liquidator/Tests.antt =====
-- A dry run for a user with a deposit and a loan.
use liquidator.Base.{none}
use liquidator.BigNumber.Exact.{exact}
use liquidator.Config.{bsc}
use liquidator.State.Monad.{pure}
use liquidator.Services.Sample.{services, app}
use liquidator.Base.{false}
use liquidator.Liquidator.{try_liquidate_with}
use liquidator.Liquidator.DryRun.{IsDry, try_liquidate_with-IsDry}

try_liquidate_with-IsDry_example :
    IsDry exact services
      (λ _ _. pure tt)
      "0xa"
      bsc
      app
      (try_liquidate_with exact services (λ _ _. pure tt) "0xa" false bsc none app)
try_liquidate_with-IsDry_example =
    try_liquidate_with-IsDry exact services (λ _ _. pure tt) "0xa" bsc none app
