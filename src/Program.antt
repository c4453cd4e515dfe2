-- ===== src/Program.antt =====
-- The backend as a whole: a sequence of the jobs of src/jobs and of the callbacks of src/listener and
-- src/utils/monitoring.ts. Each runs to its end; between them the clock goes on, the chain moves, and
-- the worker removes jobs that it has run.
pub mod Invariant
pub mod Safety
use liquidator.Base.{ℕ, ◌≤◌, ◌≡◌, String, Bool, List, filter}
use liquidator.Base.Int.{ℤ}
use liquidator.BigNumber.{BigNumber}
use liquidator.BigNumber.Bigint.{Bigint}
use liquidator.Config.{Network}
use liquidator.Orm.{Orm}
use liquidator.Orm.Rows.{In}
use liquidator.Zone.{Zone}
use liquidator.State.{App, Job, update_liquidation_data}
use liquidator.State.Monad.{Action}
use liquidator.Services.{Services}
use liquidator.Worker.{refresh_user, liquidate_check_queue, liquidate}
use liquidator.Events.{Event}
use liquidator.Listeners.{BlockReads, confirmed_block, init_lending_pool_listeners}
use liquidator.Monitoring.{monitoring_callback}

module _ (bn : BigNumber) (orm : Orm) {World : Type 0} (services : Services bn.Num World)
    (sortable : Bigint bn) (reads : BlockReads bn.Num World) where
  open bn use {Num}

  -- `update-liquidation-data` of src/jobs.
  unfoldable pub update_liquidation : String → Network → Action (App Num World) (Unit {0})
  update_liquidation = refresh_user bn orm services sortable

  -- One thing that happens.
  pub data Step (s t : App Num World) : Type 0 where
    listen : t ≡ (init_lending_pool_listeners bn orm services reads s).1 → Step s t
    block :
        (network : Network) (number : ℕ) (events : List Event)
        → t ≡ (confirmed_block bn orm services network number events s).1
        → Step s t
    monitor : (zone : Zone) → t ≡ (monitoring_callback bn orm services zone s).1 → Step s t
    check : t ≡ (liquidate_check_queue bn orm services sortable s).1 → Step s t
    run_liquidate :
        (user_id : String)
        → In (Job.liquidate user_id) s.jobs
        → t ≡ (liquidate bn orm services sortable user_id s).1
        → Step s t
    run_update :
        (address : String) (network : Network) (run_at : ℕ)
        → In (update_liquidation_data address network run_at) s.jobs
        → run_at ≤ s.now
        → t ≡ (update_liquidation address network s).1
        → Step s t
    remove_jobs : (stays : Job → Bool) → t ≡ record s { jobs = filter stays s.jobs } → Step s t
    tick : (now : ℕ) → s.now ≤ now → t ≡ record s { now = now } → Step s t
    chain : (world : World) → t ≡ record s { world = world } → Step s t

  pub data Reach (s : App Num World) : App Num World → Type 0 where
    start : Reach s s
    later : {t u : App Num World} → Reach s t → Step t u → Reach s u
