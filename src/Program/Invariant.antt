-- ===== src/Program/Invariant.antt =====
-- A property that each part keeps holds in every state that the program reaches.
use liquidator.Base.{ℕ, String, none, some, ◌≡◌, sym, subst}
use liquidator.BigNumber.{BigNumber}
use liquidator.BigNumber.Bigint.{Bigint}
use liquidator.Orm.{Orm}
use liquidator.State.{App}
use liquidator.State.Preserves.{Preserves}
use liquidator.Services.{Services}
use liquidator.Worker.{liquidate_check_queue, liquidate, refresh_user}
use liquidator.Queue.{UpdateRequest}
use liquidator.Enqueue.Kept.{IsKept, update_user_account_data-Preserves}
use liquidator.Listeners.{BlockReads}
use liquidator.Listeners.Keeps.{
  ListenersFree, confirmed_block-Preserves, init_lending_pool_listeners-Preserves,
}
use liquidator.Monitoring.Keeps.{monitoring_callback-Preserves}
use liquidator.Program.{
  update_liquidation, Step, listen, block, monitor, check, run_liquidate, run_update, remove_jobs,
  tick, chain, Reach, start, later,
}

-- Neither the clock nor the chain bears on the property.
pub record OutsideFree {Num World : Type 0} (P : App Num World → Type 0) : Type 0 where
  pub clock : (s : App Num World) (now : ℕ) → P s → P (record s { now = now })
  pub world : (s : App Num World) (world : World) → P s → P (record s { world = world })

module _ (bn : BigNumber) (orm : Orm) {World : Type 0} (services : Services bn.Num World)
    (sortable : Bigint bn) (reads : BlockReads bn.Num World) (P : App bn.Num World → Type 0)
    (kept : IsKept orm P) (free : ListenersFree P) (outside : OutsideFree P)
    (checks : Preserves P (liquidate_check_queue bn orm services sortable))
    (liquidates : (user_id : String)
      → Preserves P (liquidate bn orm services sortable user_id)) where
  after : {t : App bn.Num World} (u : App bn.Num World) → t ≡ u → P u → P t
  after u e = subst P (sym e)

  Step-keeps : {s t : App bn.Num World} → Step bn orm services sortable reads s t → P s → P t
  unfolding update_liquidation refresh_user
  Step-keeps {s} (listen e) h =
      after _ e
        ((init_lending_pool_listeners-Preserves bn orm services P kept free reads).apply s h)
  Step-keeps {s} (block network number events e) h =
      after _ e
        ((confirmed_block-Preserves bn orm services P kept free network number events).apply s h)
  Step-keeps {s} (monitor zone e) h =
      after _ e ((monitoring_callback-Preserves bn orm services P kept zone).apply s h)
  Step-keeps {s} (check e) h = after _ e (checks.apply s h)
  Step-keeps {s} (run_liquidate user_id job e) h = after _ e ((liquidates user_id).apply s h)
  Step-keeps {s} (run_update address network run_at job due e) h =
      let request : UpdateRequest = record { user_address = address; network = some network } in
      after _ e ((update_user_account_data-Preserves bn orm services P kept request none).apply s h)
  Step-keeps {s} (remove_jobs stays e) h = after _ e (kept.jobs_free s _ h)
  Step-keeps {s} (tick now le e) h = after _ e (outside.clock s now h)
  Step-keeps {s} (chain world e) h = after _ e (outside.world s world h)

  pub Reach-keeps : {s t : App bn.Num World} → Reach bn orm services sortable reads s t → P s → P t
  Reach-keeps start h = h
  Reach-keeps (later r step) h = Step-keeps step (Reach-keeps r h)
