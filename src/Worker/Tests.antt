-- ===== src/Worker/Tests.antt =====
-- The worker's jobs on one user with a pending position.
use liquidator.Base.{
  List, not, Option, ◌⊎◌, ◌^◌, ℕ, ◌≡◌, ◌≤◌, ◌++◌, ◌∷◌, ◌&&◌, count, some, refl, none, [], arith,
}
use liquidator.Base.Int.{ℤ}
use liquidator.Base.Results.{ok, err, external}
use liquidator.BigNumber.Exact.{exact, Decimal, align, quotient}
use liquidator.Orm.Memory.{memory, sort_by, insert_by}
use liquidator.Estimate.{
  get_estimated_liquidate_data_with_max_revenue, collect_liquidity, estimate_with_liquidity,
  debt_loop, is_zero,
}
use liquidator.Services.{Services}
use liquidator.Services.Sample.{cast, sortable, services, app, user, position, amount}
use liquidator.Liquidator.{
  try_liquidate_with, given_or_read, from_gas_price, from_reserves, estimate_of, conclude,
}
use liquidator.State.{App, Liquidation, Job, processing, liquidated}
use liquidator.Queue.{has_id, delete_job_update_liquidation_data}
use liquidator.Enqueue.{update_user_account_data, first_listener}
use liquidator.Worker.Progress.{check_progress}
use liquidator.Enqueue.Rows.{WorksOn}
use liquidator.Enqueue.Tests.{app-WorksOn}
use liquidator.Worker
use liquidator.Worker.{
  is_processing_row, is_pending_row, check_casts, sort_key, owner, last, update_rows,
  update_liquidate_queue, best_pending, liquidate_check_queue, liquidate_user, finish, fact_profit,
  reserve_balance,
}
use liquidator.Worker.Order.{IsGreatest}
use liquidator.Worker.Best.{best_pending-IsGreatest}
use liquidator.BigNumber.Bigint.{fits}
use liquidator.Worker.InWork.{liquidate_check_queue-WorksOn}
use liquidator.Worker.Flaws.{outcome_ignored}

liquidate_check_queue-WorksOn_example :
    WorksOn 1 (liquidate_check_queue exact memory services sortable app).1
liquidate_check_queue-WorksOn_example =
    liquidate_check_queue-WorksOn exact memory services sortable app
      (record { ids = app-WorksOn.ids; few = omega (arith, app-WorksOn.few) })

-- A second position is pending, with a profit out of the range of the cast.
abbrev great : List (Liquidation Decimal)
great = record position { id = 2; estimated_profit_eth = amount (10 ^ 19) } ∷ app.liquidations

abbrev profit : Liquidation Decimal → ℤ
profit r = r.estimated_profit_eth.0

best_pending-IsGreatest_example :
    ((count (λ r. is_pending_row r && not (fits (profit r))) app.liquidations ≡ 0)
      × (best : Option (Liquidation Decimal)) × (best_pending exact memory services sortable
            app.liquidations
          ≡ ok best)
      × IsGreatest profit app.liquidations best)
    ⊎ ((1 ≤ count (λ r. is_pending_row r && not (fits (profit r))) app.liquidations)
        × (best_pending exact memory services sortable app.liquidations ≡ err external))
best_pending-IsGreatest_example =
    best_pending-IsGreatest exact memory services sortable profit app.liquidations ((λ p. refl), tt)

-- The query throws then, and hands out no position at all.
too_great : best_pending exact memory services sortable great ≡ err external
unfolding best_pending check_casts cast
too_great = refl

-- A user who owes nothing: there is nothing to gain.
abbrev no_reserves : Services Decimal ℕ
no_reserves = record services {
  get_user_reserves = λ user network s. ok (record { collateral = []; debt = [] });
}

abbrev in_work : App Decimal ℕ
in_work = record app { liquidations = record position { status = processing } ∷ [] }

-- The reserve and the native balance stay at 900 and 500, so that the profit is 0.
outcome_ignored_example : Worker.liquidate exact memory no_reserves sortable "u0" in_work ≡ (
  ok tt,
  record in_work {
    liquidations =
        memory.update
          (has_id 1)
          (λ row. record row {
            status = liquidated;
            fact_profit_eth = some (
                exact.minus
                  (exact.minus (amount 900) (amount 900))
                  (exact.minus (amount 500) (amount 500)));
            updated_at = in_work.now;
          })
          in_work.liquidations;
  },
)
unfolding try_liquidate_with given_or_read from_gas_price from_reserves estimate_of conclude
    get_estimated_liquidate_data_with_max_revenue collect_liquidity estimate_with_liquidity
    debt_loop is_zero reserve_balance align quotient owner
outcome_ignored_example =
    outcome_ignored exact memory no_reserves sortable "u0" (record position { status = processing })
      user in_work in_work none (amount 900) (amount 900) refl refl refl refl refl

-- The refresh of the queue finds no listener, and leaves the position as it is.
abbrev no_listeners : Services Decimal ℕ
no_listeners = record services { get_listeners = λ network s. err external }

check_progress_example :
    let t = (update_liquidate_queue exact memory no_listeners sortable app).1 in
    let end = liquidate_check_queue exact memory no_listeners sortable app in
    (end.0 ≡ ok (some "u0"))
    × (1 ≤ count (λ x. has_id 1 x && is_processing_row x) end.1.liquidations)
    × (end.1.jobs ≡ t.jobs ++ (Job.liquidate "u0" ∷ []))
unfolding update_liquidate_queue update_rows owner update_user_account_data first_listener
    delete_job_update_liquidation_data best_pending check_casts sort_key cast last sort_by insert_by
check_progress_example =
    check_progress exact memory no_listeners sortable app position user refl refl refl
