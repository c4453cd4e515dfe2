-- ===== src/Enqueue/Tests.antt =====
-- The invariants of the queue on a user with a pending position.
use liquidator.Base.{
  ℕ, String, ◌*◌, ◌^◌, ◌≡◌, count, ◌==◌, ◌≤◌, refl, inr, true, false, none, some, Bool,
  if◌then◌else◌, arith,
}
use liquidator.BigNumber.Exact.{exact, Decimal}
use liquidator.Config.{bsc}
use liquidator.Orm.Memory.{memory}
use liquidator.Base.Results.{ok}
use liquidator.State.{UserAccountData}
use liquidator.Services.{Services}
use liquidator.Services.Sample.{services, app, position, account_data, listener}
use liquidator.Queue.{
  UpdateRequest, queued_for, save_user, stored_health_factor, is_liquidatable,
  delete_job_update_liquidation_data,
}
use liquidator.Enqueue.{account_data_of, first_listener, update_user_account_data}
use liquidator.Enqueue.Rows.{HasIds, WorksOn, OneQueued}
use liquidator.Enqueue.Cancel.{recovered_cancelled}
use liquidator.Enqueue.Unique.{update_user_account_data-OneQueued}
use liquidator.Enqueue.InWork.{update_user_account_data-WorksOn}

at_most_one : (b : Bool) → (if b then 1 else 0) ≤ 1
at_most_one true = omega arith
at_most_one false = omega arith

app-HasIds : HasIds app
app-HasIds = record { unique = λ i. at_most_one (1 == i); below = refl }

app-OneQueued : OneQueued app
app-OneQueued = record { ids = app-HasIds; one = λ u. at_most_one (queued_for u position) }

pub app-WorksOn : WorksOn 0 app
app-WorksOn = record { ids = app-HasIds; few = omega arith }

abbrev request : UpdateRequest
request = record { user_address = "0xa"; network = some bsc }

update_user_account_data-OneQueued_example :
    OneQueued (update_user_account_data exact memory services request none app).1
update_user_account_data-OneQueued_example =
    update_user_account_data-OneQueued exact memory services request none app app-OneQueued

update_user_account_data-WorksOn_example :
    WorksOn 0 (update_user_account_data exact memory services request none app).1
update_user_account_data-WorksOn_example =
    update_user_account_data-WorksOn exact memory services 0 request none app app-WorksOn

-- The health factor is 3.
abbrev recovered : UserAccountData Decimal
recovered = record account_data { health_factor = 3 * 10 ^ 18 }

abbrev healthy_services : Services Decimal ℕ
healthy_services = record services { get_user_account_data = λ user pool network s. ok recovered }

recovered_cancelled_example :
    (user_id : String) × ((save_user memory "0xa" bsc recovered
        (stored_health_factor exact (3 * 10 ^ 18))
        (delete_job_update_liquidation_data healthy_services.deletes_jobs "0xa" app).1).0
      ≡ ok user_id)
    × (count
          (queued_for user_id)
          (update_user_account_data exact memory healthy_services request none app).1.liquidations
        ≡ 0)
unfolding account_data_of first_listener delete_job_update_liquidation_data is_liquidatable
    stored_health_factor
recovered_cancelled_example =
    recovered_cancelled exact memory healthy_services request none listener recovered app
      (inr (refl, refl)) refl refl app-OneQueued
