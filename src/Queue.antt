-- ===== src/Queue.antt =====
-- The queue of positions to be liquidated: the rows that src/database/Liquidate.ts and
-- `updateUserAccountData` of src/database/UserAccount.ts read and write, outside the test mode.
pub mod Counts
pub mod Health
pub mod Tests
use liquidator.Base.{
  ℕ, String, ◌+◌, ◌*◌, ◌/◌, ◌^◌, Bool, true, false, not, ◌&&◌, ◌||◌, Option, none, some, List, [],
  ◌∷◌, ◌++◌, filter, ltb, ◌==◌, str_eq, get_or_default, if◌then◌else◌,
}
use liquidator.Base.Int.{ℤ, pos, ltb_ℤ}
use liquidator.Base.Results.{Error, Result, ok, err, type_error, time_is_up}
use liquidator.BigNumber.{BigNumber}
use liquidator.BigNumber.Amounts.{amount_eth}
use liquidator.Config.{Network, network_eq}
use liquidator.Orm.{Orm}
use liquidator.Zone.{no_borrows, one}
use liquidator.State.{
  App, UserAccount, UserAccountData, Liquidation, Status, liquidated, processing, pending, deferred,
  cancelled, error, Token, Job, update_liquidation_data,
}
use liquidator.State.Monad.{
  Action, pure, throw, read, gets, modify, present, when, catch, ◌>>=◌, ◌>>◌,
}
use liquidator.Services.{Services, Listener}
use liquidator.Liquidator.{TryLiquidate, try_liquidate_with}

-- `2 ** 256 - 1`, which the pool returns as the health factor of an account with no debt.
abbrev pub max_uint256 : ℕ
max_uint256 = 115792089237316195423570985008687907853269984665640564039457584007913129639935

-- The stored health factor, in hundredths: cut to two decimal places and made a `Number`, or -1.
unfoldable pub stored_health_factor : BigNumber → ℕ → ℤ
stored_health_factor bn h =
    if h == max_uint256 then no_borrows else pos (bn.number (h * 10 ^ 2 / 10 ^ 18))

-- `hfBN.gt(0) && hfBN.lt(1)`
unfoldable pub is_liquidatable : ℤ → Bool
is_liquidatable hf = ltb_ℤ (pos 0) hf && ltb_ℤ hf one

-- `[Op.in]: [PENDING, DEFERRED]`
abbrev pub is_queued : Status → Bool
is_queued pending = true
is_queued deferred = true
is_queued liquidated = false
is_queued processing = false
is_queued cancelled = false
is_queued error = false

abbrev pub is_processing : Status → Bool
is_processing processing = true
is_processing liquidated = false
is_processing pending = false
is_processing deferred = false
is_processing cancelled = false
is_processing error = false

abbrev pub is_pending : Status → Bool
is_pending pending = true
is_pending deferred = false
is_pending liquidated = false
is_pending processing = false
is_pending cancelled = false
is_pending error = false

-- The job is an update of the user's liquidation data.
abbrev pub updates_user : String → Job → Bool
updates_user user_address (update_liquidation_data address network run_at) =
    str_eq address user_address
updates_user user_address (Job.liquidate user_id) = false

-- The jobs once one is to be added.
abbrev pub put_job : Bool → Job → List Job → List Job
put_job true job jobs = jobs ++ (job ∷ [])
put_job false job jobs = jobs

-- The jobs once those that pass a test are to be deleted.
abbrev pub delete_jobs : Bool → (Job → Bool) → List Job → List Job
delete_jobs true p jobs = filter (λ j. not (p j)) jobs
delete_jobs false p jobs = jobs

-- `IUpdateUserAccountData`, the fields that matter to the state.
pub record UpdateRequest : Type 0 where
  pub user_address : String
  pub network : Option Network

-- What `addOrUpdateLiquidate` writes.
pub record QueueEntry (Num : Type 0) : Type 0 where
  pub user_id : String
  pub status : Status
  pub estimated_profit_eth : Num
  pub to_update_date : Option ℕ

-- `86400 * 1000`: the deferred position is looked at again a day later.
abbrev pub day : ℕ
day = 86400 * 1000

module _ {Num : Type 0} where
  -- The `where` clause of a queued position of the user.
  abbrev pub queued_for : String → Liquidation Num → Bool
  queued_for user_id r = str_eq r.user_id user_id && is_queued r.status

  abbrev pub has_id : ℕ → Liquidation Num → Bool
  has_id id r = r.id == id

  abbrev pub at : String → Network → UserAccount Num → Bool
  at address network u = str_eq u.address address && network_eq u.network_id network

  unfoldable pub set_status : Status → Liquidation Num → Liquidation Num
  set_status status r = record r { status = status }

  unfoldable pub write_entry : QueueEntry Num → Liquidation Num → Liquidation Num
  write_entry e r = record r {
    user_id = e.user_id;
    status = e.status;
    estimated_profit_eth = e.estimated_profit_eth;
    to_update_date = e.to_update_date;
  }

module _ {Num : Type 0} where
  -- A changed row, with the time of its update.
  abbrev pub stamp : ℕ → (Liquidation Num → Liquidation Num) → Liquidation Num → Liquidation Num
  stamp now change r = record (change r) { updated_at = now }

  abbrev pub new_row : QueueEntry Num → ℕ → ℕ → Liquidation Num
  new_row e id now = record {
    id = id;
    user_id = e.user_id;
    status = e.status;
    estimated_profit_eth = e.estimated_profit_eth;
    fact_profit_eth = none;
    to_update_date = e.to_update_date;
    updated_at = now;
  }

module _ {Num World : Type 0} where
  -- `addJob('update-liquidation-data', …)`, for a deferred position only. `added` says whether the
  -- query succeeds: the `catch` of `addJob` only logs.
  unfoldable pub defer :
      (Job → App Num World → Bool)
      → String
      → Network
      → QueueEntry Num
      → Action (App Num World) (Unit {0})
  defer added user_address network e s = elim (e.to_update_date) [
    | none ↦ (ok tt, s)
    | some run_at ↦
        let job = update_liquidation_data user_address network run_at in
        (ok tt, record s { jobs = put_job (added job s) job s.jobs })
  ]

  -- `deleteJobUpdateLiquidationData`. `deletes` says whether the query succeeds: its `catch` only logs.
  unfoldable pub delete_job_update_liquidation_data :
      (String → App Num World → Bool) → String → Action (App Num World) (Unit {0})
  delete_job_update_liquidation_data deletes user_address s = (
    ok tt,
    record s { jobs = delete_jobs (deletes user_address s) (updates_user user_address) s.jobs },
  )

module _ (orm : Orm) {Num World : Type 0} where
  open orm use {find_one, create, update}

  -- `instance.update({ … })` on a row of the queue.
  unfoldable pub update_row :
      (Liquidation Num → Liquidation Num) → ℕ → Action (App Num World) (Unit {0})
  update_row change id s =
      (ok tt, record s { liquidations = update (has_id id) (stamp s.now change) s.liquidations })

  -- `LiquidateModel.create(result)`
  unfoldable pub create_row : QueueEntry Num → Action (App Num World) (Unit {0})
  create_row e s = (
    ok tt,
    record s {
      liquidations = create (new_row e s.next_id s.now) s.liquidations;
      next_id = s.next_id + 1;
    },
  )

  -- The end of `addOrUpdateLiquidate`: the queued row of the user is updated, or one is created.
  unfoldable pub save_entry : QueueEntry Num → Action (App Num World) (Unit {0})
  save_entry e s = elim (find_one (queued_for e.user_id) s.liquidations) [
    | some r ↦ update_row (write_entry e) r.id s
    | none ↦ create_row e s
  ]

  -- A queued position of a user whose health factor has recovered is cancelled.
  unfoldable pub cancel_queued : String → Action (App Num World) (Unit {0})
  cancel_queued user_id s = elim (find_one (queued_for user_id) s.liquidations) [
    | some r ↦ update_row (set_status cancelled) r.id s
    | none ↦ (ok tt, s)
  ]

  -- `user.update(result)`, or `UserAccountModel.create(result)`: the row and its id.
  unfoldable pub save_user :
      String → Network → UserAccountData Num → ℤ → Action (App Num World) String
  save_user address network account_data hf s = elim (find_one (at address network) s.users) [
    | some u ↦ (
      ok u.id,
      record s {
        users =
            update (λ v. str_eq v.id u.id)
              (λ v. record v {
                address = address;
                total_collateral_eth = account_data.total_collateral_eth;
                total_debt_eth = account_data.total_debt_eth;
                available_borrows_eth = account_data.available_borrows_eth;
                current_liquidation_threshold = account_data.current_liquidation_threshold;
                ltv = account_data.ltv;
                health_factor = hf;
                network_id = network;
              })
              s.users;
      },
    )
    | none ↦ (
      ok (s.uuids 0),
      record s {
        users =
            create
              (record {
                id = s.uuids 0;
                address = address;
                total_collateral_eth = account_data.total_collateral_eth;
                total_debt_eth = account_data.total_debt_eth;
                available_borrows_eth = account_data.available_borrows_eth;
                current_liquidation_threshold = account_data.current_liquidation_threshold;
                ltv = account_data.ltv;
                health_factor = hf;
                network_id = network;
              })
              s.users;
        uuids = λ n. s.uuids (n + 1);
      },
    )
  ]
