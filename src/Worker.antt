-- ===== src/Worker.antt =====
-- src/jobs: `liquidate-check-queue`, which hands the best pending position to the worker, and
-- `liquidate`, which runs it; with `updateLiquidateQueue` of src/database/Liquidate.ts.
pub mod Order
pub mod Best
pub mod Refresh
pub mod InWork
pub mod Run
pub mod Settled
pub mod Ends
pub mod Progress
pub mod Flaws
pub mod Tests
use liquidator.Base.{
  ℕ, String, ◌+◌, ◌*◌, ◌-◌, Bool, true, false, Option, none, some, List, [], ◌∷◌, ◌++◌, ltb, ◌&&◌,
  str_eq, if◌then◌else◌,
}
use liquidator.Base.Int.{ℤ, pos}
use liquidator.Base.Results.{Error, Result, ok, err, type_error, time_is_up}
use liquidator.BigNumber.{BigNumber}
use liquidator.BigNumber.Bigint.{Bigint}
use liquidator.Config.{Network}
use liquidator.Orm.{Orm}
use liquidator.State.{App, UserAccount, Liquidation, Status, liquidated, processing, pending, Job}
use liquidator.State.Monad.{Action, pure, throw, read, gets, present, catch, ◌>>=◌, ◌>>◌}
use liquidator.Services.{Services, GeneralReserveToken}
use liquidator.Liquidator.{TryLiquidate, try_liquidate_with}
use liquidator.Queue.{
  UpdateRequest, is_queued, is_processing, is_pending, put_job, update_row, set_status,
}
use liquidator.Enqueue.{update_user_account_data}

-- `LIQUIDATION_TIMEOUT`
abbrev pub liquidation_timeout : ℕ
liquidation_timeout = 30 * 60 * 1000

module _ {Num : Type 0} where
  abbrev pub is_processing_row : Liquidation Num → Bool
  is_processing_row r = is_processing r.status

  abbrev pub is_pending_row : Liquidation Num → Bool
  is_pending_row r = is_pending r.status

  abbrev pub is_queued_row : Liquidation Num → Bool
  is_queued_row r = is_queued r.status

  abbrev pub processing_for : String → Liquidation Num → Bool
  processing_for user_id r = str_eq r.user_id user_id && is_processing r.status

  unfoldable pub last : List (Liquidation Num) → Option (Liquidation Num)
  last [] = none
  last (r ∷ rs) = elim (last rs) [ none ↦ some r | some l ↦ some l ]

-- `sortable` is the cast that the query sorts by.
module _ (bn : BigNumber) (orm : Orm) {World : Type 0} (services : Services bn.Num World)
    (sortable : Bigint bn) where
  open bn use {Num, minus}
  open orm use {find_one, find_all, order_by}
  open services use {get_general_reserve_token, get_balance, adds_job}

  -- The account that a row of the queue belongs to, `include: ['user']`.
  unfoldable pub owner : Liquidation Num → App Num World → Option (UserAccount Num)
  owner r s = find_one (λ (u : UserAccount Num). str_eq u.id r.user_id) s.users

  -- The loop of `updateLiquidateQueue` over the rows that it fetched.
  unfoldable pub update_rows : List (Liquidation Num) → Action (App Num World) (Unit {0})
  update_rows [] s = (ok tt, s)
  update_rows (r ∷ rs) s = elim (owner r s) [
    | none ↦ (err type_error, s)
    | some u ↦
        let (_, s') =
          update_user_account_data bn orm services
            (record { user_address = u.address; network = some u.network_id }) none s in
        update_rows rs s'
  ]

  -- `updateLiquidateQueue`, whose `catch` only logs.
  unfoldable pub update_liquidate_queue : Action (App Num World) (Unit {0})
  update_liquidate_queue =
      catch (gets (λ s. find_all is_queued_row s.liquidations) >>= update_rows) (λ e. pure tt)

  -- The key of a row, where the cast is made; elsewhere the query throws.
  unfoldable pub sort_key : Liquidation Num → ℤ
  sort_key r = elim (sortable.to_bigint r.estimated_profit_eth) [ ok z ↦ z | err e ↦ pos 0 ]

  -- Every row to be ordered is cast, and one that cannot be makes the query throw.
  unfoldable pub check_casts : List (Liquidation Num) → Result (Unit {0})
  check_casts [] = ok tt
  check_casts (r ∷ rs) = elim (sortable.to_bigint r.estimated_profit_eth) [
    | err e ↦ err e
    | ok z ↦ check_casts rs
  ]

  -- The pending row with the greatest profit: the last one in ascending order.
  unfoldable pub best_pending : List (Liquidation Num) → Result (Option (Liquidation Num))
  best_pending rows = elim (check_casts (find_all is_pending_row rows)) [
    | err e ↦ err e
    | ok _ ↦ ok (last (order_by sort_key (find_all is_pending_row rows)))
  ]

  -- A position that is in work: it is given back once it has taken too long.
  unfoldable pub check_timeout : Liquidation Num → Action (App Num World) (Option String)
  check_timeout r s =
      if ltb liquidation_timeout (s.now - r.updated_at)
      then (err time_is_up, (update_row orm (set_status pending) r.id s).1)
      else (ok none, s)

  -- The pending position is set to work; without its account it is left pending. The id is returned
  -- also where `addJob`, whose `catch` only logs, adds no job.
  unfoldable pub claim : Liquidation Num → Action (App Num World) (Option String)
  claim r s = elim (owner r s) [
    | none ↦ (err type_error, (update_row orm (set_status pending) r.id s).1)
    | some u ↦
        let s' = (update_row orm (set_status processing) r.id s).1 in
        (
          ok (some u.id),
          record s' {
            jobs = put_job (adds_job (Job.liquidate u.id) s') (Job.liquidate u.id) s'.jobs;
          },
        )
  ]

  unfoldable pub claim_best : Action (App Num World) (Option String)
  claim_best s = elim (best_pending s.liquidations) [
    | err e ↦ (err e, s)
    | ok best ↦ elim best [ none ↦ (ok none, s) | some r ↦ claim r s ]
  ]

  -- `liquidate-check-queue`, whose `catch` only logs once the row is given back.
  unfoldable pub liquidate_check_queue : Action (App Num World) (Option String)
  liquidate_check_queue =
      catch
        (λ s. elim (find_one is_processing_row s.liquidations) [
          | some r ↦ check_timeout r s
          | none ↦ (update_liquidate_queue >> claim_best) s
        ])
        (λ e. pure none)

  -- `profitETH`: what the reserve gained, less what was spent of the native coin.
  unfoldable pub fact_profit : Num → Num → Num → Num → Num
  fact_profit reserve_before native_before reserve_after native_after =
      minus (minus reserve_after reserve_before) (minus native_before native_after)

  -- `updateUserAccountData` as `tryLiquidate` calls it.
  unfoldable pub refresh_user : String → Network → Action (App Num World) (Unit {0})
  refresh_user address network =
      update_user_account_data bn orm services
        (record { user_address = address; network = some network }) none

  unfoldable pub reserve_balance : Network → App Num World → Result Num
  reserve_balance network s = elim (get_general_reserve_token network s) [
    | ok t ↦ ok t.balance_eth
    | err e ↦ err e
  ]

  unfoldable pub finish : Liquidation Num → Num → Action (App Num World) (Unit {0})
  finish r profit =
      update_row orm (λ row. record row { status = liquidated; fact_profit_eth = some profit }) r.id

  -- What is done once the liquidation was tried.
  unfoldable pub conclude_job :
      Liquidation Num → Network → Num → Num → Action (App Num World) (Unit {0})
  conclude_job r network reserve_before native_before =
      read (reserve_balance network) >>= λ reserve_after.
      gets (get_balance network) >>= λ native_after.
      finish r (fact_profit reserve_before native_before reserve_after native_after)

  -- The body for a position and its account.
  unfoldable pub liquidate_user :
      Liquidation Num → UserAccount Num → Action (App Num World) (Unit {0})
  liquidate_user r u = read (reserve_balance u.network_id) >>= λ reserve_before.
      gets (get_balance u.network_id) >>= λ native_before.
      try_liquidate_with bn services refresh_user u.address true u.network_id none >>= λ attempt.
      conclude_job r u.network_id reserve_before native_before

  -- `liquidate`: a position that is in work for the user, if there is one.
  unfoldable pub liquidate : String → Action (App Num World) (Unit {0})
  liquidate user_id s = elim (find_one (processing_for user_id) s.liquidations) [
    | none ↦ (ok tt, s)
    | some r ↦
        catch (λ t. elim (owner r t) [ none ↦ (err type_error, t) | some u ↦ liquidate_user r u t ])
          (λ e. update_row orm (set_status pending) r.id) s
  ]
