-- ===== src/Enqueue/Kept.antt =====
-- What `updateUserAccountData` keeps: whatever its two writes to the queue keep, since the estimate
-- that it makes is a dry run.
use liquidator.Base.{
  ℕ, ◌+◌, String, ◌≡◌, sym, subst, Bool, true, false, Option, none, some, List, if◌then◌else◌,
  str_eq,
}
use liquidator.Base.Int.{ℤ}
use liquidator.Base.Results.{Result, ok, type_error}
use liquidator.BigNumber.{BigNumber}
use liquidator.Config.{Network}
use liquidator.Orm.{Orm}
use liquidator.State.{App, UserAccount, UserAccountData, Job, update_liquidation_data}
use liquidator.State.Monad.{pure, read, present, ◌>>=◌, ◌>>◌}
use liquidator.State.Preserves.{
  Preserves, read-Preserves, pure-Preserves, present-Preserves, catch-Preserves, bind-Preserves,
  read_bind-Preserves,
}
use liquidator.Services.{Services, Listener}
use liquidator.Liquidator.{try_liquidate_with}
use liquidator.Liquidator.DryRun.{try_liquidate_with-IsDry}
use liquidator.Queue.{
  is_processing, is_liquidatable, stored_health_factor, save_entry, cancel_queued, defer, put_job,
  save_user, delete_job_update_liquidation_data, QueueEntry, UpdateRequest, at,
}
use liquidator.Enqueue.Entry.{make_entry_status}
use liquidator.Enqueue.{
  estimate_user, make_entry, enqueue, add_or_update_liquidate, first_listener, account_data_of,
  requeue, refresh, update_by_listener, update_user_account_data,
}

-- A property of the queue that its two writes keep, and that the accounts and the jobs do not bear
-- on.
pub record IsKept (orm : Orm) {Num World : Type 0} (P : App Num World → Type 0) : Type 0 where
  pub saves : (e : QueueEntry Num) → is_processing e.status ≡ false → Preserves P (save_entry orm e)
  pub cancels : (u : String) → Preserves P (cancel_queued orm u)
  pub users_free :
      (s : App Num World) (users : List (UserAccount Num)) (uuids : ℕ → String)
      → P s
      → P (record s { users = users; uuids = uuids })
  pub jobs_free : (s : App Num World) (jobs : List Job) → P s → P (record s { jobs = jobs })

module _ (bn : BigNumber) (orm : Orm) {World : Type 0} (services : Services bn.Num World)
    (P : App bn.Num World → Type 0) (kept : IsKept orm P) where
  estimate_user-Preserves :
      (address : String) (network : Network)
      → Preserves P (estimate_user bn orm services address network)
  unfolding estimate_user
  estimate_user-Preserves address network =
      bind-Preserves P (try_liquidate_with bn services (λ _ _. pure tt) address false network none)
        (λ estimate. present estimate type_error)
        (record {
          apply = λ s h.
              subst P
                (sym
                  (try_liquidate_with-IsDry bn services (λ _ _. pure tt) address network none s).0)
                h;
        })
        (λ estimate. present-Preserves P estimate type_error)

  defer-Preserves :
      (address : String) (network : Network) (e : QueueEntry bn.Num)
      → Preserves P (defer services.adds_job address network e)
  unfolding defer
  defer-Preserves address network e = record { apply = λ s h. go s h e.to_update_date }
    where
      go :
          (s : App bn.Num World)
          → P s
          → (o : Option ℕ)
          → let end : Result (Unit {0}) × App bn.Num World = elim o [
            | none ↦ (ok tt, s)
            | some run_at ↦
                let job = update_liquidation_data address network run_at in
                (ok tt, record s { jobs = put_job (services.adds_job job s) job s.jobs })
          ] in
            P end.1
      go s h none = h
      go s h (some run_at) = kept.jobs_free s _ h

  enqueue-Preserves :
      (address : String) (network : Network) (e : QueueEntry bn.Num)
      → is_processing e.status ≡ false
      → Preserves P (enqueue bn orm services address network e)
  unfolding enqueue
  enqueue-Preserves address network e idle =
      bind-Preserves P (defer services.adds_job address network e) (λ _. save_entry orm e)
        (defer-Preserves address network e) (λ _. kept.saves e idle)

  add_or_update_liquidate-Preserves :
      (address : String) (network : Network)
      → Preserves P (add_or_update_liquidate bn orm services address network)
  unfolding add_or_update_liquidate
  add_or_update_liquidate-Preserves address network =
      catch-Preserves P
        (estimate_user bn orm services address network >>= λ estimate.
          read (make_entry bn orm services address network estimate)
          >>= enqueue bn orm services address network)
        (λ e. pure tt)
        (bind-Preserves P (estimate_user bn orm services address network)
          (λ estimate.
            read (make_entry bn orm services address network estimate)
            >>= enqueue bn orm services address network)
          (estimate_user-Preserves address network)
          (λ estimate.
            read_bind-Preserves P (make_entry bn orm services address network estimate)
              (enqueue bn orm services address network)
              (λ s e made.
                (enqueue-Preserves address network e
                    (make_entry_status bn orm services address network estimate s e made)).apply
                  s)))
        (λ e. pure-Preserves P tt)

  save_user-Preserves :
      (address : String) (network : Network) (account_data : UserAccountData bn.Num) (hf : ℤ)
      → Preserves P (save_user orm address network account_data hf)
  unfolding save_user
  save_user-Preserves address network account_data hf = record {
    apply = λ s h. go s h (orm.find_one (at address network) s.users);
  }
    where
      go :
          (s : App bn.Num World)
          → P s
          → (o : Option (UserAccount bn.Num))
          → let end : Result String × App bn.Num World = elim o [
            | some u ↦ (
              ok u.id,
              record s {
                users =
                    orm.update
                      (λ v. str_eq v.id u.id)
                      (λ v. record v {
                        address = address;
                        total_collateral_eth = account_data.total_collateral_eth;
                        total_debt_eth = account_data.total_debt_eth;
                        available_borrows_eth = account_data.available_borrows_eth;
                        current_liquidation_threshold = account_data.current_liquidation_threshold;
                        ltv = account_data.ltv;
                        health_factor = hf;
                        network_id = network;
                      })
                      s.users;
              },
            )
            | none ↦ (
              ok (s.uuids 0),
              record s {
                users =
                    orm.create
                      (record {
                        id = s.uuids 0;
                        address = address;
                        total_collateral_eth = account_data.total_collateral_eth;
                        total_debt_eth = account_data.total_debt_eth;
                        available_borrows_eth = account_data.available_borrows_eth;
                        current_liquidation_threshold = account_data.current_liquidation_threshold;
                        ltv = account_data.ltv;
                        health_factor = hf;
                        network_id = network;
                      })
                      s.users;
                uuids = λ n. s.uuids (n + 1);
              },
            )
          ] in
            P end.1
      go s h none = kept.users_free s _ _ h
      go s h (some u) = kept.users_free s _ s.uuids h

  delete_job-Preserves :
      (address : String)
      → Preserves P (delete_job_update_liquidation_data services.deletes_jobs address)
  unfolding delete_job_update_liquidation_data
  delete_job-Preserves address = record { apply = λ s h. kept.jobs_free s _ h }

  requeue-Preserves :
      (address : String) (network : Network) (hf : ℤ) (user_id : String)
      → Preserves P (requeue bn orm services address network hf user_id)
  unfolding requeue
  requeue-Preserves address network hf user_id = by_test (is_liquidatable hf)
    where
      by_test :
          (b : Bool)
          → Preserves P (
              if b
              then add_or_update_liquidate bn orm services address network
              else cancel_queued orm user_id)
      by_test true = add_or_update_liquidate-Preserves address network
      by_test false = kept.cancels user_id

  update_by_listener-Preserves :
      (address : String) (listener : Listener)
      → Preserves P (update_by_listener bn orm services address listener)
  unfolding update_by_listener refresh
  update_by_listener-Preserves address listener =
      bind-Preserves P (read (account_data_of bn orm services address listener))
        (refresh bn orm services address listener)
        (read-Preserves P (account_data_of bn orm services address listener))
        (λ account_data.
          let hf = stored_health_factor bn account_data.health_factor in
          bind-Preserves P (save_user orm address listener.network_id account_data hf)
            (requeue bn orm services address listener.network_id hf)
            (save_user-Preserves address listener.network_id account_data hf)
            (requeue-Preserves address listener.network_id hf))

  pub update_user_account_data-Preserves :
      (request : UpdateRequest) (listener : Option Listener)
      → Preserves P (update_user_account_data bn orm services request listener)
  unfolding update_user_account_data
  update_user_account_data-Preserves request none =
      let address = request.user_address in
      catch-Preserves P
        (delete_job_update_liquidation_data services.deletes_jobs address
          >> (read (first_listener bn orm services request.network)
              >>= update_by_listener bn orm services address))
        (λ e. pure tt)
        (bind-Preserves P (delete_job_update_liquidation_data services.deletes_jobs address)
          (λ _.
            read (first_listener bn orm services request.network)
            >>= update_by_listener bn orm services address)
          (delete_job-Preserves address)
          (λ _.
            bind-Preserves P (read (first_listener bn orm services request.network))
              (update_by_listener bn orm services address)
              (read-Preserves P (first_listener bn orm services request.network))
              (update_by_listener-Preserves address)))
        (λ e. pure-Preserves P tt)
  update_user_account_data-Preserves request (some listener) =
      let address = request.user_address in
      catch-Preserves P
        (delete_job_update_liquidation_data services.deletes_jobs address
          >> update_by_listener bn orm services address listener)
        (λ e. pure tt)
        (bind-Preserves P (delete_job_update_liquidation_data services.deletes_jobs address)
          (λ _. update_by_listener bn orm services address listener) (delete_job-Preserves address)
          (λ _. update_by_listener-Preserves address listener))
        (λ e. pure-Preserves P tt)
