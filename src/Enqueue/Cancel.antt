-- ===== src/Enqueue/Cancel.antt =====
-- A user whose health factor has recovered has no queued position.
use liquidator.Base.{
  String, ◌≡◌, refl, ap, ◌∙◌, Bool, false, ◌&&◌, Option, none, some, count, count-never, arith,
  ==_iff, str_eq, ◌+◌, ◌⊎◌, inl, inr,
}
use liquidator.Base.Int.{ℤ}
use liquidator.Base.Results.{Result, ok}
use liquidator.BigNumber.{BigNumber}
use liquidator.Config.{Network}
use liquidator.Orm.{Orm}
use liquidator.State.{App, Liquidation, UserAccount, UserAccountData, cancelled}
use liquidator.State.Monad.{read, ◌>>=◌, caught_state, bind_ok, read_ok}
use liquidator.Services.{Services, Listener}
use liquidator.Queue.{
  stamp, has_id, queued_for, update_row, set_status, cancel_queued, UpdateRequest,
  delete_job_update_liquidation_data, save_user, stored_health_factor, is_liquidatable, at,
}
use liquidator.Queue.Counts.{count-update, count-none, count-without}
use liquidator.Enqueue.{
  account_data_of, first_listener, requeue, refresh, update_by_listener, update_user_account_data,
}
use liquidator.Enqueue.Rows.{OneQueued}

module _ (orm : Orm) {Num World : Type 0} where
  -- The one queued position of the user is cancelled.
  cancel_queued_lem :
      (u : String) (s : App Num World)
      → OneQueued s
      → count (queued_for u) (cancel_queued orm u s).1.liquidations ≡ 0
  unfolding cancel_queued update_row set_status
  cancel_queued_lem u s h = go (orm.find_one (queued_for u) s.liquidations) refl
    where
      dropped : (a b : Bool) → (a && (b && false)) ≡ false
      dropped a b = ground arith

      go :
          (o : Option (Liquidation Num))
          → orm.find_one (queued_for u) s.liquidations ≡ o
          → let end : Result (Unit {0}) × App Num World = elim o [
            | some r ↦ update_row orm (set_status cancelled) r.id s
            | none ↦ (ok tt, s)
          ] in
            count (queued_for u) end.1.liquidations ≡ 0
      go none e =
          count-none (queued_for u) s.liquidations
            (orm.find_one_none (queued_for u) s.liquidations e)
      go (some r) e =
          let found = orm.find_one_some (queued_for u) s.liquidations r e in
          unfold update_row set_status in
          omega (
            arith,
            h.one u,
            count-update orm (queued_for u) (has_id r.id) (stamp s.now (set_status cancelled))
                s.liquidations,
            count-never
                (λ (x : Liquidation Num).
                  has_id r.id x && queued_for u (stamp s.now (set_status cancelled) x))
                s.liquidations (λ x. dropped (has_id r.id x) (str_eq x.user_id u)),
            count-without (queued_for u) (has_id r.id) r s.liquidations (found.0) (found.1)
                ((==_iff r.id r.id).1 refl),
          )

  -- Saving the account returns the id of its row, and leaves the queue alone.
  saved :
      (address : String) (network : Network) (data_of : UserAccountData Num) (hf : ℤ)
      (s : App Num World)
      → OneQueued s
      → (user_id : String) × (t : App Num World) × (save_user orm address network data_of hf s
          ≡ (ok user_id, t))
        × OneQueued t
  unfolding save_user
  saved address network data_of hf s h = go (orm.find_one (at address network) s.users)
    where
      go :
          (o : Option (UserAccount Num))
          → (user_id : String) × (t : App Num World) × ((let end : Result String × App Num World =
                  elim o [
                    | some u ↦ (
                      ok u.id,
                      record s {
                        users =
                            orm.update
                              (λ v. str_eq v.id u.id)
                              (λ v. record v {
                                address = address;
                                total_collateral_eth = data_of.total_collateral_eth;
                                total_debt_eth = data_of.total_debt_eth;
                                available_borrows_eth = data_of.available_borrows_eth;
                                current_liquidation_threshold =
                                    data_of.current_liquidation_threshold;
                                ltv = data_of.ltv;
                                health_factor = hf;
                                network_id = network;
                              })
                              s.users;
                      },
                    )
                    | none ↦ (
                      ok (s.uuids 0),
                      record s {
                        users =
                            orm.create
                              (record {
                                id = s.uuids 0;
                                address = address;
                                total_collateral_eth = data_of.total_collateral_eth;
                                total_debt_eth = data_of.total_debt_eth;
                                available_borrows_eth = data_of.available_borrows_eth;
                                current_liquidation_threshold =
                                    data_of.current_liquidation_threshold;
                                ltv = data_of.ltv;
                                health_factor = hf;
                                network_id = network;
                              })
                              s.users;
                        uuids = λ n. s.uuids (n + 1);
                      },
                    )
                  ] in
                end)
              ≡ (ok user_id, t))
            × OneQueued t
      go none = (
        _,
        _,
        refl,
        record { ids = record { unique = h.ids.unique; below = h.ids.below }; one = h.one },
      )
      go (some u) = (
        _,
        _,
        refl,
        record { ids = record { unique = h.ids.unique; below = h.ids.below }; one = h.one },
      )

module _ (bn : BigNumber) (orm : Orm) {World : Type 0} (services : Services bn.Num World) where
  requeue_healthy :
      (address : String) (network : Network) (hf : ℤ) (user_id : String) (s : App bn.Num World)
      → is_liquidatable hf ≡ false
      → requeue bn orm services address network hf user_id s ≡ cancel_queued orm user_id s
  unfolding requeue
  requeue_healthy address network hf user_id s healthy = rw healthy refl

  refresh_lem :
      (address : String) (listener : Listener) (data_of : UserAccountData bn.Num)
      (s : App bn.Num World)
      → is_liquidatable (stored_health_factor bn data_of.health_factor) ≡ false
      → OneQueued s
      → (user_id : String) × ((save_user orm address listener.network_id data_of
            (stored_health_factor bn data_of.health_factor)
            s).0
          ≡ ok user_id)
        × (count
              (queued_for user_id)
              (refresh bn orm services address listener data_of s).1.liquidations
            ≡ 0)
  unfolding refresh
  refresh_lem address listener data_of s healthy h =
      let hf = stored_health_factor bn data_of.health_factor in
      let (user_id, t, e, q) = saved orm address listener.network_id data_of hf s h in
      let end =
        bind_ok (save_user orm address listener.network_id data_of hf)
          (requeue bn orm services address listener.network_id hf) s user_id t e in
      (
        user_id,
        ap (λ z. z.0) e,
        ap (λ z. count (queued_for user_id) (z.1).liquidations)
              (end ∙ requeue_healthy address listener.network_id hf user_id t healthy)
            ∙ cancel_queued_lem orm user_id t q,
      )

  -- What a refresh does once it has its listener.
  refreshed :
      (request : UpdateRequest) (given : Option Listener) (listener : Listener)
      (s : App bn.Num World)
      → let t =
          (delete_job_update_liquidation_data services.deletes_jobs request.user_address s).1 in
        (given ≡ some listener)
          ⊎ ((given ≡ none) × (first_listener bn orm services request.network t ≡ ok listener))
        → (update_user_account_data bn orm services request given s).1
          ≡ (update_by_listener bn orm services request.user_address listener t).1
  unfolding update_user_account_data delete_job_update_liquidation_data
  refreshed request (some l) listener s (inl e) =
      let t = (delete_job_update_liquidation_data services.deletes_jobs request.user_address s).1 in
      let same : l ≡ listener = cc in
      caught_state (λ x. update_by_listener bn orm services request.user_address l t) s
      ∙ ap (λ x. (update_by_listener bn orm services request.user_address x t).1) same
  refreshed request none listener s (inl e) = absurd (let c : ⊥ = cc in c)
  refreshed request (some l) listener s (inr e) = let same = e.0 in absurd (let c : ⊥ = cc in c)
  refreshed request none listener s (inr e) =
      let t = (delete_job_update_liquidation_data services.deletes_jobs request.user_address s).1 in
      caught_state
        (λ x.
          (read (first_listener bn orm services request.network)
              >>= update_by_listener bn orm services request.user_address)
            t)
        s
      ∙ ap (λ z. z.1)
          (read_ok (first_listener bn orm services request.network)
            (update_by_listener bn orm services request.user_address) t listener (e.1))

  -- A refresh of a user for whom a listener is given or found, whose account the pool returns to this
  -- refresh, and whose health factor is not one of a liquidation: afterwards the account, under the id
  -- it is saved with, has no queued position, where no user had two of them before.
  pub recovered_cancelled :
      (request : UpdateRequest) (given : Option Listener) (listener : Listener)
      (data_of : UserAccountData bn.Num) (s : App bn.Num World)
      → let t =
          (delete_job_update_liquidation_data services.deletes_jobs request.user_address s).1 in
        (given ≡ some listener)
          ⊎ ((given ≡ none) × (first_listener bn orm services request.network t ≡ ok listener))
        → account_data_of bn orm services request.user_address listener t ≡ ok data_of
        → is_liquidatable (stored_health_factor bn data_of.health_factor) ≡ false
        → OneQueued s
        → (user_id : String) × ((save_user orm request.user_address listener.network_id data_of
              (stored_health_factor bn data_of.health_factor)
              t).0
            ≡ ok user_id)
          × (count
                (queued_for user_id)
                (update_user_account_data bn orm services request given s).1.liquidations
              ≡ 0)
  unfolding update_by_listener delete_job_update_liquidation_data
  recovered_cancelled request given listener data_of s found account healthy h =
      let t = (delete_job_update_liquidation_data services.deletes_jobs request.user_address s).1 in
      let queue : OneQueued t = record {
        ids = record { unique = h.ids.unique; below = h.ids.below };
        one = h.one;
      } in
      let (user_id, saved_as, none_queued) =
        refresh_lem request.user_address listener data_of t healthy queue in
      (
        user_id,
        saved_as,
        ap (λ z. count (queued_for user_id) z.liquidations)
              (refreshed request given listener s found
                ∙ ap (λ z. z.1)
                    (read_ok (account_data_of bn orm services request.user_address listener)
                      (refresh bn orm services request.user_address listener) t data_of account))
            ∙ none_queued,
      )
