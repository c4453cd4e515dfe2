-- ===== src/Enqueue/InWork.antt =====
-- Refreshing a user takes no position to work: src/database/UserAccount.ts and
-- src/database/Liquidate.ts only write positions that are pending, deferred or cancelled.
use liquidator.Base.{ℕ, String, ◌≡◌, refl, Bool, true, false, Option, none, some, arith}
use liquidator.Base.Results.{Result, ok}
use liquidator.BigNumber.{BigNumber}
use liquidator.Orm.{Orm}
use liquidator.State.{App, Liquidation, cancelled}
use liquidator.State.Preserves.{Preserves}
use liquidator.Services.{Services, Listener}
use liquidator.Queue.{
  QueueEntry, UpdateRequest, new_row, queued_for, is_processing, update_row, create_row,
  write_entry, set_status, save_entry, cancel_queued,
}
use liquidator.Queue.Counts.{count-create}
use liquidator.Enqueue.{update_user_account_data}
use liquidator.Enqueue.Kept.{IsKept, update_user_account_data-Preserves}
use liquidator.Enqueue.Rows.{WorksOn, in_work, create_row-HasIds, update_row-WorksOn}

both : (b : Bool) → b ≡ false → b ≡ true → ⊥
both b f t = ground arith

module _ (orm : Orm) {Num World : Type 0} (k : ℕ) where
  create_row-WorksOn :
      (e : QueueEntry Num) (s : App Num World)
      → is_processing e.status ≡ false
      → WorksOn k s
      → WorksOn k (create_row orm e s).1
  unfolding create_row
  create_row-WorksOn e s idle h = record {
    ids = unfold create_row in create_row-HasIds orm e s h.ids;
    few =
        rw (count-create orm in_work (new_row e s.next_id s.now) s.liquidations)
          (rw idle (omega (arith, h.few)));
  }

  save_entry-WorksOn :
      (e : QueueEntry Num)
      → is_processing e.status ≡ false
      → Preserves {S = App Num World} (WorksOn k) (save_entry orm e)
  unfolding save_entry
  save_entry-WorksOn e idle = record {
    apply = λ s h. go s h (orm.find_one (queued_for e.user_id) s.liquidations);
  }
    where
      go :
          (s : App Num World)
          → WorksOn k s
          → (o : Option (Liquidation Num))
          → let end : Result (Unit {0}) × App Num World = elim o [
            | some r ↦ update_row orm (write_entry e) r.id s
            | none ↦ create_row orm e s
          ] in
            WorksOn k end.1
      go s h none = create_row-WorksOn e s idle h
      go s h (some r) =
          unfold write_entry in
          update_row-WorksOn orm k (write_entry e) r.id s (λ x. refl)
            (λ x t. absurd (both (is_processing e.status) idle t)) h

  cancel_queued-WorksOn :
      (u : String) → Preserves {S = App Num World} (WorksOn k) (cancel_queued orm u)
  unfolding cancel_queued
  cancel_queued-WorksOn u = record {
    apply = λ s h. go s h (orm.find_one (queued_for u) s.liquidations);
  }
    where
      go :
          (s : App Num World)
          → WorksOn k s
          → (o : Option (Liquidation Num))
          → let end : Result (Unit {0}) × App Num World = elim o [
            | some r ↦ update_row orm (set_status cancelled) r.id s
            | none ↦ (ok tt, s)
          ] in
            WorksOn k end.1
      go s h none = h
      go s h (some r) =
          unfold set_status in
          update_row-WorksOn orm k (set_status cancelled) r.id s (λ x. refl)
            (λ x t. absurd (both false refl t)) h

  pub kept_WorksOn : IsKept orm {Num = Num} {World = World} (WorksOn k)
  kept_WorksOn = record {
    saves = save_entry-WorksOn;
    cancels = cancel_queued-WorksOn;
    users_free = λ s users uuids h. record {
      ids = record { unique = h.ids.unique; below = h.ids.below };
      few = h.few;
    };
    jobs_free = λ s jobs h. record {
      ids = record { unique = h.ids.unique; below = h.ids.below };
      few = h.few;
    };
  }

-- `updateUserAccountData` keeps the bound on the number of positions in work.
pub update_user_account_data-WorksOn :
    (bn : BigNumber) (orm : Orm) {World : Type 0} (services : Services bn.Num World) (k : ℕ)
    (request : UpdateRequest) (listener : Option Listener) (s : App bn.Num World)
    → WorksOn k s
    → WorksOn k (update_user_account_data bn orm services request listener s).1
update_user_account_data-WorksOn bn orm services k request listener =
    (update_user_account_data-Preserves bn orm services (WorksOn k) (kept_WorksOn orm k) request
      listener).apply
