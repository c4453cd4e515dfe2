-- ===== src/Worker/Progress.antt =====
-- The check of the queue takes the best pending position to work, where nothing is in work.
use liquidator.Base.{
  List, false, if◌then◌else◌, ℕ, String, ◌≤◌, ◌≡◌, refl, sym, subst, ap, ◌∙◌, Bool, true, ◌&&◌,
  Option, none, some, [], ◌∷◌, ◌++◌, count, arith,
}
use liquidator.Base.Results.{Result, ok}
use liquidator.BigNumber.{BigNumber}
use liquidator.BigNumber.Bigint.{Bigint}
use liquidator.Orm.{Orm}
use liquidator.State.{App, UserAccount, Liquidation, Job, processing}
use liquidator.State.Monad.{pure, gets, caught, catch_ok, bind_ok, ◌>>=◌, ◌>>◌}
use liquidator.Services.{Services}
use liquidator.Queue.{put_job, stamp, has_id, set_status, update_row}
use liquidator.Queue.Counts.{count-update, count-le, count-without}
use liquidator.Worker.Order.{returned-IsGreatest}
use liquidator.Worker.{
  is_processing_row, is_pending_row, is_queued_row, owner, update_rows, update_liquidate_queue,
  best_pending, check_timeout, claim, claim_best, liquidate_check_queue,
}

module _ (bn : BigNumber) (orm : Orm) {World : Type 0} (services : Services bn.Num World)
    (sortable : Bigint bn) where
  -- A row that is there is in work once it is set to work.
  set_to_work :
      (id : ℕ) (s : App bn.Num World)
      → 1 ≤ count (λ x. has_id id x && is_pending_row x) s.liquidations
      → 1
        ≤ count
            (λ x. has_id id x && is_processing_row x)
            (update_row orm (set_status processing) id s).1.liquidations
  unfolding update_row set_status
  set_to_work id s there =
      unfold set_status in
      omega (
        arith,
        there,
        count-update orm (λ x. has_id id x && is_processing_row x) (has_id id)
            (stamp s.now (set_status processing)) s.liquidations,
        count-le (λ x. has_id id x && is_pending_row x)
            (λ x.
              has_id id x
              && (has_id id (stamp s.now (set_status processing) x)
                  && is_processing_row (stamp s.now (set_status processing) x)))
            s.liquidations (λ x t. twice (has_id id x) (is_pending_row x) t),
      )
    where
      twice : (a b : Bool) → (a && b) ≡ true → (a && (a && true)) ≡ true
      twice a b t = ground arith

  refreshed : (s : App bn.Num World) → (update_liquidate_queue bn orm services sortable s).0 ≡ ok tt
  unfolding update_liquidate_queue
  refreshed s =
      caught
        (gets (λ (t : App bn.Num World). orm.find_all is_queued_row t.liquidations)
          >>= update_rows bn orm services sortable)
        s

  claimed :
      (r : Liquidation bn.Num) (u : UserAccount bn.Num) (t : App bn.Num World)
      → best_pending bn orm services sortable t.liquidations ≡ ok (some r)
      → owner bn orm services sortable r t ≡ some u
      → let s' = (update_row orm (set_status processing) r.id t).1 in
        claim_best bn orm services sortable t ≡ (
          ok (some u.id),
          record s' {
            jobs = put_job (services.adds_job (Job.liquidate u.id) s') (Job.liquidate u.id) s'.jobs;
          },
        )
  unfolding claim_best claim
  claimed r u t best owned = rw (best, claim_best, owned, claim) refl

  none_in_work :
      (s : App bn.Num World) (r : Liquidation bn.Num)
      → count is_processing_row s.liquidations ≡ 0
      → orm.find_one is_processing_row s.liquidations ≡ some r
      → ⊥
  none_in_work s r idle e =
      let found = orm.find_one_some is_processing_row s.liquidations r e in
      let one =
        count-without is_processing_row (λ _. true) r s.liquidations (found.0) (found.1) refl in
      omega (arith, one, idle)

  check_claims :
      (s : App bn.Num World) (r : Liquidation bn.Num) (u : UserAccount bn.Num)
      → let t = (update_liquidate_queue bn orm services sortable s).1 in
        let s' = (update_row orm (set_status processing) r.id t).1 in
        count is_processing_row s.liquidations ≡ 0
        → best_pending bn orm services sortable t.liquidations ≡ ok (some r)
        → owner bn orm services sortable r t ≡ some u
        → liquidate_check_queue bn orm services sortable s ≡ (
          ok (some u.id),
          record s' {
            jobs = put_job (services.adds_job (Job.liquidate u.id) s') (Job.liquidate u.id) s'.jobs;
          },
        )
  unfolding liquidate_check_queue
  check_claims s r u idle best owned =
      catch_ok
        (λ (x : App bn.Num World). elim (orm.find_one is_processing_row x.liquidations) [
          | some r ↦ check_timeout bn orm services sortable r x
          | none ↦
              (update_liquidate_queue bn orm services sortable
                  >> claim_best bn orm services sortable)
                x
        ])
        (λ e. pure none) s (some u.id) end
        (by_work (orm.find_one is_processing_row s.liquidations) refl)
    where
      t : App bn.Num World
      t = (update_liquidate_queue bn orm services sortable s).1

      end : App bn.Num World
      end =
          let s' = (update_row orm (set_status processing) r.id t).1 in
          record s' {
            jobs = put_job (services.adds_job (Job.liquidate u.id) s') (Job.liquidate u.id) s'.jobs;
          }

      by_work :
          (o : Option (Liquidation bn.Num))
          → orm.find_one is_processing_row s.liquidations ≡ o
          → (let run : Result (Option String) × App bn.Num World = elim o [
            | some r ↦ check_timeout bn orm services sortable r s
            | none ↦
                (update_liquidate_queue bn orm services sortable
                    >> claim_best bn orm services sortable)
                  s
          ] in
              run)
            ≡ (ok (some u.id), end)
      by_work none q =
          bind_ok (update_liquidate_queue bn orm services sortable)
            (λ _. claim_best bn orm services sortable) s tt t (ap (λ x. (x, t)) (refreshed s))
          ∙ claimed r u t best owned
      by_work (some x) q = absurd (none_in_work s x idle q)

  -- Where no position is in work, the query after the refresh of the queue returns a best pending
  -- position, and that one has an account: the check returns the account's id, that position is in
  -- work, and the job to liquidate it is the last of the jobs if the query of `addJob` succeeds; if it
  -- does not, the jobs are as they were, though the position is in work.
  pub check_progress :
      (s : App bn.Num World) (r : Liquidation bn.Num) (u : UserAccount bn.Num)
      → let t = (update_liquidate_queue bn orm services sortable s).1 in
        let end = liquidate_check_queue bn orm services sortable s in
        count is_processing_row s.liquidations ≡ 0
        → best_pending bn orm services sortable t.liquidations ≡ ok (some r)
        → owner bn orm services sortable r t ≡ some u
        → (end.0 ≡ ok (some u.id))
          × (1 ≤ count (λ x. has_id r.id x && is_processing_row x) end.1.liquidations)
          × (end.1.jobs ≡ (
              if services.adds_job
                (Job.liquidate u.id)
                (update_row orm (set_status processing) r.id t).1
              then t.jobs ++ (Job.liquidate u.id ∷ [])
              else t.jobs))
  unfolding update_row
  check_progress s r u idle best owned =
      let t = (update_liquidate_queue bn orm services sortable s).1 in
      let ran = check_claims s r u idle best owned in
      (
        ap (λ z. z.0) ran,
        subst
            (λ (z : Result (Option String) × App bn.Num World).
              1 ≤ count (λ x. has_id r.id x && is_processing_row x) (z.1).liquidations)
            (sym ran) (set_to_work r.id t (there t best)),
        ap (λ z. (z.1).jobs) ran ∙ by_job (services.adds_job (Job.liquidate u.id) _) t.jobs,
      )
    where
      by_job :
          (b : Bool) (jobs : List Job)
          → put_job b (Job.liquidate u.id) jobs
            ≡ (if b then jobs ++ (Job.liquidate u.id ∷ []) else jobs)
      by_job true jobs = refl
      by_job false jobs = refl

      there :
          (t : App bn.Num World)
          → best_pending bn orm services sortable t.liquidations ≡ ok (some r)
          → 1 ≤ count (λ x. has_id r.id x && is_pending_row x) t.liquidations
      there t best = (returned-IsGreatest bn orm services sortable t.liquidations (some r) best).2
