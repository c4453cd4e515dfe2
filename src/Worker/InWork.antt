-- ===== src/Worker/InWork.antt =====
-- One position is in work at a time: src/jobs/liquidate-check-queue/index.ts.
use liquidator.Base.{
  ℕ, String, ◌≤◌, ◌≡◌, refl, Bool, true, false, not, ◌&&◌, ◌-◌, Option, none, some, count,
  if◌then◌else◌, arith, ltb,
}
use liquidator.Base.Results.{Result, ok, err, type_error, time_is_up}
use liquidator.BigNumber.{BigNumber}
use liquidator.BigNumber.Bigint.{Bigint}
use liquidator.Orm.{Orm}
use liquidator.State.{App, UserAccount, Liquidation, pending, processing, Job}
use liquidator.State.Monad.{Action, pure, catch, ◌>>◌}
use liquidator.State.Preserves.{Preserves}
use liquidator.Services.{Services}
use liquidator.Queue.{put_job, has_id, stamp, set_status, update_row}
use liquidator.Queue.Counts.{count-update_at, count-le, count-none}
use liquidator.Enqueue.Rows.{WorksOn, in_work, update_row-HasIds, update_row-WorksOn}
use liquidator.Worker.Refresh.{update_liquidate_queue-Preserves}
use liquidator.Enqueue.InWork.{kept_WorksOn}
use liquidator.Worker.{
  liquidation_timeout, is_processing_row, owner, update_liquidate_queue, best_pending,
  check_timeout, claim, claim_best, liquidate_check_queue,
}

module _ (bn : BigNumber) (orm : Orm) {World : Type 0} (services : Services bn.Num World)
    (sortable : Bigint bn) where
  -- A row that goes back to the queue is not in work.
  pub give_back-WorksOn :
      (k id : ℕ) (s : App bn.Num World)
      → WorksOn k s
      → WorksOn k (update_row orm (set_status pending) id s).1
  unfolding set_status
  give_back-WorksOn k id s h =
      update_row-WorksOn orm k (set_status pending) id s (λ x. refl)
        (λ x t. absurd (let c : ⊥ = cc in c)) h

  -- Where nothing is in work, one position may be taken.
  take-WorksOn :
      (id : ℕ) (s : App bn.Num World)
      → WorksOn 0 s
      → WorksOn 1 (update_row orm (set_status processing) id s).1
  unfolding update_row set_status
  take-WorksOn id s h = record {
    ids =
        unfold update_row set_status in
        update_row-HasIds orm (set_status processing) id s (λ x. refl) h.ids;
    few = omega (
      arith,
      h.ids.unique id,
      h.few,
      kept_few,
      count-update_at orm in_work (has_id id) (stamp s.now (set_status processing)) s.liquidations,
    );
  }
    where
      kept_few :
          count (λ x. in_work x && not (has_id id x)) s.liquidations ≤ count in_work s.liquidations
      kept_few =
          count-le (λ x. in_work x && not (has_id id x)) in_work s.liquidations
            (λ x t. ground arith)

  check_timeout-WorksOn :
      (k : ℕ) (r : Liquidation bn.Num)
      → Preserves {S = App bn.Num World} (WorksOn k) (check_timeout bn orm services sortable r)
  unfolding check_timeout
  check_timeout-WorksOn k r = record {
    apply = λ s h. go s h (ltb liquidation_timeout (s.now - r.updated_at));
  }
    where
      go :
          (s : App bn.Num World)
          → WorksOn k s
          → (late : Bool)
          → let end : Result (Option String) × App bn.Num World =
              if late
              then (err time_is_up, (update_row orm (set_status pending) r.id s).1)
              else (ok none, s) in
            WorksOn k end.1
      go s h true = give_back-WorksOn k r.id s h
      go s h false = h

  claim-WorksOn :
      (r : Liquidation bn.Num) (s : App bn.Num World)
      → WorksOn 0 s
      → WorksOn 1 (claim bn orm services sortable r s).1
  unfolding claim
  claim-WorksOn r s h = go (owner bn orm services sortable r s)
    where
      go :
          (o : Option (UserAccount bn.Num))
          → let end : Result (Option String) × App bn.Num World = elim o [
            | none ↦ (err type_error, (update_row orm (set_status pending) r.id s).1)
            | some u ↦
                let s' = (update_row orm (set_status processing) r.id s).1 in
                (
                  ok (some u.id),
                  record s' {
                    jobs =
                        put_job
                          (services.adds_job (Job.liquidate u.id) s')
                          (Job.liquidate u.id)
                          s'.jobs;
                  },
                )
          ] in
            WorksOn 1 end.1
      go none =
          let z = give_back-WorksOn 0 r.id s h in record { ids = z.ids; few = omega (arith, z.few) }
      go (some u) =
          let z = take-WorksOn r.id s h in
          record { ids = record { unique = z.ids.unique; below = z.ids.below }; few = z.few }

  claim_best-WorksOn :
      (s : App bn.Num World) → WorksOn 0 s → WorksOn 1 (claim_best bn orm services sortable s).1
  unfolding claim_best
  claim_best-WorksOn s h = go (best_pending bn orm services sortable s.liquidations)
    where
      go :
          (best : Result (Option (Liquidation bn.Num)))
          → let end : Result (Option String) × App bn.Num World = elim best [
            | err e ↦ (err e, s)
            | ok o ↦ elim o [ none ↦ (ok none, s) | some r ↦ claim bn orm services sortable r s ]
          ] in
            WorksOn 1 end.1
      go (err e) = record { ids = h.ids; few = omega (arith, h.few) }
      go (ok none) = record { ids = h.ids; few = omega (arith, h.few) }
      go (ok (some r)) = claim-WorksOn r s h

  catch-WorksOn :
      (m : Action (App bn.Num World) (Option String)) (s : App bn.Num World)
      → WorksOn 1 (m s).1
      → WorksOn 1 (catch m (λ e. pure none) s).1
  catch-WorksOn m s h = go (m s).0 (m s).1 h
    where
      go :
          (r : Result (Option String)) (t : App bn.Num World)
          → WorksOn 1 t
          → let end : Result (Option String) × App bn.Num World = elim r [
            | ok a ↦ (ok a, t)
            | err e ↦ (ok none, t)
          ] in
            WorksOn 1 end.1
      go (ok a) t h = h
      go (err e) t h = h

  -- The queue is brought up to date first, and then the best position taken.
  refresh_then_claim-WorksOn :
      (s : App bn.Num World)
      → WorksOn 0 s
      → WorksOn 1
          ((update_liquidate_queue bn orm services sortable >> claim_best bn orm services sortable)
            s).1
  refresh_then_claim-WorksOn s h =
      go (update_liquidate_queue bn orm services sortable s).0
        (update_liquidate_queue bn orm services sortable s).1
        ((update_liquidate_queue-Preserves bn orm services sortable (WorksOn 0)
            (kept_WorksOn orm 0)).apply
          s h)
    where
      go :
          (r : Result (Unit {0})) (t : App bn.Num World)
          → WorksOn 0 t
          → let end : Result (Option String) × App bn.Num World = elim r [
            | ok a ↦ claim_best bn orm services sortable t
            | err e ↦ (err e, t)
          ] in
            WorksOn 1 end.1
      go (ok a) t h = claim_best-WorksOn t h
      go (err e) t h = record { ids = h.ids; few = omega (arith, h.few) }

  -- Each run of the job leaves one position in work at most, if there was no more before it, and
  -- keeps the ids of the positions apart. This holds on every path: with a position in work that is
  -- on time or late, with none pending, with its account missing, and with services that throw.
  pub liquidate_check_queue-WorksOn :
      (s : App bn.Num World)
      → WorksOn 1 s
      → WorksOn 1 (liquidate_check_queue bn orm services sortable s).1
  unfolding liquidate_check_queue
  liquidate_check_queue-WorksOn s h =
      catch-WorksOn
        (λ t. elim (orm.find_one is_processing_row t.liquidations) [
          | some r ↦ check_timeout bn orm services sortable r t
          | none ↦
              (update_liquidate_queue bn orm services sortable
                  >> claim_best bn orm services sortable)
                t
        ])
        s (by_work (orm.find_one is_processing_row s.liquidations) refl)
    where
      by_work :
          (o : Option (Liquidation bn.Num))
          → orm.find_one is_processing_row s.liquidations ≡ o
          → let end : Result (Option String) × App bn.Num World = elim o [
            | some r ↦ check_timeout bn orm services sortable r s
            | none ↦
                (update_liquidate_queue bn orm services sortable
                    >> claim_best bn orm services sortable)
                  s
          ] in
            WorksOn 1 end.1
      by_work none q =
          let idle =
            count-none is_processing_row s.liquidations
              (orm.find_one_none is_processing_row s.liquidations q) in
          refresh_then_claim-WorksOn s (record { ids = h.ids; few = omega (arith, idle) })
      by_work (some r) q = (check_timeout-WorksOn 1 r).apply s h
