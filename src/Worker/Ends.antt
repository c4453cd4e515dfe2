-- ===== src/Worker/Ends.antt =====
-- Once a position is liquidated, cancelled or in error, no job of src/jobs takes it up again.
use liquidator.Base.{ℕ, String, ◌≡◌, refl, true, Option, none, some, arith}
use liquidator.Base.Results.{Result}
use liquidator.BigNumber.{BigNumber}
use liquidator.BigNumber.Bigint.{Bigint}
use liquidator.Orm.{Orm}
use liquidator.State.{App, Liquidation, pending, liquidated}
use liquidator.State.Monad.{pure, ◌>>◌}
use liquidator.State.Preserves.{Preserves, pure-Preserves, catch-Preserves, bind-Preserves}
use liquidator.Services.{Services}
use liquidator.Liquidator.Effects.{WritesKeep}
use liquidator.Queue.{is_processing}
use liquidator.Enqueue.Settled.{Mark, IsClosed, update_row-IsClosed, kept_IsClosed}
use liquidator.Enqueue.Rows.{WorksOn, update_row-WorksOn}
use liquidator.Enqueue.InWork.{kept_WorksOn}
use liquidator.Worker.InWork.{give_back-WorksOn}
use liquidator.Worker.Refresh.{update_liquidate_queue-Preserves}
use liquidator.Worker.Run.{liquidate-Preserves}
use liquidator.Worker.Settled.{
  set_status-IsClosed, check_timeout-IsClosed, claim_best-IsClosed, processing_other,
}
use liquidator.Worker.{
  is_processing_row, processing_for, update_liquidate_queue, check_timeout, claim_best, finish,
  liquidate_check_queue, liquidate,
}

module _ (bn : BigNumber) (orm : Orm) {World : Type 0} (services : Services bn.Num World)
    (sortable : Bigint bn) where
  -- Each run of the check of the queue leaves a position that has come to its end as it is.
  pub liquidate_check_queue-IsClosed :
      (i : Mark bn.Num)
      → Preserves {S = App bn.Num World}
          (IsClosed i)
          (liquidate_check_queue bn orm services sortable)
  unfolding liquidate_check_queue
  liquidate_check_queue-IsClosed i =
      catch-Preserves (IsClosed i)
        (λ (t : App bn.Num World). elim (orm.find_one is_processing_row t.liquidations) [
          | some r ↦ check_timeout bn orm services sortable r t
          | none ↦
              (update_liquidate_queue bn orm services sortable
                  >> claim_best bn orm services sortable)
                t
        ])
        (λ e. pure none)
        (record { apply = λ s h. by_work s h (orm.find_one is_processing_row s.liquidations) refl })
        (λ e. pure-Preserves (IsClosed i) none)
    where
      refresh_then_claim :
          Preserves {S = App bn.Num World}
            (IsClosed i)
            (update_liquidate_queue bn orm services sortable >> claim_best bn orm services sortable)
      refresh_then_claim =
          bind-Preserves (IsClosed i) (update_liquidate_queue bn orm services sortable)
            (λ _. claim_best bn orm services sortable)
            (update_liquidate_queue-Preserves bn orm services sortable (IsClosed i)
              (kept_IsClosed orm i))
            (λ _. claim_best-IsClosed bn orm services sortable i)

      by_work :
          (s : App bn.Num World)
          → IsClosed i s
          → (o : Option (Liquidation bn.Num)) → orm.find_one is_processing_row s.liquidations ≡ o
          → let end : Result (Option String) × App bn.Num World = elim o [
            | some r ↦ check_timeout bn orm services sortable r s
            | none ↦
                (update_liquidate_queue bn orm services sortable
                    >> claim_best bn orm services sortable)
                  s
          ] in
            IsClosed i end.1
      by_work s h none e = refresh_then_claim.apply s h
      by_work s h (some r) e =
          check_timeout-IsClosed bn orm services sortable i r s
            (processing_other bn orm services sortable i is_processing_row r s (λ x t. t) e h) h

  for_processing :
      (user_id : String) (x : Liquidation bn.Num)
      → processing_for user_id x ≡ true
      → is_processing x.status ≡ true
  for_processing user_id x h = ground arith

  -- So does the job that liquidates, whatever the liquidation does, if its writes do.
  pub liquidate-IsClosed :
      (i : Mark bn.Num) (user_id : String)
      → WritesKeep services (IsClosed i)
      → Preserves {S = App bn.Num World} (IsClosed i) (liquidate bn orm services sortable user_id)
  unfolding finish
  liquidate-IsClosed i user_id keep = record {
    apply = λ s h.
        liquidate-Preserves bn orm services sortable (IsClosed i) (kept_IsClosed orm i) keep user_id
          s
          (λ r e.
            let other =
              processing_other bn orm services sortable i (processing_for user_id) r s
                (for_processing user_id) e h in
            (
              λ profit. record {
                apply = λ t.
                    update_row-IsClosed orm i
                      (λ row. record row { status = liquidated; fact_profit_eth = some profit })
                      r.id t (λ x. refl) other;
              },
              record {
                apply = λ t. set_status-IsClosed bn orm services sortable i pending r.id t other;
              },
            ))
          h;
  }

  -- The job that liquidates takes no further position to work.
  pub liquidate-WorksOn :
      (k : ℕ) (user_id : String)
      → WritesKeep services (WorksOn k)
      → Preserves {S = App bn.Num World} (WorksOn k) (liquidate bn orm services sortable user_id)
  unfolding finish
  liquidate-WorksOn k user_id keep = record {
    apply = λ s h.
        liquidate-Preserves bn orm services sortable (WorksOn k) (kept_WorksOn orm k) keep user_id s
          (λ r e. (
            λ profit. record {
              apply = λ t.
                  update_row-WorksOn orm k
                    (λ row. record row { status = liquidated; fact_profit_eth = some profit }) r.id
                    t (λ x. refl) (λ x c. absurd (let bad : ⊥ = cc in bad));
            },
            record { apply = λ t. give_back-WorksOn bn orm services sortable k r.id t },
          ))
          h;
  }
