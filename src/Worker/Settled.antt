-- ===== src/Worker/Settled.antt =====
-- The jobs of the worker leave a position alone that has come to its end.
use liquidator.Base.{
  ℕ, String, ◌≡◌, ◌≢◌, ◌≤◌, ◌-◌, refl, Bool, true, false, Option, none, some, List, count, arith,
  ltb, ◌&&◌, if◌then◌else◌,
}
use liquidator.Base.Results.{Result, ok, err, type_error, time_is_up}
use liquidator.BigNumber.{BigNumber}
use liquidator.BigNumber.Bigint.{Bigint}
use liquidator.Orm.{Orm}
use liquidator.State.{
  App, UserAccount, Liquidation, Status, liquidated, processing, pending, deferred, cancelled,
  error, Job,
}
use liquidator.State.Preserves.{Preserves}
use liquidator.Services.{Services}
use liquidator.Queue.{put_job, is_pending, is_processing, has_id, set_status, update_row}
use liquidator.Queue.Counts.{count-le}
use liquidator.Enqueue.Settled.{
  Mark, IsClosed, is_open, open_at, open-IsClosed, found_open, update_row-IsClosed,
}
use liquidator.Worker.Order.{IsGreatest, returned-IsGreatest}
use liquidator.Worker.{
  liquidation_timeout, is_pending_row, owner, sort_key, best_pending, check_timeout, claim,
  claim_best,
}

processing-is_open : (x : Status) → is_processing x ≡ true → is_open x ≡ true
processing-is_open processing h = refl
processing-is_open pending h = refl
processing-is_open deferred h = refl
processing-is_open liquidated h = h
processing-is_open cancelled h = h
processing-is_open error h = h

pending-is_open : (x : Status) → is_pending x ≡ true → is_open x ≡ true
pending-is_open pending h = refl
pending-is_open processing h = refl
pending-is_open deferred h = refl
pending-is_open liquidated h = h
pending-is_open cancelled h = h
pending-is_open error h = h

module _ (bn : BigNumber) (orm : Orm) {World : Type 0} (services : Services bn.Num World)
    (sortable : Bigint bn) (i : Mark bn.Num) where
  -- A change of status of another row.
  pub set_status-IsClosed :
      (status : Status) (id : ℕ) (s : App bn.Num World)
      → id ≢ i.id
      → IsClosed i s
      → IsClosed i (update_row orm (set_status status) id s).1
  unfolding set_status
  set_status-IsClosed status id s other h =
      update_row-IsClosed orm i (set_status status) id s (λ x. refl) other h

  pub check_timeout-IsClosed :
      (r : Liquidation bn.Num) (s : App bn.Num World)
      → r.id ≢ i.id
      → IsClosed i s
      → IsClosed i (check_timeout bn orm services sortable r s).1
  unfolding check_timeout
  check_timeout-IsClosed r s other h = go (ltb liquidation_timeout (s.now - r.updated_at))
    where
      go :
          (late : Bool)
          → let end : Result (Option String) × App bn.Num World =
              if late
              then (err time_is_up, (update_row orm (set_status pending) r.id s).1)
              else (ok none, s) in
            IsClosed i end.1
      go true = set_status-IsClosed pending r.id s other h
      go false = h

  claim-IsClosed :
      (r : Liquidation bn.Num) (s : App bn.Num World)
      → r.id ≢ i.id
      → IsClosed i s
      → IsClosed i (claim bn orm services sortable r s).1
  unfolding claim
  claim-IsClosed r s other h = go (owner bn orm services sortable r s)
    where
      go :
          (o : Option (UserAccount bn.Num))
          → let end : Result (Option String) × App bn.Num World = elim o [
            | none ↦ (err type_error, (update_row orm (set_status pending) r.id s).1)
            | some u ↦
                let s' = (update_row orm (set_status processing) r.id s).1 in
                (
                  ok (some u.id),
                  record s' {
                    jobs =
                        put_job
                          (services.adds_job (Job.liquidate u.id) s')
                          (Job.liquidate u.id)
                          s'.jobs;
                  },
                )
          ] in
            IsClosed i end.1
      go none = set_status-IsClosed pending r.id s other h
      go (some u) =
          let z = set_status-IsClosed processing r.id s other h in
          record { ids = record { unique = z.ids.unique; below = z.ids.below }; closed = z.closed }

  pub claim_best-IsClosed :
      Preserves {S = App bn.Num World} (IsClosed i) (claim_best bn orm services sortable)
  unfolding claim_best
  claim_best-IsClosed = record {
    apply = λ s h.
        go s h (best_pending bn orm services sortable s.liquidations)
          (returned-IsGreatest bn orm services sortable s.liquidations);
  }
    where
      pending_one :
          (r : Liquidation bn.Num) (t : List (Liquidation bn.Num))
          → 1 ≤ count (λ x. has_id r.id x && is_pending_row x) t
          → 1 ≤ count (open_at r.id) t
      pending_one r t h = omega (
        arith,
        h,
        count-le (λ x. has_id r.id x && is_pending_row x) (open_at r.id) t
            (λ (x : Liquidation bn.Num) (e : (has_id r.id x && is_pending_row x) ≡ true).
              ground (arith, e, pending-is_open x.status)),
      )

      go :
          (s : App bn.Num World)
          → IsClosed i s
          → (best : Result (Option (Liquidation bn.Num)))
          → ((o : Option (Liquidation bn.Num))
              → best ≡ ok o
              → IsGreatest (sort_key bn orm services sortable) s.liquidations o)
          → let end : Result (Option String) × App bn.Num World = elim best [
            | err e ↦ (err e, s)
            | ok o ↦ elim o [ none ↦ (ok none, s) | some r ↦ claim bn orm services sortable r s ]
          ] in
            IsClosed i end.1
      go s h (err e) g = h
      go s h (ok none) g = h
      go s h (ok (some r)) g =
          claim-IsClosed r s
            (open-IsClosed i r.id s h (pending_one r s.liquidations ((g (some r) refl).2))) h

  -- The row that was found is in work, and so another one.
  pub processing_other :
      (p : Liquidation bn.Num → Bool) (r : Liquidation bn.Num) (s : App bn.Num World)
      → ((x : Liquidation bn.Num) → p x ≡ true → is_processing x.status ≡ true)
      → orm.find_one p s.liquidations ≡ some r
      → IsClosed i s
      → r.id ≢ i.id
  processing_other p r s works e h =
      let found = orm.find_one_some p s.liquidations r e in
      open-IsClosed i r.id s h
        (found_open r s.liquidations (found.0) (processing-is_open r.status (works r (found.1))))
