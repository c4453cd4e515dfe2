-- ===== src/Worker/Refresh.antt =====
-- Bringing the queue up to date, `updateLiquidateQueue` of src/database/Liquidate.ts, keeps what the
-- refresh of each user keeps.
use liquidator.Base.{Option, none, some, List, [], ◌∷◌}
use liquidator.Base.Results.{Result, err, type_error}
use liquidator.BigNumber.{BigNumber}
use liquidator.BigNumber.Bigint.{Bigint}
use liquidator.Orm.{Orm}
use liquidator.State.{App, UserAccount, Liquidation}
use liquidator.State.Monad.{pure, gets, ◌>>=◌}
use liquidator.State.Preserves.{
  Preserves, gets-Preserves, pure-Preserves, catch-Preserves, bind-Preserves,
}
use liquidator.Services.{Services}
use liquidator.Queue.{UpdateRequest}
use liquidator.Enqueue.{update_user_account_data}
use liquidator.Enqueue.Kept.{IsKept, update_user_account_data-Preserves}
use liquidator.Worker.{is_queued_row, owner, update_rows, update_liquidate_queue}

module _ (bn : BigNumber) (orm : Orm) {World : Type 0} (services : Services bn.Num World)
    (sortable : Bigint bn) (P : App bn.Num World → Type 0) (kept : IsKept orm P) where
  update_rows-Preserves :
      (rs : List (Liquidation bn.Num)) → Preserves P (update_rows bn orm services sortable rs)
  unfolding update_rows
  update_rows-Preserves [] = record { apply = λ s h. h }
  update_rows-Preserves (r ∷ rs) = record {
    apply = λ s h. go (update_rows-Preserves rs).apply s h (owner bn orm services sortable r s);
  }
    where
      go :
          ((s : App bn.Num World) → P s → P (update_rows bn orm services sortable rs s).1)
          → (s : App bn.Num World) → P s
          → (o : Option (UserAccount bn.Num))
          → let end : Result (Unit {0}) × App bn.Num World = elim o [
            | none ↦ (err type_error, s)
            | some u ↦
                update_rows bn orm services sortable rs
                  (update_user_account_data bn orm services
                    (record { user_address = u.address; network = some u.network_id })
                    none
                    s).1
          ] in
            P end.1
      go rest s h none = h
      go rest s h (some u) =
          let request : UpdateRequest = record {
            user_address = u.address;
            network = some u.network_id;
          } in
          rest _
            ((update_user_account_data-Preserves bn orm services P kept request none).apply s h)

  pub update_liquidate_queue-Preserves :
      Preserves P (update_liquidate_queue bn orm services sortable)
  unfolding update_liquidate_queue
  update_liquidate_queue-Preserves =
      catch-Preserves P
        (gets (λ (s : App bn.Num World). orm.find_all is_queued_row s.liquidations)
          >>= update_rows bn orm services sortable)
        (λ e. pure tt)
        (bind-Preserves P
          (gets (λ (s : App bn.Num World). orm.find_all is_queued_row s.liquidations))
          (update_rows bn orm services sortable)
          (gets-Preserves P (λ s. orm.find_all is_queued_row s.liquidations))
          (update_rows-Preserves))
        (λ e. pure-Preserves P tt)
