-- ===== src/Worker/Run.antt =====
-- The job of src/jobs/liquidate.ts keeps what its liquidation keeps, and what the one write of its
-- row keeps.
use liquidator.Base.{String, ◌≡◌, refl, true, Option, none, some}
use liquidator.Base.Results.{Result, ok, err, type_error}
use liquidator.BigNumber.{BigNumber}
use liquidator.BigNumber.Bigint.{Bigint}
use liquidator.Config.{Network}
use liquidator.Orm.{Orm}
use liquidator.State.{App, UserAccount, Liquidation, pending}
use liquidator.State.Monad.{gets, read, catch}
use liquidator.State.Preserves.{
  Preserves, gets-Preserves, read-Preserves, catch-Preserves, bind-Preserves,
}
use liquidator.Services.{Services}
use liquidator.Liquidator.{try_liquidate_with}
use liquidator.Liquidator.Effects.{WritesKeep}
use liquidator.Liquidator.Sent.{try_liquidate_with-Preserves}
use liquidator.Queue.{UpdateRequest, update_row, set_status}
use liquidator.Enqueue.Kept.{IsKept, update_user_account_data-Preserves}
use liquidator.Worker.{
  owner, processing_for, refresh_user, reserve_balance, fact_profit, finish, conclude_job,
  liquidate_user, liquidate,
}

module _ (bn : BigNumber) (orm : Orm) {World : Type 0} (services : Services bn.Num World)
    (sortable : Bigint bn) (P : App bn.Num World → Type 0) (kept : IsKept orm P)
    (keep : WritesKeep services P) where
  refresh_user-Preserves :
      (address : String) (network : Network)
      → Preserves P (refresh_user bn orm services sortable address network)
  unfolding refresh_user
  refresh_user-Preserves address network =
      let request : UpdateRequest = record { user_address = address; network = some network } in
      record {
        apply = (update_user_account_data-Preserves bn orm services P kept request none).apply;
      }

  liquidate_user-Preserves :
      (r : Liquidation bn.Num) (u : UserAccount bn.Num)
      → ((profit : bn.Num) → Preserves P (finish bn orm services sortable r profit))
      → Preserves P (liquidate_user bn orm services sortable r u)
  unfolding liquidate_user conclude_job
  liquidate_user-Preserves r u finishes =
      let balance = reserve_balance bn orm services sortable u.network_id in
      bind-Preserves P (read balance) _ (read-Preserves P balance) (λ reserve_before.
        bind-Preserves P (gets (services.get_balance u.network_id)) _
          (gets-Preserves P (services.get_balance u.network_id))
          (λ native_before.
            bind-Preserves P
              (try_liquidate_with bn services (refresh_user bn orm services sortable) u.address true
                u.network_id none)
              _
              (try_liquidate_with-Preserves bn P services keep
                (refresh_user bn orm services sortable) refresh_user-Preserves u.address true
                u.network_id none)
              (λ attempt.
                bind-Preserves P (read balance) _ (read-Preserves P balance) (λ reserve_after.
                  bind-Preserves P (gets (services.get_balance u.network_id)) _
                    (gets-Preserves P (services.get_balance u.network_id))
                    (λ native_after. finishes (
                      fact_profit bn orm services sortable reserve_before native_before
                        reserve_after native_after))))))

  pub liquidate-Preserves :
      (user_id : String) (s : App bn.Num World)
      → ((r : Liquidation bn.Num)
          → orm.find_one (processing_for user_id) s.liquidations ≡ some r
          → ((profit : bn.Num) → Preserves P (finish bn orm services sortable r profit))
            × Preserves {S = App bn.Num World} P (update_row orm (set_status pending) r.id))
      → P s
      → P (liquidate bn orm services sortable user_id s).1
  unfolding liquidate
  liquidate-Preserves user_id s writes h =
      by_row (orm.find_one (processing_for user_id) s.liquidations) refl
    where
      body-Preserves :
          (r : Liquidation bn.Num)
          → ((profit : bn.Num) → Preserves P (finish bn orm services sortable r profit))
          → Preserves P (λ (t : App bn.Num World).
            (let end : Result (Unit {0}) × App bn.Num World =
                elim (owner bn orm services sortable r t) [
                  | none ↦ (err type_error, t)
                  | some u ↦ liquidate_user bn orm services sortable r u t
                ] in
              end))
      body-Preserves r finishes = record {
        apply = λ t p. by_owner t p (owner bn orm services sortable r t);
      }
        where
          by_owner :
              (t : App bn.Num World)
              → P t
              → (o : Option (UserAccount bn.Num))
              → let end : Result (Unit {0}) × App bn.Num World = elim o [
                | none ↦ (err type_error, t)
                | some u ↦ liquidate_user bn orm services sortable r u t
              ] in
                P end.1
          by_owner t p none = p
          by_owner t p (some u) = (liquidate_user-Preserves r u finishes).apply t p

      by_row :
          (o : Option (Liquidation bn.Num))
          → orm.find_one (processing_for user_id) s.liquidations ≡ o
          → let end : Result (Unit {0}) × App bn.Num World = elim o [
            | none ↦ (ok tt, s)
            | some r ↦
                catch
                  (λ t. elim (owner bn orm services sortable r t) [
                    | none ↦ (err type_error, t)
                    | some u ↦ liquidate_user bn orm services sortable r u t
                  ])
                  (λ e. update_row orm (set_status pending) r.id)
                  s
          ] in
            P end.1
      by_row none e = h
      by_row (some r) e =
          let w = writes r e in
          let whole =
            catch-Preserves P
              (λ (t : App bn.Num World). elim (owner bn orm services sortable r t) [
                | none ↦ (err type_error, t)
                | some u ↦ liquidate_user bn orm services sortable r u t
              ])
              (λ e. update_row orm (set_status pending) r.id) (body-Preserves r (w.0)) (λ e. w.1) in
          whole.apply s h
