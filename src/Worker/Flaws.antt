-- ===== src/Worker/Flaws.antt =====
-- src/jobs/liquidate.ts: what it records does not depend on what `tryLiquidate` reports.
use liquidator.Base.{String, refl, ap, some, true, ◌≡◌, ◌∙◌, Option, none}
use liquidator.Base.Results.{ok, Result, err, type_error, Error}
use liquidator.BigNumber.{BigNumber}
use liquidator.BigNumber.Bigint.{Bigint}
use liquidator.Orm.{Orm}
use liquidator.State.{App, UserAccount, Liquidation, liquidated, pending}
use liquidator.State.Monad.{gets, read_ok, catch, catch_ok, bind_ok, ◌>>=◌}
use liquidator.Services.{Services}
use liquidator.Queue.{has_id, update_row, set_status}
use liquidator.Liquidator.{TryLiquidate, try_liquidate_with}
use liquidator.Worker.{
  reserve_balance, refresh_user, finish, fact_profit, conclude_job, liquidate_user, liquidate,
  processing_for, owner,
}

module _ (bn : BigNumber) (orm : Orm) {World : Type 0} (services : Services bn.Num World)
    (sortable : Bigint bn) where
  -- The job up to the update of the row.
  liquidate_user_lem :
      (r : Liquidation bn.Num) (u : UserAccount bn.Num) (s t : App bn.Num World)
      (attempt : Option (TryLiquidate bn.Num)) (before after : bn.Num)
      → reserve_balance bn orm services sortable u.network_id s ≡ ok before
      → try_liquidate_with bn services
          (refresh_user bn orm services sortable)
          u.address
          true
          u.network_id
          none
          s
        ≡ (ok attempt, t)
      → reserve_balance bn orm services sortable u.network_id t ≡ ok after
      → liquidate_user bn orm services sortable r u s
        ≡ finish bn orm services sortable r
            (fact_profit bn orm services sortable before
              (services.get_balance u.network_id s)
              after
              (services.get_balance u.network_id t))
            t
  unfolding liquidate_user conclude_job
  liquidate_user_lem r u s t attempt before after first ran second =
      let native_before = services.get_balance u.network_id s in
      read_ok (reserve_balance bn orm services sortable u.network_id)
        (λ reserve_before. gets (services.get_balance u.network_id) >>= λ native.
          try_liquidate_with bn services (refresh_user bn orm services sortable) u.address true
            u.network_id none
          >>= λ attempt. conclude_job bn orm services sortable r u.network_id reserve_before native)
        s before first
      ∙ (bind_ok
            (try_liquidate_with bn services (refresh_user bn orm services sortable) u.address true
              u.network_id none)
            (λ attempt. conclude_job bn orm services sortable r u.network_id before native_before) s
            attempt t ran
          ∙ read_ok (reserve_balance bn orm services sortable u.network_id)
              (λ reserve_after. gets (services.get_balance u.network_id) >>= λ native.
                finish bn orm services sortable r
                  (fact_profit bn orm services sortable before native_before reserve_after native))
              t after second)

  -- The update of the row, with the profit written out.
  finished :
      (r : Liquidation bn.Num) (before after native_before native_after : bn.Num)
      (t : App bn.Num World)
      → finish bn orm services sortable r
          (fact_profit bn orm services sortable before native_before after native_after)
          t
        ≡ (
          ok tt,
          record t {
            liquidations =
                orm.update
                  (has_id r.id)
                  (λ row. record row {
                    status = liquidated;
                    fact_profit_eth =
                        some
                          (bn.minus (bn.minus after before) (bn.minus native_before native_after));
                    updated_at = t.now;
                  })
                  t.liquidations;
          },
        )
  unfolding finish fact_profit update_row
  finished r before after native_before native_after t = refl

  -- Whether `tryLiquidate` reports a liquidation, or nothing at all because there was nothing to
  -- gain or the liquidation failed: the position's row is marked as liquidated, with the gain of the
  -- general reserve since the start less the native coin spent since then as its profit, and nothing
  -- else is changed after the attempt, if the account is there and the reserve can be read both
  -- times.
  pub outcome_ignored :
      (user_id : String) (r : Liquidation bn.Num) (u : UserAccount bn.Num) (s t : App bn.Num World)
      (attempt : Option (TryLiquidate bn.Num)) (before after : bn.Num)
      → orm.find_one (processing_for user_id) s.liquidations ≡ some r
      → owner bn orm services sortable r s ≡ some u
      → reserve_balance bn orm services sortable u.network_id s ≡ ok before
      → try_liquidate_with bn services
          (refresh_user bn orm services sortable)
          u.address
          true
          u.network_id
          none
          s
        ≡ (ok attempt, t)
      → reserve_balance bn orm services sortable u.network_id t ≡ ok after
      → let spent =
          bn.minus (services.get_balance u.network_id s) (services.get_balance u.network_id t) in
        liquidate bn orm services sortable user_id s ≡ (
          ok tt,
          record t {
            liquidations =
                orm.update
                  (has_id r.id)
                  (λ row. record row {
                    status = liquidated;
                    fact_profit_eth = some (bn.minus (bn.minus after before) spent);
                    updated_at = t.now;
                  })
                  t.liquidations;
          },
        )
  unfolding liquidate
  outcome_ignored user_id r u s t attempt before after claimed owned first ran second =
      let native_before = services.get_balance u.network_id s in
      let native_after = services.get_balance u.network_id t in
      let body =
        liquidate_user_lem r u s t attempt before after first ran second
        ∙ finished r before after native_before native_after t in
      by_row (orm.find_one (processing_for user_id) s.liquidations) claimed (
        catch_ok (run_row r) (give_back r) s tt _
          (by_owner (owner bn orm services sortable r s) owned body))
    where
      run_row : Liquidation bn.Num → App bn.Num World → Result (Unit {0}) × App bn.Num World
      run_row x y = elim (owner bn orm services sortable x y) [
        | none ↦ (err type_error, y)
        | some v ↦ liquidate_user bn orm services sortable x v y
      ]

      give_back :
          Liquidation bn.Num → Error → App bn.Num World → Result (Unit {0}) × App bn.Num World
      give_back x e = update_row orm (set_status pending) x.id

      by_owner :
          {end : Result (Unit {0}) × App bn.Num World} (o : Option (UserAccount bn.Num))
          → o ≡ some u
          → liquidate_user bn orm services sortable r u s ≡ end
          → (let run : Result (Unit {0}) × App bn.Num World = elim o [
            | none ↦ (err type_error, s)
            | some v ↦ liquidate_user bn orm services sortable r v s
          ] in
              run)
            ≡ end
      by_owner none e h = absurd (let c : ⊥ = cc in c)
      by_owner (some v) e h =
          let same : v ≡ u = cc in ap (λ x. liquidate_user bn orm services sortable r x s) same ∙ h

      by_row :
          {end : Result (Unit {0}) × App bn.Num World} (o : Option (Liquidation bn.Num))
          → o ≡ some r
          → catch (run_row r) (give_back r) s ≡ end
          → (let run : Result (Unit {0}) × App bn.Num World = elim o [
            | none ↦ (ok tt, s)
            | some x ↦ catch (run_row x) (give_back x) s
          ] in
              run)
            ≡ end
      by_row none e h = absurd (let c : ⊥ = cc in c)
      by_row (some x) e h =
          let same : x ≡ r = cc in ap (λ y. catch (run_row y) (give_back y) s) same ∙ h
