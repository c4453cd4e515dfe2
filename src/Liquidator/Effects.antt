-- ===== src/Liquidator/Effects.antt =====
-- What one write of a liquidation keeps, estimated and sent: whatever sending it keeps.
use liquidator.Base.{String, ◌≡◌, refl, Bool, true, false, ◌++◌}
use liquidator.Base.Results.{Result, ok, err}
use liquidator.BigNumber.{BigNumber}
use liquidator.Config.{Network}
use liquidator.State.{App}
use liquidator.State.Monad.{Action, when}
use liquidator.State.Preserves.{Preserves, pure-Preserves, bind-Preserves}
use liquidator.Services.{Services, SendRes, ContractMethodWrite, LiquidationCall}
use liquidator.Liquidator.{
  Progress, Trial, on_app, send_wrap, estimate_wrap, run_write, run_prepared,
}

-- Each write of the services, once it is prepared, keeps the property when it is sent.
pub record WritesKeep {Num World : Type 0} (services : Services Num World)
    (P : App Num World → Type 0) : Type 0 where
  pub swap_from :
      (token : String) (amount : Num) (network : Network) (s : App Num World)
      (write : ContractMethodWrite Num World)
      → services.swap_from_reserve_token token amount network s ≡ ok write
      → Preserves P write.send
  pub swap_to :
      (token : String) (amount : Num) (network : Network) (s : App Num World)
      (write : ContractMethodWrite Num World)
      → services.swap_to_reserve_token token amount network s ≡ ok write
      → Preserves P write.send
  pub liquidates :
      (call : LiquidationCall Num) (gas_price : Num) (network : Network) (s : App Num World)
      (write : ContractMethodWrite Num World)
      → services.liquidate call gas_price network s ≡ ok write
      → Preserves P write.send
  pub flashloans :
      (call : LiquidationCall Num) (gas_price : Num) (network : Network) (s : App Num World)
      (write : ContractMethodWrite Num World)
      → services.flashloan_liquidate call gas_price network s ≡ ok write
      → Preserves P write.send
  pub balances :
      (token : String) (network : Network)
      → Preserves P (services.update_token_balance token network)

module _ (bn : BigNumber) {World : Type 0} (P : App bn.Num World → Type 0) where
  -- The property, of the state in the course of a liquidation.
  abbrev pub Within : Trial bn.Num World → Type 0
  Within t = P (t.1)

  pub on_app-Preserves :
      {A : Type 0} (m : Action (App bn.Num World) A) → Preserves P m → Preserves Within (on_app m)
  on_app-Preserves m h = record { apply = λ t p. h.apply (t.1) p }

  pub when-Preserves :
      (b : Bool) (m : Action (Trial bn.Num World) (Unit {0}))
      → Preserves Within m
      → Preserves Within (when b m)
  when-Preserves true m h = h
  when-Preserves false m h = pure-Preserves Within tt

  send_wrap-Preserves :
      (send : Action (App bn.Num World) (SendRes bn.Num))
      → Preserves P send
      → Preserves Within (send_wrap bn send)
  unfolding send_wrap
  send_wrap-Preserves send h = record {
    apply = λ t p. go (t.0) (send (t.1)).0 (send (t.1)).1 (h.apply (t.1) p);
  }
    where
      go :
          (progress : Progress bn.Num) (r : Result (SendRes bn.Num)) (u : App bn.Num World)
          → P u
          → let end : Result (Unit {0}) × Trial bn.Num World = elim r [
            | ok tx ↦ (
              ok tt,
              (
                record progress {
                  fee_fact = bn.plus progress.fee_fact tx.fee;
                  txs = progress.txs ++ tx.txs;
                },
                u,
              ),
            )
            | err e ↦ (err e, (progress, u))
          ] in
            P (end.1.1)
      go progress (ok tx) u p = p
      go progress (err e) u p = p

  run_write-Preserves :
      (send : Bool) (gas_price : bn.Num) (write : ContractMethodWrite bn.Num World)
      → Preserves P write.send
      → Preserves Within (run_write bn send gas_price write)
  unfolding run_write estimate_wrap
  run_write-Preserves send gas_price write h =
      bind-Preserves Within (estimate_wrap bn gas_price write.estimate) _
        (record { apply = λ t p. p })
        (λ _. when-Preserves send (send_wrap bn write.send) (send_wrap-Preserves write.send h))

  -- The preparation is a read; what it returns keeps the property.
  pub run_prepared-Preserves :
      (send : Bool) (gas_price : bn.Num)
      (prepare : App bn.Num World → Result (ContractMethodWrite bn.Num World))
      → ((s : App bn.Num World) (write : ContractMethodWrite bn.Num World)
          → prepare s ≡ ok write
          → Preserves P write.send)
      → Preserves Within (run_prepared bn send gas_price prepare)
  unfolding run_prepared
  run_prepared-Preserves send gas_price prepare h = record {
    apply = λ t p. go t p (prepare (t.1)) refl;
  }
    where
      go :
          (t : Trial bn.Num World)
          → P (t.1)
          → (r : Result (ContractMethodWrite bn.Num World)) → prepare (t.1) ≡ r
          → let end : Result (Unit {0}) × Trial bn.Num World = elim r [
            | ok write ↦ run_write bn send gas_price write t
            | err e ↦ (err e, t)
          ] in
            P (end.1.1)
      go t p (ok write) e = (run_write-Preserves send gas_price write (h (t.1) write e)).apply t p
      go t p (err x) e = p
