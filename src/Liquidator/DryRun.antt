-- ===== src/Liquidator/DryRun.antt =====
-- An estimate, `tryLiquidate` with `send = false`, is a dry run.
use liquidator.Base.{
  String, ◌≡◌, refl, ◌∙◌, Bool, true, false, not, Option, none, some, [], str_eq, Bool-cases, inl,
  inr,
}
use liquidator.Base.Results.{Result, ok, err}
use liquidator.BigNumber.{BigNumber}
use liquidator.Config.{Network}
use liquidator.Estimate.{UserReserve, LiquidateData}
use liquidator.State.{App}
use liquidator.State.Monad.{Action, ◌>>=◌, ◌>>◌, when, pure, read_elim}
use liquidator.Services.{Services, ContractMethodWrite, LiquidationCall, GeneralReserveToken}
use liquidator.Liquidator.{
  Trial, run_write, estimate_wrap, repay, swap_back, settle, attempt, run_attempt, conclude,
  amount_back, run_prepared, estimate_of, from_reserves, from_gas_price, given_or_read,
  try_liquidate_with, start, report, reading, TryLiquidate,
}

-- The call leaves the state, the fee paid and the transactions sent as they were.
record Keeps {Num World A : Type 0} (m : Action (Trial Num World) A) : Type 0 where
  apply :
      (t : Trial Num World)
      → ((m t).1.1 ≡ t.1) × ((m t).1.0.fee_fact ≡ t.0.fee_fact) × ((m t).1.0.txs ≡ t.0.txs)

module _ {Num World A B : Type 0} where
  bind-Keeps :
      (m : Action (Trial Num World) A) (f : A → Action (Trial Num World) B)
      → Keeps m
      → ((a : A) → Keeps (f a))
      → Keeps (m >>= f)
  bind-Keeps m f hm hf = record {
    apply =
        λ t. let k = hm.apply t in let r = go (m t).0 (m t).1 in (r.0 ∙ k.0, r.1 ∙ k.1, r.2 ∙ k.2);
  }
    where
      go :
          (r : Result A) (t' : Trial Num World)
          → let end : Result B × Trial Num World = elim r [ ok a ↦ f a t' | err e ↦ (err e, t') ] in
            (end.1.1 ≡ t'.1) × (end.1.0.fee_fact ≡ t'.0.fee_fact) × (end.1.0.txs ≡ t'.0.txs)
      go (ok a) t' = (hf a).apply t'
      go (err e) t' = (refl, refl, refl)

module _ {Num World : Type 0} where
  when-Keeps : (b : Bool) (m : Action (Trial Num World) (Unit {0})) → Keeps m → Keeps (when b m)
  when-Keeps true m h = h
  when-Keeps false m h = record { apply = λ t. (refl, refl, refl) }

module _ (bn : BigNumber) {World : Type 0} (services : Services bn.Num World) where
  abbrev Doing : Type 0
  Doing = Action (Trial bn.Num World) (Unit {0})

  run_prepared-Keeps :
      (gas_price : bn.Num) (f : App bn.Num World → Result (ContractMethodWrite bn.Num World))
      → Keeps (run_prepared bn false gas_price f)
  unfolding run_prepared run_write estimate_wrap
  run_prepared-Keeps gas_price f = record { apply = λ t. go t (f (t.1)) }
    where
      go :
          (t : Trial bn.Num World) (r : Result (ContractMethodWrite bn.Num World))
          → let end : Result (Unit {0}) × Trial bn.Num World = elim r [
            | ok w ↦ run_write bn false gas_price w t
            | err e ↦ (err e, t)
          ] in
            (end.1.1 ≡ t.1) × (end.1.0.fee_fact ≡ t.0.fee_fact) × (end.1.0.txs ≡ t.0.txs)
      go t (ok w) = (refl, refl, refl)
      go t (err e) = (refl, refl, refl)

  repay-Keeps :
      (gas_price : bn.Num) (network : Network) (target : LiquidateData bn.Num)
      (call : LiquidationCall bn.Num) (token : GeneralReserveToken bn.Num)
      → Keeps (repay bn services false gas_price network target call token)
  unfolding repay
  repay-Keeps gas_price network target call token =
      let swap : Doing =
        run_prepared bn false gas_price
          (services.swap_from_reserve_token target.debt_asset target.debt_to_cover network) in
      let direct : Doing =
        run_prepared bn false gas_price (services.liquidate call gas_price network) in
      let flash : Doing =
        run_prepared bn false gas_price (services.flashloan_liquidate call gas_price network) in
      elim (Bool-cases (bn.lte target.max_revenue_eth token.balance_eth)) [
        | inl t ↦ rw t (
            bind-Keeps (when (not (str_eq target.debt_asset token.token_address)) swap)
              (λ _. direct)
              (when-Keeps (not (str_eq target.debt_asset token.token_address)) swap
                (run_prepared-Keeps gas_price _))
              (λ _. run_prepared-Keeps gas_price _))
        | inr f ↦ rw f (record {
          apply = λ t.
              (run_prepared-Keeps gas_price
                  (services.flashloan_liquidate call gas_price network)).apply
                (record (t.0) { is_flashloan = true }, t.1);
        })
      ]

  swap_back-Keeps :
      (gas_price : bn.Num) (network : Network) (target : LiquidateData bn.Num)
      (token : GeneralReserveToken bn.Num)
      → Keeps (swap_back bn services false gas_price network target token)
  unfolding swap_back amount_back
  swap_back-Keeps gas_price network target token =
      when-Keeps (not (str_eq target.collateral_asset token.token_address)) _
        (record { apply = λ t. (run_prepared-Keeps gas_price _).apply t })

  module _ (update : String → Network → Action (App bn.Num World) (Unit {0}))
      (user_address : String) (network : Network) where
    settle-Keeps :
        (gas_price : bn.Num) (target : LiquidateData bn.Num) (token : GeneralReserveToken bn.Num)
        → Keeps (settle bn services update user_address false network gas_price target token)
    unfolding settle
    settle-Keeps gas_price target token =
        bind-Keeps (repay bn services false gas_price network target _ token)
          (λ _. swap_back bn services false gas_price network target token >> pure tt)
          (repay-Keeps gas_price network target _ token)
          (λ _.
            bind-Keeps (swap_back bn services false gas_price network target token) (λ _. pure tt)
              (swap_back-Keeps gas_price network target token)
              (λ _. record { apply = λ t. (refl, refl, refl) }))

    attempt-Keeps :
        (gas_price : bn.Num) (target : LiquidateData bn.Num)
        → Keeps (attempt bn services update user_address false network gas_price target)
    unfolding attempt
    attempt-Keeps gas_price target =
        bind-Keeps (reading (services.get_general_reserve_token network))
          (settle bn services update user_address false network gas_price target)
          (record { apply = λ t. (refl, refl, refl) }) (settle-Keeps gas_price target)

    -- The report of an estimate: no fee was paid and nothing was sent.
    abbrev pub IsUnsent : Result (Option (TryLiquidate bn.Num)) → Type 0
    IsUnsent (ok (some r)) = (r.fee_fact ≡ bn.num 0 0) × (r.txs ≡ [])
    IsUnsent (ok none) = Unit
    IsUnsent (err e) = Unit

    -- A call that began in the state s is a dry run.
    abbrev pub IsDry :
        App bn.Num World → Result (Option (TryLiquidate bn.Num)) × App bn.Num World → Type 0
    IsDry s end = (end.1 ≡ s) × IsUnsent end.0

    conclude-IsDry :
        (gas_price : bn.Num) (target : Option (LiquidateData bn.Num)) (s : App bn.Num World)
        → IsDry s (conclude bn services update user_address false network gas_price target s)
    unfolding conclude run_attempt start report
    conclude-IsDry gas_price none s = (refl, tt)
    conclude-IsDry gas_price (some target) s =
        let k = (attempt-Keeps gas_price target).apply (start bn services, s) in (k.0, (k.1, k.2))

    from_reserves-IsDry :
        (gas_price : bn.Num) (reserves : UserReserve bn.Num) (s : App bn.Num World)
        → IsDry s (from_reserves bn services update user_address false network gas_price reserves s)
    unfolding from_reserves
    from_reserves-IsDry gas_price reserves s =
        read_elim (IsDry s) (estimate_of bn services reserves)
          (conclude bn services update user_address false network gas_price) s
          (λ target _. conclude-IsDry gas_price target s) (λ e _. (refl, tt))

    from_gas_price-IsDry :
        (gas_price : bn.Num) (s : App bn.Num World)
        → IsDry s (from_gas_price bn services update user_address false network gas_price s)
    unfolding from_gas_price
    from_gas_price-IsDry gas_price s =
        read_elim (IsDry s) (services.get_user_reserves user_address network)
          (from_reserves bn services update user_address false network gas_price) s
          (λ reserves _. from_reserves-IsDry gas_price reserves s) (λ e _. (refl, tt))

    -- `tryLiquidate` with `send = false` leaves the whole state as it was, tables, jobs and chain,
    -- however it ends; a report that it returns names no transaction and no fee paid.
    pub try_liquidate_with-IsDry :
        (gas_price : Option bn.Num) (s : App bn.Num World)
        → IsDry s (try_liquidate_with bn services update user_address false network gas_price s)
    unfolding try_liquidate_with given_or_read
    try_liquidate_with-IsDry (some price) s = from_gas_price-IsDry price s
    try_liquidate_with-IsDry none s =
        read_elim (IsDry s) (services.get_gas_price network)
          (from_gas_price bn services update user_address false network) s
          (λ price _. from_gas_price-IsDry price s) (λ e _. (refl, tt))
