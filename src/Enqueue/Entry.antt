-- ===== src/Enqueue/Entry.antt =====
-- The row that `addOrUpdateLiquidate` writes is not in work.
use liquidator.Base.{ℕ, String, ◌≡◌, refl, inl, inr, subst, false, Option, none, some, Bool-cases}
use liquidator.Base.Results.{Result, ok, err, type_error}
use liquidator.BigNumber.{BigNumber}
use liquidator.Config.{Network}
use liquidator.Orm.{Orm}
use liquidator.State.{App, UserAccount}
use liquidator.Services.{Services}
use liquidator.Liquidator.{TryLiquidate}
use liquidator.Queue.{is_processing, QueueEntry, at}
use liquidator.Enqueue.{estimated_profit, expect_profit_eth, entry_of, make_entry}

module _ (bn : BigNumber) (orm : Orm) {World : Type 0} (services : Services bn.Num World) where
  -- A written position is not in work.
  entry_status :
      (user_id : String) (profit : bn.Num) (now : ℕ)
      → is_processing (entry_of bn orm services user_id profit now).status ≡ false
  unfolding entry_of
  entry_status user_id profit now =
      elim (Bool-cases (bn.lte (expect_profit_eth bn orm services) profit)) [
        | inl t ↦ rw t refl
        | inr f ↦ rw f refl
      ]

  pub make_entry_status :
      (address : String) (network : Network) (estimate : TryLiquidate bn.Num) (s : App bn.Num World)
      (e : QueueEntry bn.Num)
      → make_entry bn orm services address network estimate s ≡ ok e
      → is_processing e.status ≡ false
  unfolding make_entry
  make_entry_status address network estimate s =
      profit_case (estimated_profit bn orm services estimate network s)
    where
      user_case :
          (profit : bn.Num) (o : Option (UserAccount bn.Num)) (e : QueueEntry bn.Num)
          → let entry : Result (QueueEntry bn.Num) = elim o [
            | none ↦ err type_error
            | some user ↦ ok (entry_of bn orm services user.id profit s.now)
          ] in
            entry ≡ ok e → is_processing e.status ≡ false
      user_case profit none e h = absurd (let c : ⊥ = cc in c)
      user_case profit (some user) e h =
          subst (λ (x : QueueEntry bn.Num). is_processing x.status ≡ false)
            (let same : entry_of bn orm services user.id profit s.now ≡ e = cc in same)
            (entry_status user.id profit s.now)

      profit_case :
          (r : Result bn.Num) (e : QueueEntry bn.Num)
          → let entry : Result (QueueEntry bn.Num) = elim r [
            | err e ↦ err e
            | ok profit ↦ elim (orm.find_one (at address network) s.users) [
              | none ↦ err type_error
              | some user ↦ ok (entry_of bn orm services user.id profit s.now)
            ]
          ] in
            entry ≡ ok e → is_processing e.status ≡ false
      profit_case (err x) e h = absurd (let c : ⊥ = cc in c)
      profit_case (ok profit) e h = user_case profit (orm.find_one (at address network) s.users) e h
