-- ===== src/Contracts/Funds.antt =====
-- What a swap may take from the general reserve.
use liquidator.Base.{String, ◌+◌, ◌≡◌, refl, Bool, true, false}
use liquidator.Base.Results.{Result, ok, err, insufficient_funds, throw_if, ◌>>=◌, ◌>>◌}
use liquidator.BigNumber.{BigNumber}
use liquidator.Config.{Network}
use liquidator.Orm.{Orm}
use liquidator.State.{App, Token}
use liquidator.Services.{ContractMethodWrite}
use liquidator.Contracts.{Node, swap_for_exact_call, swap_time, swap_by, swap_forward}

module _ (bn : BigNumber) (orm : Orm) {World : Type 0} (node : Node bn.Num World)
    (account : String) where
  -- Where a swap from the general reserve is prepared, the router's price for what it buys is at most
  -- what the reserve's row says is there; where it is more, the preparation throws instead.
  pub swap_forward_affordable :
      (token reserve : Token bn.Num) (amount gas_price : bn.Num) (network : Network)
      (s : App bn.Num World) (write : ContractMethodWrite bn.Num World)
      → swap_forward bn orm node account token reserve amount gas_price network s ≡ ok write
      → (price : bn.Num) × (node.get_amount_in amount reserve.token_address token.token_address
            network s
          ≡ ok price)
        × (bn.lt reserve.balance price ≡ false)
  unfolding swap_forward
  swap_forward_affordable token reserve amount gas_price network s write e =
      by_price (node.get_amount_in amount reserve.token_address token.token_address network s) refl
        e
    where
      swap : bn.Num → Result (ContractMethodWrite bn.Num World)
      swap price =
          swap_by bn orm node account reserve.token_address price
            (swap_for_exact_call amount price reserve.token_address token.token_address
              (s.now + swap_time))
            gas_price reserve token network s

      by_funds :
          (price : bn.Num) (b : Bool)
          → (let end : Result (ContractMethodWrite bn.Num World) =
                throw_if b insufficient_funds >> swap price in
              end)
            ≡ ok write
          → b ≡ false
      by_funds price true e = absurd (let c : ⊥ = cc in c)
      by_funds price false e = refl

      by_price :
          (r : Result bn.Num)
          → node.get_amount_in amount reserve.token_address token.token_address network s ≡ r
          → (r >>= λ price. throw_if (bn.lt reserve.balance price) insufficient_funds >> swap price)
            ≡ ok write
          → (price : bn.Num) × (node.get_amount_in amount reserve.token_address token.token_address
                network s
              ≡ ok price)
            × (bn.lt reserve.balance price ≡ false)
      by_price (err x) q e = absurd (let c : ⊥ = cc in c)
      by_price (ok price) q e = (price, q, by_funds price (bn.lt reserve.balance price) e)
