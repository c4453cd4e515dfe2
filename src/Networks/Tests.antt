-- ===== src/Networks/Tests.antt =====
-- Five networks, where the environment has two providers, and one node is down.
use liquidator.Base.{
  ℕ, String, ◌≤◌, ◌≡◌, refl, inl, Bool, true, false, Option, none, some, [], ◌∷◌, count, All,
  str_eq, if◌then◌else◌,
}
use liquidator.Base.Results.{ok, err, external}
use liquidator.BigNumber.Exact.{exact, Decimal}
use liquidator.Config.{Network, eth, bsc, avax, kovan, gnosis}
use liquidator.Orm.Memory.{memory}
use liquidator.Services.Sample.{app, amount}
use liquidator.Networks.{Seed, NetworkReads, env_text, seed_of, seeds, init_networks}
use liquidator.Networks.Rows.{of_network}
use liquidator.Networks.Init.{HasClient, init_networks_active}
use liquidator.Networks.Unread.{IsUnread, unread_kept}

abbrev env : Network → Option String
env eth = some "http://node"
env bsc = some "http://down"
env avax = none
env kovan = none
env gnosis = none

-- Only the one node answers; a missing provider has no client.
abbrev answers : Bool → Option Decimal
answers true = some (amount 4)
answers false = none

abbrev pub network_reads : NetworkReads Decimal ℕ
network_reads = record {
  new_web3 = λ provider. if str_eq provider "undefined" then err external else ok tt;
  get_balance = λ provider s. answers (str_eq provider "http://node");
}

abbrev eth_seed : Seed Decimal
eth_seed = record { id = eth; provider = "http://node"; balance = amount 0 }

eth-HasClient : HasClient network_reads eth_seed
eth-HasClient = record { provided = refl; client = refl }

init_networks_active_example :
    1
    ≤ count
        (of_network eth (λ r. r.is_active))
        (init_networks memory network_reads (eth_seed ∷ []) app).networks
init_networks_active_example =
    init_networks_active memory network_reads eth_seed (eth_seed ∷ []) app eth-HasClient
      (λ t. (amount 4, refl)) (inl refl)

bsc-IsUnread : All (IsUnread network_reads bsc) (seeds exact env)
unfolding seeds seed_of env_text
bsc-IsUnread = (
  record {
    has_client = λ e. absurd (let c : ⊥ = cc in c);
    unread = λ e t. absurd (let c : ⊥ = cc in c);
  },
  (
    record {
      has_client = λ e. absurd (let c : ⊥ = cc in c);
      unread = λ e t. absurd (let c : ⊥ = cc in c);
    },
    (
      record { has_client = λ e. record { provided = refl; client = refl }; unread = λ e t. refl },
      (
        record {
          has_client = λ e. absurd (let c : ⊥ = cc in c);
          unread = λ e t. absurd (let c : ⊥ = cc in c);
        },
        (
          record {
            has_client = λ e. absurd (let c : ⊥ = cc in c);
            unread = λ e t. absurd (let c : ⊥ = cc in c);
          },
          tt,
        ),
      ),
    ),
  ),
)

-- The network whose node is down stays active.
unread_kept_example :
    count
      (of_network bsc (λ r. r.is_active))
      (init_networks memory network_reads (seeds exact env) app).networks
    ≡ count (of_network bsc (λ r. r.is_active)) app.networks
unread_kept_example =
    unread_kept memory network_reads bsc (λ r. r.is_active) (seeds exact env) app bsc-IsUnread

still_active : count (of_network bsc (λ r. r.is_active)) app.networks ≡ 1
still_active = refl
