-- ===== src/Config.antt =====
-- src/config/index.ts: the constants of the program, and the networks of src/database/Network.ts
-- that index them. What the environment sets is left to the callers.
use liquidator.Base.{ℕ, String, Bool, ◌==◌}
use liquidator.Base.Int.{ℤ, pos}

-- `enum networks`
pub data Network : Type 0 where
  eth bsc avax kovan gnosis : Network

abbrev pub network_code : Network → ℕ
network_code eth = 0
network_code bsc = 1
network_code avax = 2
network_code kovan = 3
network_code gnosis = 4

-- `===` on networks.
abbrev pub network_eq : Network → Network → Bool
network_eq a b = network_code a == network_code b

-- The blocks from where the protocol was deployed.
abbrev pub deploy_blocks : Network → ℕ
deploy_blocks eth = 13339692
deploy_blocks bsc = 13528255
deploy_blocks avax = 9768127
deploy_blocks kovan = 28091471
deploy_blocks gnosis = 21514084

abbrev pub uniswap_addresses : Network → String
uniswap_addresses eth = "0x7a250d5630B4cF539739dF2C5dAcb4c659F2488D"
uniswap_addresses bsc = "0x10ED43C718714eb63d5aA57B78B54704E256024E"
uniswap_addresses avax = "0x60aE616a2155Ee3d9A68541Ba4544862310933d4"
uniswap_addresses kovan = "0x7a250d5630B4cF539739dF2C5dAcb4c659F2488D"
uniswap_addresses gnosis = ""

abbrev pub general_reserve : Network → String
general_reserve eth = "0xc02aaa39b223fe8d0a0e5c4f27ead9083c756cc2"
general_reserve bsc = "0xe9e7CEA3DedcA5984780Bafc599bD69ADd087D56"
general_reserve avax = "0xB31f66AA3C1e785363F0875A1B74E27b85FD66c7"
general_reserve kovan = "0xFf795577d9AC8bD7D90Ee22b6C1703490b6512FD"
general_reserve gnosis = "0xe91D153E0b41518A2Ce8Dd3D7944Fa863463a97d"

abbrev pub flashloan_liquidation_adapter : Network → String
flashloan_liquidation_adapter eth = "0x9F4D9A95383D9399dE6EF641009FEFa4b4524D3b"
flashloan_liquidation_adapter bsc = "0x86e8989d9e144d670BF24782800774832D1599f1"
flashloan_liquidation_adapter avax = ""
flashloan_liquidation_adapter kovan = "0xf27210a5f8a9f4184195f9e12df5dd452a1b8cd0"
flashloan_liquidation_adapter gnosis = ""

-- A health factor is kept with two decimal places: here as a number of hundredths.
abbrev pub zone_red : ℤ
zone_red = pos 110

abbrev pub zone_orange : ℤ
zone_orange = pos 150
