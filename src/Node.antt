-- ===== src/Node.antt =====
-- `nodeConfig` and `toNodeConfig` of relayer/service.go: one of the two chains as the workers see it.
pub mod Checks
use Prim.Native.String.{String}
use bas_relay_hub.Prelude.{ℕ, Bool, false, ◌==◌, if◌then◌else◌}
use bas_relay_hub.Prelude.Words.{ℤ, pos, negsuc, int64}
use bas_relay_hub.Errors.{Result, ok, err, panic, fatal, ◌>>=◌}
use bas_relay_hub.Eth.{Address, Client}
use bas_relay_hub.Hub.{RelayHub}
use bas_relay_hub.Config.{ChainConfig, Config}

pub record NodeConfig : Type 0 where
  pub client : Client
  pub relay_hub : RelayHub
  pub config : Config
  pub chain_config : ChainConfig
  pub chain_id : ℕ

-- `big.NewInt(z).Cmp(n) == 0`, where the node's chain id `n` is not negative
unfoldable pub big_eq : ℤ → ℕ → Bool
big_eq (pos m) n = m == n
big_eq (negsuc m) n = false

-- `log.Fatalf` on an error
unfoldable pub or_fatal {ℓ} : {A : Type ℓ} → Result A → Result A
or_fatal (ok a) = ok a
or_fatal (err e) = panic fatal
or_fatal (panic p) = panic p

-- `hex_to_address` is `common.HexToAddress` of go-ethereum, `new_relay_hub` the constructor of the
-- generated binding (its error is dropped by the code), `root_rpc` and `child_rpc` are the
-- service's two clients.
module _ (hex_to_address : String → Address) (new_relay_hub : Address → Client → RelayHub)
    (root_rpc child_rpc : Client) where
  unfoldable pub to_node_config : Config → Bool → Result NodeConfig
  to_node_config config is_root = do
    let client = if is_root then root_rpc else child_rpc
    let chain_config = if is_root then config.root else config.child
    chain_id ← or_fatal client.chain_id
    if big_eq (int64 chain_config.chain_id) chain_id
        then ok (record {
          client = client;
          relay_hub = new_relay_hub (hex_to_address chain_config.relay_hub_address) client;
          config = config;
          chain_config = chain_config;
          chain_id = chain_id;
        })
        else panic fatal
