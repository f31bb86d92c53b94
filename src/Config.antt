-- ===== src/Config.antt =====
-- relayer/config.go: the configuration, read from a key-value store of settings (the `viper`
-- library, not part of the repository).
pub mod Written
use Prim.Native.String.{String}
use bas_relay_hub.Prelude.{ℕ, List}
use bas_relay_hub.Errors.{Result, ok, err, panic, raised, ◌>>=◌}
use bas_relay_hub.Eth.{PrivateKey}

pub record ChainConfig : Type 0 where
  pub chain_name : String
  pub rpc_url : String
  pub relay_hub_address : String
  pub chain_id : ℕ
  pub confirmations : ℕ
  pub gas_limit : ℕ
  pub epoch_length : ℕ

pub record RelayerConfig : Type 0 where
  pub private_key : PrivateKey
  pub grpc_address : String
  pub relayer_urls : List String

pub record Config : Type 0 where
  pub root : ChainConfig
  pub child : ChainConfig
  pub relayer : RelayerConfig

-- `viper.Viper`, and `crypto.HexToECDSA`
pub record Viper : Type 0 where
  pub get_string : String → String
  pub get_uint64 : String → ℕ
  pub get_string_slice : String → List String
  pub hex_to_ecdsa : String → Result PrivateKey

-- relayer/common.go: `must`
unfoldable pub must {ℓ} : {A : Type ℓ} → Result A → Result A
must (ok a) = ok a
must (err e) = panic raised
must (panic p) = panic p

unfoldable pub config_from_viper : Viper → Result Config
unfolding must
config_from_viper viper = do
  private_key ← must (viper.hex_to_ecdsa (viper.get_string "relayer.private-key"))
  ok (record {
    root = record {
      chain_name = viper.get_string "root.chain-name";
      rpc_url = viper.get_string "root.rpc-url";
      relay_hub_address = viper.get_string "root.relay-hub-address";
      chain_id = viper.get_uint64 "root.chain-id";
      confirmations = viper.get_uint64 "root.confirmations";
      gas_limit = viper.get_uint64 "root.gas-limit";
      epoch_length = viper.get_uint64 "root.epoch-blocks";
    };
    child = record {
      chain_name = viper.get_string "child.chain-name";
      rpc_url = viper.get_string "child.rpc-url";
      relay_hub_address = viper.get_string "child.relay-hub-address";
      chain_id = viper.get_uint64 "child.chain-id";
      confirmations = viper.get_uint64 "child.confirmations";
      gas_limit = viper.get_uint64 "child.gas-limit";
      epoch_length = viper.get_uint64 "child.epoch-blocks";
    };
    relayer = record {
      private_key = private_key;
      grpc_address = viper.get_string "relayer.grpc-address";
      relayer_urls = viper.get_string_slice "relayer.relayer-urls";
    };
  })
