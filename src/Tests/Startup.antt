-- ===== src/Tests/Startup.antt =====
-- Nodes, streams and the settings file in the small world.
use Prim.Native.String.{String}
use bas_relay_hub.Prelude.{ℕ, ◌≡◌, ◌≢◌, refl, true, false, [], ◌∷◌, ◌++◌, some, Bytes}
use bas_relay_hub.Prelude.Words.{pos, int64}
use bas_relay_hub.Errors.{
  Error, Result, ok, err, panic, fatal, raised, slice_bounds, nil_dereference, external,
}
use bas_relay_hub.Eth.{Address, Client}
use bas_relay_hub.Hub.{RelayHub}
use bas_relay_hub.Config.{Config}
use bas_relay_hub.Node.{or_fatal, to_node_config}
use bas_relay_hub.Node.Checks.{node_of, node_checks}
use bas_relay_hub.Service.Startup.{start}
use bas_relay_hub.Service.Startup.Streams.{start-both}
use bas_relay_hub.Settings.{ViperOps, config_path_of, read_from_file}
use bas_relay_hub.Settings.Files.{IsPlain, file_branches}
use bas_relay_hub.Config.{ChainConfig, Viper, config_from_viper}
use bas_relay_hub.Config.Written.{viper_of, written, config-written}
use bas_relay_hub.Server.Start.{stop_server, Transport}
use bas_relay_hub.Tests.World.{client, hub, settings}

abbrev hex_to_address : String → Address
hex_to_address s = []

abbrev bind_hub : Address → Client → RelayHub
bind_hub a c = hub

abbrev small : Config
small = settings [] 0

node_checked :
    let setup = to_node_config hex_to_address bind_hub client client small true in
    ((n : ℕ)
      → ok 56 ≡ ok n
      → (int64 56 ≡ pos n → setup ≡ ok (node_of hex_to_address bind_hub client client small true n))
        × (int64 56 ≢ pos n → setup ≡ panic fatal))
    × ((e : Error) → ◌≡◌ {A = Result ℕ} (ok 56) (err e) → setup ≡ panic fatal)
node_checked = node_checks hex_to_address bind_hub client client small true

both_started :
    let root = node_of hex_to_address bind_hub client client small true 56 in
    let child = node_of hex_to_address bind_hub client client small false 56 in
    start hex_to_address bind_hub (λ url. ok client) small ≡ ok ((root, child), (child, root))
both_started =
    start-both hex_to_address bind_hub (λ url. ok client) small client client 56 56 refl refl refl
      refl refl refl

-- settings are the path and the type that were read last; the file is `./a.toml`
abbrev toml : Bytes
toml = b't' ∷ b'o' ∷ b'm' ∷ b'l' ∷ []

abbrev file : Bytes
file = b'.' ∷ b'/' ∷ b'a' ∷ b'.' ∷ toml

abbrev paths : ViperOps (Bytes × Bytes)
paths = record {
  new = ([], []);
  automatic_env = λ v. v;
  set_env_key_replacer = λ v. v;
  get_string = λ key v. file;
  set_config_type = λ t v. (v.0, t);
  set_config_file = λ p v. (p, v.1);
  read_in_config = ok;
  stat = λ p. ok tt;
}

file_branches_example :
    ((e : Error)
      → ◌≡◌ {A = Result (Unit {0})} (ok tt) (err e)
      → read_from_file paths ([], []) ≡ ok ([], []))
    × (◌≡◌ {A = Result (Unit {0})} (ok tt) (ok tt)
        → ((front suffix : Bytes)
            → IsPlain suffix
            → file ≡ front ++ b'.' ∷ suffix
            → read_from_file paths ([], []) ≡ or_fatal (ok (file, suffix)))
          × (IsPlain file → read_from_file paths ([], []) ≡ panic slice_bounds))
unfolding config_path_of
file_branches_example = file_branches paths ([], [])

-- a chain that is named in no setting but has the id 56, and one other relayer
abbrev few_settings : Bytes × Bytes → Viper
few_settings v = record {
  get_string = λ key. "";
  get_uint64 = λ key. 56;
  get_string_slice = λ key. "peer" ∷ [];
  hex_to_ecdsa = λ s. ok [];
}

abbrev peered : Config
peered = settings ("peer" ∷ "other" ∷ []) 0

-- `grpc.Dial` refuses every address, and what is called on a nil connection panics
abbrev refusing : Transport (Unit {0}) (Unit {0})
refusing = record {
  listen = λ address. ok tt;
  dial = λ url. err (external 7);
  close = λ listener. err (external 8);
  attempts = λ client. panic nil_dereference ∷ [];
}

abbrev few_chain : ChainConfig
few_chain = record {
  chain_name = "";
  rpc_url = "";
  relay_hub_address = "";
  chain_id = 56;
  confirmations = 56;
  gas_limit = 56;
  epoch_length = 56;
}

abbrev few_config : Config
few_config = record {
  root = few_chain;
  child = few_chain;
  relayer = record { private_key = []; grpc_address = ""; relayer_urls = "peer" ∷ [] };
}

abbrev chapel : ChainConfig
chapel = record {
  chain_name = "chapel";
  rpc_url = "https://data-seed-prebsc-1-s1.binance.org:8545/";
  relay_hub_address = "0x6239581190D92C570F0a0EfC21dbEF23Dec835c0";
  chain_id = 97;
  confirmations = 15;
  gas_limit = 10000000;
  epoch_length = 200;
}

abbrev peered_config : Config
peered_config = record {
  root = chapel;
  child = record chapel { chain_name = "bas-dev-01"; chain_id = 14000; epoch_length = 1200 };
  relayer = record {
    private_key = 7 ∷ [];
    grpc_address = "0.0.0.0:6565";
    relayer_urls = "peer" ∷ [];
  };
}

-- settings like those of the repository's file
config-written_example :
    (◌≡◌ {A = Result Bytes} (ok (7 ∷ [])) (ok (7 ∷ []))
      → config_from_viper (viper_of (λ s. ok (7 ∷ [])) (written "40b9" peered_config))
        ≡ ok peered_config)
    × ((e : Error)
        → ◌≡◌ {A = Result Bytes} (ok (7 ∷ [])) (err e)
        → config_from_viper (viper_of (λ s. ok (7 ∷ [])) (written "40b9" peered_config))
          ≡ panic raised)
config-written_example = config-written (λ s. ok (7 ∷ [])) "40b9" peered_config

stopped : stop_server refusing (some (record { listener = tt; readers = [] })) ≡ ok tt
unfolding stop_server
stopped = refl
