-- ===== src/Node/Checks.antt =====
-- The checks of `toNodeConfig`.
use Prim.Native.String.{String}
use bas_relay_hub.Prelude.{ℕ, ◌≡◌, ◌≢◌, refl, ap, Bool, true, false, if◌then◌else◌, not-==, ==_iff}
use bas_relay_hub.Prelude.Words.{ℤ, pos, negsuc, int64}
use bas_relay_hub.Errors.{Error, ok, err, panic, fatal}
use bas_relay_hub.Eth.{Address, Client}
use bas_relay_hub.Hub.{RelayHub}
use bas_relay_hub.Config.{ChainConfig, Config}
use bas_relay_hub.Node.{NodeConfig, big_eq, or_fatal, to_node_config}

big_eq-same : (z : ℤ) (n : ℕ) → z ≡ pos n → big_eq z n ≡ true
unfolding big_eq
big_eq-same z n e = rw e ((==_iff n n).1 refl)

big_eq-other : (z : ℤ) (n : ℕ) → z ≢ pos n → big_eq z n ≡ false
unfolding big_eq
big_eq-other (pos m) n other = not-== m n (λ e. other (ap pos e))
big_eq-other (negsuc m) n other = refl

-- the settings of the chain
abbrev pub chain_of : Config → Bool → ChainConfig
chain_of config is_root = if is_root then config.root else config.child

module _ (hex_to_address : String → Address) (new_relay_hub : Address → Client → RelayHub)
    (root_rpc child_rpc : Client) where
  abbrev pub rpc_of : Bool → Client
  rpc_of is_root = if is_root then root_rpc else child_rpc

  abbrev pub node_of : Config → Bool → ℕ → NodeConfig
  node_of config is_root chain_id = record {
    client = rpc_of is_root;
    relay_hub =
        new_relay_hub (hex_to_address (chain_of config is_root).relay_hub_address) (rpc_of is_root);
    config = config;
    chain_config = chain_of config is_root;
    chain_id = chain_id;
  }

  -- A node is set up exactly where it answers with the chain id of the settings, read as an `int64`; it
  -- is then the node of that chain with the settings of that chain. On another chain id, or on an error
  -- of the node, the process ends.
  pub node_checks :
      (config : Config) (is_root : Bool)
      → let setup = to_node_config hex_to_address new_relay_hub root_rpc child_rpc config is_root in
        ((n : ℕ)
          → (rpc_of is_root).chain_id ≡ ok n
          → (int64 (chain_of config is_root).chain_id ≡ pos n
              → setup ≡ ok (node_of config is_root n))
            × (int64 (chain_of config is_root).chain_id ≢ pos n → setup ≡ panic fatal))
        × ((e : Error) → (rpc_of is_root).chain_id ≡ err e → setup ≡ panic fatal)
  unfolding to_node_config or_fatal
  node_checks config is_root = (
    λ n answered. (
      λ same. rw (answered, big_eq-same (int64 (chain_of config is_root).chain_id) n same) refl,
      λ other. rw (answered, big_eq-other (int64 (chain_of config is_root).chain_id) n other) refl,
    ),
    λ e failed. rw failed refl,
  )
