-- ===== src/Service/Startup/Streams.antt =====
-- The two directions in which epochs are carried.
use Prim.Native.String.{String}
use bas_relay_hub.Prelude.{ℕ, ◌≡◌, refl, true, false}
use bas_relay_hub.Prelude.Words.{pos, int64}
use bas_relay_hub.Errors.{Result, ok}
use bas_relay_hub.Eth.{Address, Client}
use bas_relay_hub.Hub.{RelayHub}
use bas_relay_hub.Config.{Config}
use bas_relay_hub.Node.Checks.{node_of, node_checks}
use bas_relay_hub.Service.Startup.{background_worker, start}

module _ (hex_to_address : String → Address) (new_relay_hub : Address → Client → RelayHub)
    (dial : String → Result Client) (config : Config) (root_rpc child_rpc : Client) (m n : ℕ)
    (root_dialled : dial config.root.rpc_url ≡ ok root_rpc)
    (child_dialled : dial config.child.rpc_url ≡ ok child_rpc)
    (root_answered : root_rpc.chain_id ≡ ok m) (child_answered : child_rpc.chain_id ≡ ok n)
    (root_id : int64 config.root.chain_id ≡ pos m)
    (child_id : int64 config.child.chain_id ≡ pos n) where
  -- Where both nodes are dialled and answer with the chain ids of the settings, the service starts two
  -- workers: from the root chain to the child chain and back, over the same two nodes.
  pub start-both :
      let root = node_of hex_to_address new_relay_hub root_rpc child_rpc config true m in
      let child = node_of hex_to_address new_relay_hub root_rpc child_rpc config false n in
      start hex_to_address new_relay_hub dial config ≡ ok ((root, child), (child, root))
  unfolding start background_worker
  start-both =
      rw
        (
          root_dialled,
          child_dialled,
          ((node_checks hex_to_address new_relay_hub root_rpc child_rpc config true).0 m
                root_answered).0
              root_id,
          ((node_checks hex_to_address new_relay_hub root_rpc child_rpc config false).0 n
                child_answered).0
              child_id,
        )
        refl
