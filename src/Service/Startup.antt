-- ===== src/Service/Startup.antt =====
-- `Start` and `backgroundWorker` of relayer/service.go: the clients are dialled, and two workers start,
-- one for each direction. What is started is returned; the goroutines themselves are the workers of
-- Service/Worker and the collector of Service/State. The code runs `backgroundWorker` in a goroutine of its
-- own, after `Start` has returned, and starts the first worker before it makes the second pair of nodes:
-- here all four are made first, and a panic among them is the result of `start`.
pub mod Streams
use Prim.Native.String.{String}
use bas_relay_hub.Prelude.{true, false}
use bas_relay_hub.Errors.{Result, ok, err, panic, fatal, ◌>>=◌}
use bas_relay_hub.Eth.{Address, Client}
use bas_relay_hub.Hub.{RelayHub}
use bas_relay_hub.Config.{Config}
use bas_relay_hub.Node.{NodeConfig, to_node_config}

-- the source and the target of a worker
abbrev pub Stream : Type 0
Stream = NodeConfig × NodeConfig

module _ (hex_to_address : String → Address) (new_relay_hub : Address → Client → RelayHub) where
  -- the arguments of the two `go` statements, evaluated in their order
  unfoldable pub background_worker : Client → Client → Config → Result (Stream × Stream)
  background_worker root_rpc child_rpc config = do
    source ← to_node_config hex_to_address new_relay_hub root_rpc child_rpc config true
    target ← to_node_config hex_to_address new_relay_hub root_rpc child_rpc config false
    source' ← to_node_config hex_to_address new_relay_hub root_rpc child_rpc config false
    target' ← to_node_config hex_to_address new_relay_hub root_rpc child_rpc config true
    ok ((source, target), (source', target'))

  -- `dial` is `ethclient.Dial`; what the background worker starts comes with the clients
  unfoldable pub start : (String → Result Client) → Config → Result (Stream × Stream)
  start dial config = do
    root_rpc ← dial config.root.rpc_url
    child_rpc ← dial config.child.rpc_url
    background_worker root_rpc child_rpc config

-- `Stop`
unfoldable pub stop : Result (Unit {0})
stop = ok tt
