-- ===== src/Main.antt =====
-- relayer/main.go: `main` reads the settings, and starts the relay service and the server; an error of
-- either ends the process. What is running then is the result; the endless loop that follows sleeps.
pub mod Fatal
pub mod Success
use Prim.Native.String.{String}
use bas_relay_hub.Errors.{Result, ok, ◌>>=◌}
use bas_relay_hub.Eth.{Address, Client}
use bas_relay_hub.Hub.{RelayHub}
use bas_relay_hub.Config.{Config, Viper, config_from_viper}
use bas_relay_hub.Node.{or_fatal}
use bas_relay_hub.Settings.{ViperOps, new_viper}
use bas_relay_hub.Service.Startup.{Stream, start}
use bas_relay_hub.Server.Start.{Transport, GrpcServer, start_server}

-- what `main` has started: the two workers of the relay service, and the server
pub record Relayer (Listener Conn : Type 0) : Type 0 where
  pub config : Config
  pub relay_service : Stream × Stream
  pub grpc_server : GrpcServer Listener Conn

-- `settings_of` are the methods of a `viper.Viper` that read a setting, and `dial` is
-- `ethclient.Dial`
module _ {V Listener Conn : Type 0} (viper : ViperOps V) (settings_of : V → Viper)
    (hex_to_address : String → Address) (new_relay_hub : Address → Client → RelayHub)
    (dial : String → Result Client) (transport : Transport Listener Conn) where
  unfoldable pub main : Result (Relayer Listener Conn)
  main = do
    v ← new_viper viper
    config ← config_from_viper (settings_of v)
    relay_service ← or_fatal (start hex_to_address new_relay_hub dial config)
    grpc_server ← or_fatal (start_server transport config)
    ok (record { config = config; relay_service = relay_service; grpc_server = grpc_server })
