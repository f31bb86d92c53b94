-- ===== src/Server/Start.antt =====
-- `GrpcServer.Start` and `Stop` of relayer/server.go: the listener, and for each other relayer a client and a
-- goroutine that reads its streams, one after the other. The transport is gRPC, a parameter; the serving
-- goroutine is `serve`, and what is logged is left out. An error of `Serve` ends the process at once.
pub mod Sessions
use Prim.Native.String.{String}
use bas_relay_hub.Prelude.{Option, none, some, List, [], ◌∷◌, ◌++◌}
use bas_relay_hub.Errors.{Result, ok, err, panic, nil_dereference, wrapped, listen_address, ◌>>=◌}
use bas_relay_hub.Eth.{Eth}
use bas_relay_hub.Config.{Config}
use bas_relay_hub.Checkpoint.{CheckpointProof}
use bas_relay_hub.Server.{SignCheckpointProofReply, listen_for_incoming_messages}

-- What `client.SignCheckpointProof` returns: a stream, as the answers of its `Recv`, or an error.
abbrev pub Opened : Type 0
Opened = Result (List (Result SignCheckpointProofReply))

-- `net.Listen`, `grpc.Dial`, `Close` of a listener, and what a client gets from each of its attempts so far to open a
-- stream; a client is its connection, which is `none` where the code has a nil
pub record Transport (Listener Conn : Type 0) : Type 0 where
  pub listen : String → Result Listener
  pub dial : String → Result Conn
  pub close : Listener → Result (Unit {0})
  pub attempts : Option Conn → List Opened

-- the server that was started: its listener, and the readers, each with its URL and its client
pub record GrpcServer (Listener Conn : Type 0) : Type 0 where
  pub listener : Listener
  pub readers : List (String × Option Conn)

module _ {Listener Conn : Type 0} (transport : Transport Listener Conn) where
  -- an error of `grpc.Dial` is logged, and the connection is nil then
  abbrev pub or_nil : Result Conn → Result (Option Conn)
  or_nil (ok conn) = ok (some conn)
  or_nil (err e) = ok none
  or_nil (panic p) = panic p

  -- the loop over `config.Relayer.RelayerUrls`
  unfoldable pub dial_relayers : List String → Result (List (String × Option Conn))
  dial_relayers [] = ok []
  dial_relayers (url ∷ urls) = do
    client ← or_nil (transport.dial url)
    later ← dial_relayers urls
    ok ((url, client) ∷ later)

  unfoldable pub start_server : Config → Result (GrpcServer Listener Conn)
  start_server config = do
    listener ←
        wrapped (listen_address config.relayer.grpc_address)
          (transport.listen config.relayer.grpc_address)
    readers ← dial_relayers config.relayer.relayer_urls
    ok (record { listener = listener; readers = readers })

  -- `NewGrpcServer`, which has no server and no listener yet
  abbrev pub new_grpc_server : Option (GrpcServer Listener Conn)
  new_grpc_server = none

  -- `Stop`: the error of `Close` is dropped; before `Start` the server is nil
  unfoldable pub stop_server : Option (GrpcServer Listener Conn) → Result (Unit {0})
  stop_server none = panic nil_dereference
  stop_server (some server) = elim (transport.close server.listener) [
    | ok _ ↦ ok tt
    | err e ↦ ok tt
    | panic p ↦ panic p
  ]

-- one round of a reader: after an error, which is logged, it tries again; without one it is still
-- listening
abbrev pub after_attempt :
    List CheckpointProof × Result (Unit {0})
    → List CheckpointProof × Result (Unit {0})
    → List CheckpointProof × Result (Unit {0})
after_attempt (proofs, ok _) _ = (proofs, ok tt)
after_attempt (proofs, err e) (later, ended) = (proofs ++ later, ended)
after_attempt (proofs, panic p) _ = (proofs, panic p)

module _ (eth : Eth) where
  -- The goroutine of one relayer, over its attempts so far: the proofs that it emits, and whether the
  -- process has ended.
  unfoldable pub reader_loop : List Opened → List CheckpointProof × Result (Unit {0})
  reader_loop [] = ([], ok tt)
  reader_loop (opened ∷ attempts) =
      after_attempt (listen_for_incoming_messages eth opened) (reader_loop attempts)
