-- ===== src/Server.antt =====
-- relayer/server.go: the messages that relayers send each other. What starts the server and the readers
-- is in Server/Start.
pub mod Arrival
pub mod Start
use bas_relay_hub.Prelude.{
  ℕ, Option, none, some, List, [], ◌∷◌, ◌++◌, Bytes, length, ◌==◌, if◌then◌else◌, Bytes-discrete,
}
use bas_relay_hub.Prelude.Maps.{GoMap, insert}
use bas_relay_hub.Errors.{Result, ok, err, panic, context_done, corrupted_data, bad_event, ◌>>=◌}
use bas_relay_hub.Eth.{Address, Eth}
use bas_relay_hub.Checkpoint.{CheckpointProof, entries}

-- `proto.SignCheckpointProofReply`
pub record SignCheckpointProofReply : Type 0 where
  pub epoch_number : ℕ
  pub raw_epoch_block : Bytes
  pub block_hash : Bytes
  pub checkpoint_hash : Bytes
  pub validators : List Bytes
  pub signatures : List Bytes

-- the loop over `message.signatures`
unfoldable pub append_signatures :
    GoMap Address Bytes → SignCheckpointProofReply → SignCheckpointProofReply
append_signatures [] reply = reply
append_signatures ((k, v) ∷ rest) reply = append_signatures rest (record reply {
  validators = reply.validators ++ k ∷ [];
  signatures = reply.signatures ++ v ∷ [];
})

-- the reply that is made of one event
unfoldable pub reply_of : CheckpointProof → SignCheckpointProofReply
reply_of message = append_signatures (entries message.signatures) (record {
  epoch_number = message.epoch_number;
  raw_epoch_block = message.raw_epoch_block;
  block_hash = message.block_hash;
  checkpoint_hash = message.checkpoint_hash;
  validators = [];
  signatures = [];
})

-- one round of `SignCheckpointProof`: what is sent, and whether the loop ends
abbrev pub after_send :
    SignCheckpointProofReply
    → Result (Unit {0})
    → List SignCheckpointProofReply × Result (Unit {0})
    → List SignCheckpointProofReply × Result (Unit {0})
after_send reply (ok _) (later, ended) = (reply ∷ later, ended)
after_send reply (err e) _ = ([], err e)
after_send reply (panic p) _ = ([], panic p)

-- `SignCheckpointProof`: the events until the stream's context is done, each with the outcome of
-- `Send`; an event that holds no proof is `none`. The replies that were sent, and the error at the end.
unfoldable pub serve :
    List (Option CheckpointProof × Result (Unit {0}))
    → List SignCheckpointProofReply × Result (Unit {0})
serve [] = ([], err context_done)
serve ((none, sent) ∷ events) = ([], err bad_event)
serve ((some message, sent) ∷ events) = after_send (reply_of message) sent (serve events)

module _ (eth : Eth) where
  -- the loop over `reply.Validators`, with the signature of the same index
  unfoldable pub read_signatures :
      List Bytes → List Bytes → GoMap Address Bytes → GoMap Address Bytes
  read_signatures (validator ∷ validators) (signature ∷ signatures) m =
      read_signatures validators signatures
        (insert Bytes-discrete (eth.bytes_to_address validator) signature m)
  read_signatures _ _ m = m

  -- the proof that is made of one reply
  unfoldable pub proof_of : SignCheckpointProofReply → Result CheckpointProof
  proof_of reply =
      if length reply.validators == length reply.signatures
      then ok (record {
        epoch_number = reply.epoch_number;
        raw_epoch_block = reply.raw_epoch_block;
        block_hash = eth.bytes_to_hash reply.block_hash;
        checkpoint_hash = eth.bytes_to_hash reply.checkpoint_hash;
        signatures = some (read_signatures reply.validators reply.signatures []);
      })
      else err (corrupted_data (length reply.validators) (length reply.signatures))

  -- the proofs that are emitted, and the error that ends the loop, where one has; an error of `Recv`
  -- ends it too
  abbrev pub after_receive :
      Result CheckpointProof
      → List CheckpointProof × Result (Unit {0})
      → List CheckpointProof × Result (Unit {0})
  after_receive (ok proof) (later, ended) = (proof ∷ later, ended)
  after_receive (err e) _ = ([], err e)
  after_receive (panic p) _ = ([], panic p)

  unfoldable pub receive_loop :
      List (Result SignCheckpointProofReply) → List CheckpointProof × Result (Unit {0})
  receive_loop [] = ([], ok tt)
  receive_loop (received ∷ stream) =
      after_receive (received >>= λ reply. proof_of reply) (receive_loop stream)

  -- `listenForIncomingMessages`: the stream that the client opens, as the answers of `Recv` so far. The call
  -- that opens it, with the nil `grpc.CallOption` that the code passes, is outside: its answer is the argument.
  unfoldable pub listen_for_incoming_messages :
      Result (List (Result SignCheckpointProofReply)) → List CheckpointProof × Result (Unit {0})
  listen_for_incoming_messages (ok stream) = receive_loop stream
  listen_for_incoming_messages (err e) = ([], err e)
  listen_for_incoming_messages (panic p) = ([], panic p)
