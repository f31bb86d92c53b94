-- ===== src/Service/Worker.antt =====
-- `epochWorker` of relayer/service.go: for each block that the fetcher sends, the worker transitions
-- the next epoch if it is reached, by checkpoint where other relayers are configured and otherwise,
-- or where that fails, by confirmations. What is logged, and the sleeps, are not modelled.
pub mod Steps
pub mod Epoch
pub mod Follows
pub mod Clock
pub mod Depth
pub mod Runs
use bas_relay_hub.Prelude.{
  ℕ, ◌+◌, ◌-◌, ◌*◌, Bool, true, false, ◌||◌, List, [], ◌∷◌, Bytes, length, ltb, ◌==◌, if◌then◌else◌,
}
use bas_relay_hub.Prelude.Words.{add64, sub64, mul64}
use bas_relay_hub.Errors.{Result, ok, err, panic, divide_by_zero, fatal}
use bas_relay_hub.Eth.{Eth, Client}
use bas_relay_hub.Checkpoint.{CheckpointProof, TrieOps}
use bas_relay_hub.Node.{NodeConfig, or_fatal}
use bas_relay_hub.Service.State.{Lru, State}
use bas_relay_hub.Service.Exec.{Exec, lift, ◌>>=◌}
use bas_relay_hub.Service.Checkpointing.{create_checkpoint_transition}
use bas_relay_hub.Service.Epochs.{create_epoch_transition}

-- the worker's variables; `last_process_time` is set once, before the loop
pub record Worker : Type 0 where
  pub latest_transitioned_epoch : ℕ
  pub total_processed_blocks : ℕ
  pub last_process_time : ℕ

-- what the world does while one block is handled: the block that the fetcher sent, the signatures of
-- other relayers, when transactions are mined, what the nodes and the hub answer, and the clock;
-- `latest_after` is what the hub answers if it is asked, which it is after a transition only
pub record Round : Type 0 where
  pub latest_known_block : ℕ
  pub points : ℕ → List CheckpointProof
  pub ticks : List (List CheckpointProof)
  pub checkpoint_mined : ℕ → Bool
  pub clients : ℕ → Client
  pub epoch_mined : ℕ → Bool
  pub latest_after : Result ℕ
  pub now : ℕ

-- the epoch block that is waited for
unfoldable pub wait_for_block : NodeConfig → Worker → ℕ
wait_for_block source w =
    mul64 (add64 w.latest_transitioned_epoch 1) source.chain_config.epoch_length

-- the statistics behind a transition; the division by the seconds passed can panic
unfoldable pub count_processed : NodeConfig → ℕ → ℕ → Worker → Result Worker
count_processed source latest now w =
    let processed =
      mul64 (sub64 latest w.latest_transitioned_epoch) source.chain_config.epoch_length in
    if now == w.last_process_time
    then panic divide_by_zero
    else ok (record w {
      latest_transitioned_epoch = latest;
      total_processed_blocks = add64 w.total_processed_blocks processed;
    })

-- after a transition the worker asks the hub for the epoch again
unfoldable pub after_transition : NodeConfig → Round → Worker → Result Worker
after_transition source round w = elim (or_fatal round.latest_after) [
  | ok latest ↦ count_processed source latest round.now w
  | err e ↦ err e
  | panic p ↦ panic p
]

-- the error of a confirmation transition is logged, and the loop goes on
unfoldable pub after_confirmation : NodeConfig → Round → Worker → Result (Unit {0}) → Result Worker
after_confirmation source round w (ok _) = after_transition source round w
after_confirmation source round w (err e) = ok w
after_confirmation source round w (panic p) = panic p

module _ {C T : Type 0} (lru : Lru C) (eth : Eth) (trie : TrieOps T)
    (encode : ℕ → List Bytes → Result Bytes) (source target : NodeConfig) where
  unfoldable pub confirm : Round → ℕ → Worker → Result Worker
  confirm round block w = after_confirmation source round w (
      create_epoch_transition eth encode round.clients round.epoch_mined source target block
        round.latest_known_block)

  -- the outcome of the checkpoint transition decides; its error is logged
  unfoldable pub after_checkpoint : Round → ℕ → Worker → Result (Unit {0}) → Result Worker
  after_checkpoint round block w (ok _) = after_transition source round w
  after_checkpoint round block w (err e) = confirm round block w
  after_checkpoint round block w (panic p) = panic p

  -- one value from the block number channel
  unfoldable pub handle_block : Round → Worker → Exec (State C) Worker
  handle_block round w s =
      let block = wait_for_block source w in
      if ltb round.latest_known_block block || ltb round.latest_known_block block
      then (ok w, s)
      else if ltb 0 (length source.config.relayer.relayer_urls)
      then (let (r, s') =
            create_checkpoint_transition lru eth trie round.points round.ticks
              round.checkpoint_mined source target block w.latest_transitioned_epoch s in
          (after_checkpoint round block w r, s'))
      else (confirm round block w, s)

  -- the loop, over the values that the channel delivers; it ends only with the process
  unfoldable pub worker_loop : List Round → Worker → Exec (State C) Worker
  worker_loop [] w = lift (ok w)
  worker_loop (round ∷ rounds) w = do w' ← handle_block round w; worker_loop rounds w'

  -- `latest` is the hub's answer at the start, and `now` the clock
  unfoldable pub epoch_worker : Result ℕ → ℕ → List Round → Exec (State C) Worker
  epoch_worker latest now rounds =
      if source.chain_config.epoch_length == 0 then lift (panic fatal) else (do
        epoch ← lift (or_fatal latest)
        worker_loop rounds (record {
          latest_transitioned_epoch = epoch;
          total_processed_blocks = 0;
          last_process_time = now;
        }))
