-- ===== src/Service/Worker/Clock.antt =====
-- The statistics that the worker makes after each transition.
use bas_relay_hub.Prelude.{
  ℕ, ◌≤◌, ◌≡◌, ◌≢◌, false, List, Bytes, length, arith, ltb, not-ltb, not-==,
}
use bas_relay_hub.Prelude.Words.{add64, sub64, mul64}
use bas_relay_hub.Errors.{Result, ok}
use bas_relay_hub.Eth.{Eth}
use bas_relay_hub.Checkpoint.{TrieOps}
use bas_relay_hub.Node.{NodeConfig, or_fatal}
use bas_relay_hub.Service.State.{Lru, State}
use bas_relay_hub.Service.Epochs.{create_epoch_transition}
use bas_relay_hub.Service.Worker.Steps.{reached_alone}
use bas_relay_hub.Service.Worker.{
  Worker, Round, wait_for_block, count_processed, after_transition, after_confirmation, confirm,
  handle_block,
}

module _ {C T : Type 0} (lru : Lru C) (eth : Eth) (trie : TrieOps T)
    (encode : ℕ → List Bytes → Result Bytes) (source target : NodeConfig) (round : Round)
    (w : Worker) (s : State C) where
  count_later :
      (latest : ℕ)
      → round.now ≢ w.last_process_time
      → count_processed source latest round.now w
        ≡ ok (record w {
          latest_transitioned_epoch = latest;
          total_processed_blocks =
              add64 w.total_processed_blocks
                (mul64 (sub64 latest w.latest_transitioned_epoch) source.chain_config.epoch_length);
        })
  unfolding count_processed
  count_later latest later = rw (not-== round.now w.last_process_time later)

  module _ (reached : wait_for_block source w ≤ round.latest_known_block)
      (alone : length source.config.relayer.relayer_urls ≡ 0)
      (sent : create_epoch_transition eth encode round.clients round.epoch_mined source target
          (wait_for_block source w)
          round.latest_known_block
        ≡ ok tt)
      {latest : ℕ} (answered : round.latest_after ≡ ok latest) where
    alone_test : ltb 0 (length source.config.relayer.relayer_urls) ≡ false
    alone_test = not-ltb 0 (length source.config.relayer.relayer_urls) (omega arith)

    -- At a reached block of a worker with no other relayer configured: where the confirmation
    -- transition succeeds, the hub answers, and the second is not the one of the worker's start,
    -- the worker goes on with the epoch that the hub reports, and counts the blocks of the epochs
    -- in between.
    pub transition_counts :
        round.now ≢ w.last_process_time
        → (handle_block lru eth trie encode source target round w s).0
          ≡ ok (record w {
            latest_transitioned_epoch = latest;
            total_processed_blocks =
                add64 w.total_processed_blocks (
                  mul64
                    (sub64 latest w.latest_transitioned_epoch)
                    source.chain_config.epoch_length);
          })
    unfolding confirm after_confirmation after_transition or_fatal
    transition_counts later =
        rw
          (
            reached_alone lru eth trie encode source target round w s reached alone_test,
            confirm,
            sent,
            answered,
          )
          (count_later latest later)
