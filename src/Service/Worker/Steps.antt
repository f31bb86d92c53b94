-- ===== src/Service/Worker/Steps.antt =====
-- The three ways in which the worker handles a block.
use bas_relay_hub.Prelude.{ℕ, ◌≤◌, ◌<◌, ◌≡◌, true, false, List, Bytes, length, ltb, lt→ltb, not-ltb}
use bas_relay_hub.Errors.{Result, ok}
use bas_relay_hub.Eth.{Eth}
use bas_relay_hub.Checkpoint.{TrieOps}
use bas_relay_hub.Node.{NodeConfig}
use bas_relay_hub.Service.State.{Lru, State}
use bas_relay_hub.Service.Checkpointing.{create_checkpoint_transition}
use bas_relay_hub.Service.Worker.{
  Worker, Round, wait_for_block, confirm, after_checkpoint, handle_block,
}

module _ {C T : Type 0} (lru : Lru C) (eth : Eth) (trie : TrieOps T)
    (encode : ℕ → List Bytes → Result Bytes) (source target : NodeConfig) where
  -- a block below the next epoch block changes nothing, and no transition is tried
  pub waits :
      (round : Round) (w : Worker) (s : State C)
      → round.latest_known_block < wait_for_block source w
      → handle_block lru eth trie encode source target round w s ≡ (ok w, s)
  unfolding handle_block
  waits round w s early = rw (lt→ltb round.latest_known_block (wait_for_block source w) early)

  -- a block that is reached, with no other relayer configured, is a confirmation transition
  pub reached_alone :
      (round : Round) (w : Worker) (s : State C)
      → wait_for_block source w ≤ round.latest_known_block
      → ltb 0 (length source.config.relayer.relayer_urls) ≡ false
      → handle_block lru eth trie encode source target round w s
        ≡ (confirm lru eth trie encode source target round (wait_for_block source w) w, s)
  unfolding handle_block
  reached_alone round w s reached alone =
      rw (not-ltb round.latest_known_block (wait_for_block source w) reached, alone)

  -- with other relayers it is a checkpoint transition first
  pub reached_with_relayers :
      (round : Round) (w : Worker) (s : State C)
      → wait_for_block source w ≤ round.latest_known_block
      → ltb 0 (length source.config.relayer.relayer_urls) ≡ true
      → let (r, s') =
          create_checkpoint_transition lru eth trie round.points round.ticks round.checkpoint_mined
            source target
            (wait_for_block source w)
            w.latest_transitioned_epoch
            s in
        handle_block lru eth trie encode source target round w s ≡ (
          after_checkpoint lru eth trie encode source target round (wait_for_block source w) w r,
          s',
        )
  unfolding handle_block
  reached_with_relayers round w s reached others =
      rw (not-ltb round.latest_known_block (wait_for_block source w) reached, others)
