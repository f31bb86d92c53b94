-- ===== src/Service/Worker/Epoch.antt =====
-- The checkpoint transition of the worker, which never decides.
use bas_relay_hub.Prelude.{ℕ, ◌≤◌, ◌<◌, ◌≡◌, ◌⊎◌, inl, inr, refl, List, Bytes, length, lt→ltb}
use bas_relay_hub.Errors.{Result, Fault, ok, err, panic}
use bas_relay_hub.Eth.{Eth}
use bas_relay_hub.Checkpoint.{TrieOps}
use bas_relay_hub.Node.{NodeConfig}
use bas_relay_hub.Proof.{calc_required_quorum_for_next_epoch}
use bas_relay_hub.Service.State.{Lru, LruLaws, State}
use bas_relay_hub.Service.State.Unfound.{Reachable}
use bas_relay_hub.Service.Checkpointing.Quorum.{never_reaches_quorum}
use bas_relay_hub.Service.Worker.Steps.{reached_with_relayers}
use bas_relay_hub.Service.Worker.{
  Worker, Round, wait_for_block, confirm, after_checkpoint, handle_block,
}

module _ {C T : Type 0} (lru : Lru C) (eth : Eth) (trie : TrieOps T)
    (encode : ℕ → List Bytes → Result Bytes) (source target : NodeConfig) where
  not_ok-falls_back :
      (round : Round) (block : ℕ) (w : Worker) (r : Result (Unit {0}))
      → ¬ (r ≡ ok tt)
      → (after_checkpoint lru eth trie encode source target round block w r
          ≡ confirm lru eth trie encode source target round block w)
        ⊎ ((p : Fault) × (after_checkpoint lru eth trie encode source target round block w r
              ≡ panic p))
  unfolding after_checkpoint
  not_ok-falls_back round block w (ok u) never = absurd (never refl)
  not_ok-falls_back round block w (err e) never = inl refl
  not_ok-falls_back round block w (panic p) never = inr (p, refl)

  -- Over a cache with the laws of golang-lru, in any state that the service can come to, where
  -- other relayers are configured and the quorum of the next epoch is two or more, a block that
  -- is reached is handled as by confirmation alone, or the process ends: the checkpoint
  -- transition never does it, whatever the other relayers send.
  pub checkpoint_never_decides :
      (laws : LruLaws lru) (round : Round) (w : Worker) (s : State C) (quorum : ℕ)
      → Reachable lru s
      → wait_for_block source w ≤ round.latest_known_block
      → 0 < length source.config.relayer.relayer_urls
      → calc_required_quorum_for_next_epoch eth source (wait_for_block source w) ≡ ok quorum
      → 1 < quorum
      → ((handle_block lru eth trie encode source target round w s).0
          ≡ confirm lru eth trie encode source target round (wait_for_block source w) w)
        ⊎ ((p : Fault) × ((handle_block lru eth trie encode source target round w s).0 ≡ panic p))
  checkpoint_never_decides laws round w s quorum r reached others calc big =
      rw
        (reached_with_relayers lru eth trie encode source target round w s reached
          (lt→ltb 0 (length source.config.relayer.relayer_urls) others))
        (not_ok-falls_back round (wait_for_block source w) w _ (
          never_reaches_quorum lru laws eth trie source target (wait_for_block source w)
            w.latest_transitioned_epoch round.points round.ticks round.checkpoint_mined s quorum r
            calc big))
