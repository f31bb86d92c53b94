-- ===== src/Service/Checkpointing.antt =====
-- `createCheckpointTransition` of relayer/service.go: the proof of an epoch is signed, merged and
-- announced; once enough relayers have signed, it is sent to the target chain.
pub mod Wait
pub mod Alone
pub mod Quorum
use bas_relay_hub.Prelude.{ℕ, Bool, none, List, [], ◌∷◌, ◌++◌, leb, if◌then◌else◌}
use bas_relay_hub.Errors.{Result, ok, err, context_done}
use bas_relay_hub.Eth.{PrivateKey, Eth}
use bas_relay_hub.Hub.{TransactOpts, inject_signer}
use bas_relay_hub.Common.{mapping_values, wait_tx_to_be_mined}
use bas_relay_hub.Checkpoint.{
  CheckpointProof, entries, signature_count, TrieOps, create_checkpoint_proof,
  sign_checkpoint_proof,
}
use bas_relay_hub.Node.{NodeConfig}
use bas_relay_hub.Proof.{calc_required_quorum_for_next_epoch}
use bas_relay_hub.Service.State.{
  Ref, Lru, State, write_at, alloc, merge_checkpoint_proof, collect_checkpoint_proofs_worker,
}
use bas_relay_hub.Service.Exec.{Exec, lift, step, gets, ◌>>=◌, ◌>>◌}

-- `proof.signCheckpointProof(key)` on a pointer
unfoldable pub sign_at : {C : Type 0} → Eth → Ref → PrivateKey → Exec (State C) (Unit {0})
sign_at eth ref private_key s =
    let (proof, r) = sign_checkpoint_proof eth (s.proof_at ref) private_key in
    (r, record s { proof_at = write_at s.proof_at ref proof })

-- `<-s.emitter.Emit(checkpointProofSigned, proof)`
unfoldable pub emit_signed : {C : Type 0} → Ref → State C → Unit {0} × State C
emit_signed ref s = (tt, record s { signed_events = s.signed_events ++ ref ∷ [] })

module _ {C : Type 0} (lru : Lru C) where
  -- The loop that waits for the quorum. `ticks` holds, for each tick of the clock before the context
  -- is done, the proofs that the collecting goroutine merges until then.
  unfoldable pub wait_for_quorum : ℕ → Ref → List (List CheckpointProof) → Exec (State C) (Unit {0})
  wait_for_quorum quorum ref [] s =
      if leb quorum (signature_count (s.proof_at ref)) then (ok tt, s) else (err context_done, s)
  wait_for_quorum quorum ref (received ∷ ticks) s =
      let rest =
        wait_for_quorum quorum ref ticks (collect_checkpoint_proofs_worker lru received s) in
      if leb quorum (signature_count (s.proof_at ref)) then (ok tt, s) else rest

  -- what the collecting goroutine merges at one point
  unfoldable pub meanwhile : List CheckpointProof → Exec (State C) (Unit {0})
  meanwhile received s = (ok tt, collect_checkpoint_proofs_worker lru received s)

  module _ {T : Type 0} (eth : Eth) (trie : TrieOps T) where
    -- `createCheckpointTransition` from the quorum on, with the proof that was announced. `points` holds
    -- the proofs of other relayers that are merged between the steps, before and after the wait; `mined`
    -- says when the target node has the receipt.
    unfoldable pub await_and_send :
        (ℕ → List CheckpointProof)
        → List (List CheckpointProof)
        → (ℕ → Bool)
        → NodeConfig
        → NodeConfig
        → ℕ
        → Ref
        → Exec (State C) (Unit {0})
    await_and_send points ticks mined source target epoch_block ref = do
      quorum ← lift (calc_required_quorum_for_next_epoch eth source epoch_block)
      meanwhile (points 4)
      wait_for_quorum quorum ref ticks
      meanwhile (points 5)
      proof ← gets (λ s. s.proof_at ref)
      tx ← lift (
          target.relay_hub.checkpoint_transition
            (inject_signer eth target.chain_id source.config.relayer.private_key none)
            source.chain_id proof.raw_epoch_block proof.checkpoint_hash
            (mapping_values (entries proof.signatures)))
      lift (wait_tx_to_be_mined mined tx.hash)

    -- the last block that is known is not used
    unfoldable pub create_checkpoint_transition :
        (ℕ → List CheckpointProof)
        → List (List CheckpointProof)
        → (ℕ → Bool)
        → NodeConfig
        → NodeConfig
        → ℕ
        → ℕ
        → Exec (State C) (Unit {0})
    unfolding await_and_send
    create_checkpoint_transition points ticks mined source target epoch_block latest_known_block =
        do
          let private_key = source.config.relayer.private_key
          created ← lift (
              create_checkpoint_proof eth trie source.client epoch_block
                source.chain_config.epoch_length)
          own ← step (alloc created)
          meanwhile (points 0)
          sign_at eth own private_key
          meanwhile (points 1)
          ref ← step (merge_checkpoint_proof lru own)
          meanwhile (points 2)
          step (emit_signed ref)
          meanwhile (points 3)
          await_and_send points ticks mined source target epoch_block ref
