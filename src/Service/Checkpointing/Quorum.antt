-- ===== src/Service/Checkpointing/Quorum.antt =====
-- Whether `createCheckpointTransition` can succeed.
use bas_relay_hub.Prelude.{ℕ, ◌≤◌, ◌<◌, ◌≡◌, sym, ap, ◌∙◌, Bool, Option, Bytes, length, List, arith}
use bas_relay_hub.Prelude.Maps.{GoMap}
use bas_relay_hub.Errors.{ok, err, context_done, ok-injective}
use bas_relay_hub.Eth.{Address, PrivateKey, Eth, Client}
use bas_relay_hub.Checkpoint.{
  CheckpointProof, entries, signature_count, TrieOps, create_checkpoint_proof,
  sign_checkpoint_proof,
}
use bas_relay_hub.Checkpoint.Create.{create_checkpoint_proof-IsCheckpoint}
use bas_relay_hub.Checkpoint.Signatures.{count-sign}
use bas_relay_hub.Node.{NodeConfig}
use bas_relay_hub.Proof.{calc_required_quorum_for_next_epoch}
use bas_relay_hub.Service.State.{Ref, Lru, LruLaws, State, alloc, merge_checkpoint_proof}
use bas_relay_hub.Service.State.Unfound.{Reachable, FindsNothing, Reachable-FindsNothing}
use bas_relay_hub.Service.Exec.{continue_ok, ◌>>=◌}
use bas_relay_hub.Service.Checkpointing.{
  await_and_send, meanwhile, sign_at, emit_signed, wait_for_quorum, create_checkpoint_transition,
}
use bas_relay_hub.Service.Checkpointing.Wait.{wait_times_out}
use bas_relay_hub.Service.Checkpointing.Alone.{
  alloc-IsAlone, sign-IsAlone, merged-IsAlone, emit-IsAlone, meanwhile-IsAlone,
}

-- a proof that was just made has one signature at most after signing
few_signatures :
    {T : Type 0} (eth : Eth) (trie : TrieOps T) (client : Client) (epoch_block epoch_length : ℕ)
    (created : CheckpointProof) (key : PrivateKey)
    → create_checkpoint_proof eth trie client epoch_block epoch_length ≡ ok created
    → signature_count (sign_checkpoint_proof eth created key).0 ≤ 1
few_signatures eth trie client epoch_block epoch_length created key made =
    let unsigned =
      (create_checkpoint_proof-IsCheckpoint eth trie client epoch_block epoch_length
        made).unsigned in
    omega (
      arith,
      count-sign eth created key,
      ap (λ (m : Option (GoMap Address Bytes)). length (entries m)) unsigned,
    )

module _ {C T : Type 0} (lru : Lru C) (laws : LruLaws lru) (eth : Eth) (trie : TrieOps T)
    (source target : NodeConfig) (epoch_block latest_known_block : ℕ) where
  -- the wait of a transition, from the state in which its proof was made
  waits_alone :
      (points : ℕ → List CheckpointProof) (ticks : List (List CheckpointProof)) (s : State C)
      (created : CheckpointProof) (quorum : ℕ)
      → FindsNothing lru s
      → create_checkpoint_proof eth trie source.client epoch_block source.chain_config.epoch_length
        ≡ ok created
      → 1 < quorum
      → let own = s.next_ref in
        let s₁ = (meanwhile lru (points 0) (alloc created s).1).1 in
        let s₂ =
          (meanwhile lru (points 1) (sign_at eth own source.config.relayer.private_key s₁).1).1 in
        let (ref, s₃) = merge_checkpoint_proof lru own s₂ in
        let s₄ = (meanwhile lru (points 3) (emit_signed ref (meanwhile lru (points 2) s₃).1).1).1 in
        (wait_for_quorum lru quorum ref ticks (meanwhile lru (points 4) s₄).1).0 ≡ err context_done
  waits_alone points ticks s created quorum nothing made big =
      let key = source.config.relayer.private_key in
      let signed = (sign_checkpoint_proof eth created key).0 in
      let step = meanwhile-IsAlone lru laws in
      let alone₁ =
        step (points 0) s.next_ref created _ (alloc-IsAlone lru laws created s nothing) in
      let alone₂ =
        step (points 1) s.next_ref signed _
          (sign-IsAlone lru laws eth s.next_ref key created _ alone₁) in
      let alone₃ =
        step (points 2) _ signed _ (merged-IsAlone lru laws s.next_ref signed _ alone₂) in
      let alone₄ = step (points 3) _ signed _ (emit-IsAlone lru laws _ signed _ alone₃) in
      wait_times_out lru laws _ quorum ticks signed _ (step (points 4) _ signed _ alone₄) (
        omega (
          arith,
          few_signatures eth trie source.client epoch_block source.chain_config.epoch_length created
              key made,
        ))

  -- Over a cache with the laws of golang-lru, and where the quorum is two signatures or more, the
  -- checkpoint transition never succeeds, in any state that the service can come to, and whatever
  -- signatures of other relayers are merged, before the wait, between its steps, or while it
  -- lasts.
  pub never_reaches_quorum :
      (points : ℕ → List CheckpointProof) (ticks : List (List CheckpointProof)) (mined : ℕ → Bool)
      (s : State C) (quorum : ℕ)
      → Reachable lru s
      → calc_required_quorum_for_next_epoch eth source epoch_block ≡ ok quorum
      → 1 < quorum
      → ¬ (
          (create_checkpoint_transition lru eth trie points ticks mined source target epoch_block
            latest_known_block s).0
          ≡ ok tt)
  unfolding create_checkpoint_transition await_and_send ◌>>=◌ sign_at emit_signed alloc meanwhile
  never_reaches_quorum points ticks mined s quorum r calc big h =
      let (created, made, h₁) =
        continue_ok
          (create_checkpoint_proof eth trie source.client epoch_block
            source.chain_config.epoch_length)
          _ s h in
      let own : Ref = s.next_ref in
      let s₁ = (meanwhile lru (points 0) (alloc created s).1).1 in
      let signed = sign_at eth own source.config.relayer.private_key s₁ in
      let (_, _, h₂) = continue_ok signed.0 _ _ h₁ in
      let (ref, s₃) = merge_checkpoint_proof lru own (meanwhile lru (points 1) signed.1).1 in
      let s₄ = (meanwhile lru (points 3) (emit_signed ref (meanwhile lru (points 2) s₃).1).1).1 in
      let (quorum', calc', h₃) =
        continue_ok (calc_required_quorum_for_next_epoch eth source epoch_block) _ _ h₂ in
      let (_, waited, _) =
        continue_ok (wait_for_quorum lru quorum' ref ticks (meanwhile lru (points 4) s₄).1).0 _ _
          h₃ in
      let same : quorum ≡ quorum' = ok-injective (sym calc ∙ calc') in
      cc (
        sym (
          waits_alone points ticks s created quorum' (Reachable-FindsNothing lru laws r) made
            (omega arith))
        ∙ waited)
