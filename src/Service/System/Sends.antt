-- ===== src/Service/System/Sends.antt =====
-- A checkpoint transition that succeeds, as a run of the system that comes to send.
use bas_relay_hub.Prelude.{
  ℕ, ◌≡◌, refl, Bool, true, inl, inr, Bool-cases, none, List, [], ◌∷◌, leb, leb→le, not-leb→lt,
}
use bas_relay_hub.Errors.{Result, ok, err, panic}
use bas_relay_hub.Eth.{Eth}
use bas_relay_hub.Checkpoint.{
  CheckpointProof, entries, signature_count, TrieOps, create_checkpoint_proof,
}
use bas_relay_hub.Hub.{inject_signer}
use bas_relay_hub.Common.{mapping_values}
use bas_relay_hub.Node.{NodeConfig}
use bas_relay_hub.Proof.{calc_required_quorum_for_next_epoch}
use bas_relay_hub.Service.State.{Ref, Lru, State, alloc, collect_checkpoint_proofs_worker}
use bas_relay_hub.Service.Exec.{Exec, continue, lift, step, gets, ◌>>=◌}
use bas_relay_hub.Service.Checkpointing.{
  await_and_send, meanwhile, sign_at, wait_for_quorum, create_checkpoint_transition,
}
use bas_relay_hub.Service.System.{
  Pc, idle, made, announced, waiting, sending, make, sign, quorum_known, tick, pass, System, here,
}
use bas_relay_hub.Prelude.{◌<◌, ◌≤◌}
use bas_relay_hub.Hub.{Tx}
use bas_relay_hub.Common.Mining.{mined_in_time}
use bas_relay_hub.Service.System.Sequential.{
  at, From, key_of, then-Move, then_collect, then_meanwhile, From-signed,
}

-- the rest of a block that succeeds
continue_succeeds :
    {S A B : Type 0} (P : S → Type 0) {b : B} (r : Result A) (f : A → Exec S B) (s : S)
    → (continue r f s).0 ≡ ok b
    → ((x : A) → r ≡ ok x → (f x s).0 ≡ ok b → P (f x s).1)
    → P (continue r f s).1
continue_succeeds P (ok x) f s e rest = rest x refl e
continue_succeeds P (err x) f s e rest = cc
continue_succeeds P (panic p) f s e rest = cc

module _ {C T : Type 0} (lru : Lru C) (eth : Eth) (trie : TrieOps T) (source : NodeConfig)
    (pc : Bool → Pc) (i : Bool) where
  -- a run from `a` on waits for the quorum that the node tells, has the signatures in some state, passes to sending,
  -- and the hub takes the proof as it is in the last state, in a transaction that is mined in time
  pub record Sends (a : System C) (target : NodeConfig) (epoch_block : ℕ) (mined : ℕ → Bool)
      (t : State C) : Type 0 where
    pub ref : Ref
    pub quorum : ℕ
    pub told : calc_required_quorum_for_next_epoch eth source epoch_block ≡ ok quorum
    pub before : State C
    pub waits : From lru eth trie source pc i a before (waiting ref quorum)
    pub reached : quorum ≤ signature_count (before.proof_at ref)
    pub passes :
        From lru eth trie source pc i
          (at lru eth trie source pc i before (waiting ref quorum))
          t
          (sending ref quorum)
    pub tx : Tx
    pub sent :
        target.relay_hub.checkpoint_transition
          (inject_signer eth target.chain_id source.config.relayer.private_key none)
          source.chain_id
          (t.proof_at ref).raw_epoch_block
          (t.proof_at ref).checkpoint_hash
          (mapping_values (entries (t.proof_at ref).signatures))
        ≡ ok tx
    pub try : ℕ
    pub in_time : try < 30
    pub receipt : mined try ≡ true

  module _ {a : System C} where
    wait_succeeds :
        (quorum : ℕ) (r : Ref) (ticks : List (List CheckpointProof)) (s : State C)
        → From lru eth trie source pc i a s (waiting r quorum)
        → (wait_for_quorum lru quorum r ticks s).0 ≡ ok tt
        → let t = (wait_for_quorum lru quorum r ticks s).1 in
          From lru eth trie source pc i a t (waiting r quorum)
          × (quorum ≤ signature_count (t.proof_at r))
    unfolding wait_for_quorum
    wait_succeeds quorum r [] s steps e =
        elim (Bool-cases (leb quorum (signature_count (s.proof_at r)))) [
          | inl enough ↦ rw enough (steps, leb→le quorum (signature_count (s.proof_at r)) enough)
          | inr few ↦ absurd (cc (rw few at e))
        ]
    wait_succeeds quorum r (received ∷ ticks) s steps e =
        elim (Bool-cases (leb quorum (signature_count (s.proof_at r)))) [
          | inl enough ↦ rw enough (steps, leb→le quorum (signature_count (s.proof_at r)) enough)
          | inr few ↦ rw few (
              wait_succeeds quorum r ticks (collect_checkpoint_proofs_worker lru received s)
                (then_collect lru eth trie source pc i received s (waiting r quorum) (
                  then-Move lru eth trie source pc i steps
                    (tick (not-leb→lt quorum (signature_count (s.proof_at r)) few))))
                (rw few at e))
        ]

    announced-Sends :
        (points : ℕ → List CheckpointProof) (ticks : List (List CheckpointProof)) (mined : ℕ → Bool)
        (target : NodeConfig) (epoch_block : ℕ) (ref : Ref) (s : State C)
        → From lru eth trie source pc i a s (announced ref)
        → (await_and_send lru eth trie points ticks mined source target epoch_block ref s).0 ≡ ok tt
        → Sends a target epoch_block mined
            (await_and_send lru eth trie points ticks mined source target epoch_block ref s).1
    unfolding await_and_send ◌>>=◌ lift gets meanwhile
    announced-Sends points ticks mined target epoch_block ref s steps e =
        continue_succeeds (Sends a target epoch_block mined)
          (calc_required_quorum_for_next_epoch eth source epoch_block) _ s e
          (λ quorum told e₁.
            let s₁ = (meanwhile lru (points 4) s).1 in
            let after = wait_for_quorum lru quorum ref ticks s₁ in
            continue_succeeds (Sends a target epoch_block mined) after.0 _ after.1 e₁
              (λ _ waited e₂.
                let (waits, reached) =
                  wait_succeeds quorum ref ticks s₁
                    (then_meanwhile lru eth trie source pc i (points 4) s (waiting ref quorum)
                      (then-Move lru eth trie source pc i steps (quorum_known quorum)))
                    waited in
                let s₂ = (meanwhile lru (points 5) after.1).1 in
                let proof : CheckpointProof = s₂.proof_at ref in
                continue_succeeds (Sends a target epoch_block mined)
                  (target.relay_hub.checkpoint_transition
                    (inject_signer eth target.chain_id (key_of lru eth trie source pc i) none)
                    source.chain_id proof.raw_epoch_block proof.checkpoint_hash
                    (mapping_values (entries proof.signatures)))
                  _ s₂ e₂
                  (λ tx sent e₃.
                    let (try, in_time, receipt) = mined_in_time mined tx.hash e₃ in
                    record {
                      ref = ref;
                      quorum = quorum;
                      told = told;
                      before = after.1;
                      waits = waits;
                      reached = reached;
                      passes =
                          then_meanwhile lru eth trie source pc i (points 5) after.1
                            (sending ref quorum)
                            (then-Move lru eth trie source pc i here (pass reached));
                      tx = tx;
                      sent = sent;
                      try = try;
                      in_time = in_time;
                      receipt = receipt;
                    })))

  -- A call of `createCheckpointTransition` by one worker that succeeds came to send: from the idle worker
  -- a run of the system leads to the wait for the quorum that the node told for this epoch block, the
  -- proof that the worker waits for has that many signatures in the state that ends the wait, a run leads
  -- from there to the guarded step `pass` and the call's last state, and the hub of the other chain took the
  -- epoch block, the hash and the signatures of that proof, as they are in the last state, with the
  -- relayer's own key, in a transaction of which a receipt was found at one of the first thirty polls.
  pub transition-Sends :
      (points : ℕ → List CheckpointProof) (ticks : List (List CheckpointProof)) (mined : ℕ → Bool)
      (target : NodeConfig) (epoch_block latest_known_block : ℕ) (s : State C)
      → (create_checkpoint_transition lru eth trie points ticks mined source target epoch_block
          latest_known_block s).0
        ≡ ok tt
      → Sends
          (at lru eth trie source pc i s idle)
          target
          epoch_block
          mined
          (create_checkpoint_transition lru eth trie points ticks mined source target epoch_block
            latest_known_block s).1
  unfolding create_checkpoint_transition ◌>>=◌ lift step gets meanwhile alloc
  transition-Sends points ticks mined target epoch_block latest_known_block s e =
      let own : Ref = s.next_ref in
      let start = at lru eth trie source pc i s idle in
      continue_succeeds (Sends start target epoch_block mined)
        (create_checkpoint_proof eth trie source.client epoch_block
          source.chain_config.epoch_length)
        _ s e
        (λ proof created e₁.
          let s₀ = (alloc proof s).1 in
          let s₁ = (meanwhile lru (points 0) s₀).1 in
          let to_made : From lru eth trie source pc i start s₁ (made own) =
            then_meanwhile lru eth trie source pc i (points 0) s₀ (made own) (
              then-Move lru eth trie source pc i here
                (make source.client epoch_block source.chain_config.epoch_length proof created)) in
          let after = sign_at eth own (key_of lru eth trie source pc i) s₁ in
          continue_succeeds (Sends start target epoch_block mined) after.0 _ after.1 e₁
            (λ _ signs e₂.
              announced-Sends points ticks mined target epoch_block _ _
                (From-signed lru eth trie source pc i points own after.1
                  (then-Move lru eth trie source pc i to_made (sign signs)))
                e₂))
