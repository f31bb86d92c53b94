-- ===== src/Service/System/Sequential.antt =====
-- `createCheckpointTransition` as a run of the system: its steps are those of one worker, and what is
-- merged between them are steps of the collector.
use mathlib.Core.Path.{fun_ext}
use bas_relay_hub.Prelude.{
  ℕ, ◌≡◌, refl, sym, subst, Bool, true, false, inl, inr, Bool-cases, none, List, [], ◌∷◌, leb,
  leb→le, not-leb→lt,
}
use bas_relay_hub.Errors.{Result, ok, err, panic}
use bas_relay_hub.Eth.{PrivateKey, Eth}
use bas_relay_hub.Checkpoint.{
  CheckpointProof, entries, signature_count, TrieOps, create_checkpoint_proof,
}
use bas_relay_hub.Hub.{inject_signer}
use bas_relay_hub.Common.{mapping_values}
use bas_relay_hub.Node.{NodeConfig}
use bas_relay_hub.Proof.{calc_required_quorum_for_next_epoch}
use bas_relay_hub.Service.State.{
  Ref, Lru, State, alloc, merge_checkpoint_proof, receive, collect_checkpoint_proofs_worker,
}
use bas_relay_hub.Service.Exec.{Exec, continue, lift, step, gets, ◌>>=◌}
use bas_relay_hub.Service.Checkpointing.{
  await_and_send, meanwhile, sign_at, emit_signed, wait_for_quorum, create_checkpoint_transition,
}
use bas_relay_hub.Service.System.{
  Pc, idle, made, signed, merged, announced, waiting, sending, Move, make, sign, sign_failed, merge,
  announce, quorum_known, quorum_unknown, tick, give_up, pass, sent, System, set_pc, work, collect,
  Steps, here, next,
}

set_pc_same : (pc : Bool → Pc) (i : Bool) (p : Pc) → set_pc pc i p i ≡ p
set_pc_same pc true p = refl
set_pc_same pc false p = refl

set_pc-set_pc :
    (pc : Bool → Pc) (i : Bool) (p q : Pc) (j : Bool)
    → set_pc (set_pc pc i p) i q j ≡ set_pc pc i q j
set_pc-set_pc pc true p q true = refl
set_pc-set_pc pc true p q false = refl
set_pc-set_pc pc false p q true = refl
set_pc-set_pc pc false p q false = refl

module _ {C T : Type 0} (lru : Lru C) (eth : Eth) (trie : TrieOps T) (source : NodeConfig)
    (pc : Bool → Pc) (i : Bool) where
  abbrev pub key_of : PrivateKey
  key_of = source.config.relayer.private_key

  -- the worker `i` stands at `p`, the other one where it stood
  abbrev pub at : State C → Pc → System C
  at s p = record { shared = s; pc = set_pc pc i p }

  abbrev pub From : System C → State C → Pc → Type 0
  From a s p = Steps lru eth trie key_of a (at s p)

  module _ {a : System C} where
    pub then-Move :
        {s t : State C} {p q : Pc} → From a s p → Move lru eth trie key_of s p t q → From a t q
    then-Move {s} {t} {p} {q} steps move =
        subst (λ (f : Bool → Pc). Steps lru eth trie key_of a (record { shared = t; pc = f }))
          (fun_ext (set_pc-set_pc pc i p q))
          (next steps (
            work i (
              subst (λ (o : Pc). Move lru eth trie key_of s o t q) (sym (set_pc_same pc i p))
                move)))

    pub then_collect :
        (received : List CheckpointProof) (s : State C) (p : Pc)
        → From a s p
        → From a (collect_checkpoint_proofs_worker lru received s) p
    unfolding collect_checkpoint_proofs_worker
    then_collect [] s p steps = steps
    then_collect (proof ∷ received) s p steps =
        then_collect received (receive lru proof s) p (next steps (collect proof))

    pub then_meanwhile :
        (received : List CheckpointProof) (s : State C) (p : Pc)
        → From a s p
        → From a (meanwhile lru received s).1 p
    unfolding meanwhile
    then_meanwhile received s p steps = then_collect received s p steps

    wait_steps :
        (quorum : ℕ) (r : Ref) (ticks : List (List CheckpointProof)) (s : State C)
        → From a s (waiting r quorum)
        → let (result, t) = wait_for_quorum lru quorum r ticks s in
          (result ≡ ok tt → From a t (sending r quorum)) × (¬ (result ≡ ok tt) → From a t idle)
    unfolding wait_for_quorum
    wait_steps quorum r [] s steps =
        elim (Bool-cases (leb quorum (signature_count (s.proof_at r)))) [
          | inl enough ↦ rw enough (
            λ _. then-Move steps (pass (leb→le quorum (signature_count (s.proof_at r)) enough)),
            λ other. absurd (other refl),
          )
          | inr few ↦ rw few (
            λ e. cc,
            λ _. then-Move steps (give_up (not-leb→lt quorum (signature_count (s.proof_at r)) few)),
          )
        ]
    wait_steps quorum r (received ∷ ticks) s steps =
        elim (Bool-cases (leb quorum (signature_count (s.proof_at r)))) [
          | inl enough ↦ rw enough (
            λ _. then-Move steps (pass (leb→le quorum (signature_count (s.proof_at r)) enough)),
            λ other. absurd (other refl),
          )
          | inr few ↦ rw few (
              wait_steps quorum r ticks (collect_checkpoint_proofs_worker lru received s) (
                then_collect received s (waiting r quorum) (
                  then-Move steps (tick (not-leb→lt quorum (signature_count (s.proof_at r)) few)))))
        ]

    -- the rest of a block: it goes on, or ends with what was written so far
    continue_steps :
        {A B : Type 0} (r : Result A) (f : A → Exec (State C) B) (s : State C)
        → ((x : A) → r ≡ ok x → From a (f x s).1 idle)
        → (((x : A) → ¬ (r ≡ ok x)) → From a s idle)
        → From a (continue r f s).1 idle
    continue_steps (ok x) f s goes_on ends = goes_on x refl
    continue_steps (err e) f s goes_on ends = ends (λ x h. cc)
    continue_steps (panic p) f s goes_on ends = ends (λ x h. cc)

  module _ {a : System C} where
    -- from the wait on, with the proof that was announced
    From-announced :
        (points : ℕ → List CheckpointProof) (ticks : List (List CheckpointProof)) (mined : ℕ → Bool)
        (target : NodeConfig) (epoch_block : ℕ) (ref : Ref) (s : State C)
        → From a s (announced ref)
        → From a
            (await_and_send lru eth trie points ticks mined source target epoch_block ref s).1
            idle
    unfolding await_and_send ◌>>=◌ lift gets meanwhile
    From-announced points ticks mined target epoch_block ref s steps =
        continue_steps (calc_required_quorum_for_next_epoch eth source epoch_block) _ s
          (λ quorum known.
            let s₁ = (meanwhile lru (points 4) s).1 in
            let waited = wait_steps quorum ref ticks s₁ (
              then_meanwhile (points 4) s (waiting ref quorum)
                (then-Move steps (quorum_known quorum))) in
            let after = wait_for_quorum lru quorum ref ticks s₁ in
            continue_steps after.0 _ after.1
              (λ _ reached.
                let to_sending =
                  then_meanwhile (points 5) after.1 (sending ref quorum) (waited.0 reached) in
                let s₂ = (meanwhile lru (points 5) after.1).1 in
                let proof : CheckpointProof = s₂.proof_at ref in
                continue_steps
                  (target.relay_hub.checkpoint_transition
                    (inject_signer eth target.chain_id key_of none) source.chain_id
                    proof.raw_epoch_block proof.checkpoint_hash
                    (mapping_values (entries proof.signatures)))
                  _ s₂ (λ tx _. then-Move to_sending sent) (λ _. then-Move to_sending sent))
              (λ failed. waited.1 (failed tt)))
          (λ failed. then-Move steps quorum_unknown)

    pub From-signed :
        (points : ℕ → List CheckpointProof) (own : Ref) (s : State C)
        → From a s (signed own)
        → let s₁ = (meanwhile lru (points 1) s).1 in
          let (ref, s₂) = merge_checkpoint_proof lru own s₁ in
          From a
            (meanwhile lru (points 3) (emit_signed ref (meanwhile lru (points 2) s₂).1).1).1
            (announced ref)
    From-signed points own s steps =
        let s₁ = (meanwhile lru (points 1) s).1 in
        let (ref, s₂) = merge_checkpoint_proof lru own s₁ in
        then_meanwhile (points 3) _ (announced ref) (
          then-Move
            (then_meanwhile (points 2) s₂ (merged ref)
              (then-Move (then_meanwhile (points 1) s (signed own) steps) merge))
            announce)

  -- Called by one worker, `createCheckpointTransition` is a run of the system that leaves the worker idle,
  -- whether it succeeds, fails or ends the process, with the proofs of other relayers that are merged
  -- meanwhile as steps of the collector.
  pub transition_runs :
      (points : ℕ → List CheckpointProof) (ticks : List (List CheckpointProof)) (mined : ℕ → Bool)
      (target : NodeConfig) (epoch_block latest_known_block : ℕ) (s : State C)
      → Steps lru eth trie source.config.relayer.private_key (at s idle) (
          at
            (create_checkpoint_transition lru eth trie points ticks mined source target epoch_block
              latest_known_block s).1
            idle)
  unfolding create_checkpoint_transition ◌>>=◌ lift step gets meanwhile alloc
  transition_runs points ticks mined target epoch_block latest_known_block s =
      let own : Ref = s.next_ref in
      continue_steps
        (create_checkpoint_proof eth trie source.client epoch_block
          source.chain_config.epoch_length)
        _ s
        (λ proof created.
          let s₀ = (alloc proof s).1 in
          let s₁ = (meanwhile lru (points 0) s₀).1 in
          let to_made : From (at s idle) s₁ (made own) = then_meanwhile (points 0) s₀ (made own) (
            then-Move here
              (make source.client epoch_block source.chain_config.epoch_length proof created)) in
          let after = sign_at eth own key_of s₁ in
          continue_steps after.0 _ after.1
            (λ _ signs.
              From-announced points ticks mined target epoch_block _ _
                (From-signed points own after.1 (then-Move to_made (sign signs))))
            (λ failed. then-Move to_made (sign_failed (failed tt))))
        (λ failed. here)
