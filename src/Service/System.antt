-- ===== src/Service/System.antt =====
-- The running service of relayer/service.go: the two workers, one for each direction, that make
-- checkpoint transitions, and the collector, interleaved in any order over the shared proofs. One step
-- is one access under a lock, or one answer of a node.
pub mod Keeps
pub mod Invariant
pub mod Safety
pub mod Sequential
pub mod Sends
use bas_relay_hub.Prelude.{ℕ, ◌≤◌, ◌<◌, ◌≡◌, Bool, true, false}
use bas_relay_hub.Errors.{ok}
use bas_relay_hub.Eth.{PrivateKey, Eth, Client}
use bas_relay_hub.Checkpoint.{CheckpointProof, signature_count, TrieOps, create_checkpoint_proof}
use bas_relay_hub.Service.State.{
  Ref, Lru, State, new_relay_service, alloc, merge_checkpoint_proof, receive,
}
use bas_relay_hub.Service.Checkpointing.{sign_at, emit_signed}

-- where a worker stands in `createCheckpointTransition`, with the proof that it holds and, from the
-- wait on, the quorum that it was told
pub data Pc : Type 0 where
  idle : Pc
  made : Ref → Pc
  signed : Ref → Pc
  merged : Ref → Pc
  announced : Ref → Pc
  waiting : Ref → ℕ → Pc
  sending : Ref → ℕ → Pc

module _ {C T : Type 0} (lru : Lru C) (eth : Eth) (trie : TrieOps T) (key : PrivateKey) where
  -- One step of one worker. Which epoch it works on and what the nodes answer is left open.
  pub data Move (s : State C) : Pc → State C → Pc → Type 0 where
    make :
        (client : Client) (epoch_block epoch_length : ℕ) (proof : CheckpointProof)
        → create_checkpoint_proof eth trie client epoch_block epoch_length ≡ ok proof
        → Move s idle (alloc proof s).1 (made s.next_ref)
    sign :
        {r : Ref}
        → (sign_at eth r key s).0 ≡ ok tt
        → Move s (made r) (sign_at eth r key s).1 (signed r)
    -- an error, or the end of the process
    sign_failed :
        {r : Ref}
        → ¬ ((sign_at eth r key s).0 ≡ ok tt)
        → Move s (made r) (sign_at eth r key s).1 idle
    merge :
        {r : Ref}
        → Move s
            (signed r)
            (merge_checkpoint_proof lru r s).1
            (merged (merge_checkpoint_proof lru r s).0)
    announce : {r : Ref} → Move s (merged r) (emit_signed r s).1 (announced r)
    quorum_known : {r : Ref} (quorum : ℕ) → Move s (announced r) s (waiting r quorum)
    quorum_unknown : {r : Ref} → Move s (announced r) s idle
    tick :
        {r : Ref} {quorum : ℕ}
        → signature_count (s.proof_at r) < quorum
        → Move s (waiting r quorum) s (waiting r quorum)
    give_up :
        {r : Ref} {quorum : ℕ}
        → signature_count (s.proof_at r) < quorum
        → Move s (waiting r quorum) s idle
    pass :
        {r : Ref} {quorum : ℕ}
        → quorum ≤ signature_count (s.proof_at r)
        → Move s (waiting r quorum) s (sending r quorum)
    sent : {r : Ref} {quorum : ℕ} → Move s (sending r quorum) s idle

-- `true` is the worker from the root chain to the child chain
pub record System (C : Type 0) : Type 0 where
  pub shared : State C
  pub pc : Bool → Pc

abbrev pub set_pc : (Bool → Pc) → Bool → Pc → Bool → Pc
set_pc pc true p true = p
set_pc pc true p false = pc false
set_pc pc false p true = pc true
set_pc pc false p false = p

module _ {C T : Type 0} (lru : Lru C) (eth : Eth) (trie : TrieOps T) (key : PrivateKey) where
  pub data Step (a : System C) : System C → Type 0 where
    work :
        (i : Bool) {s : State C} {p : Pc}
        → Move lru eth trie key a.shared (a.pc i) s p
        → Step a (record { shared = s; pc = set_pc a.pc i p })
    collect :
        (proof : CheckpointProof)
        → Step a (record { shared = receive lru proof a.shared; pc = a.pc })

  pub data Steps (a : System C) : System C → Type 0 where
    here : Steps a a
    next : {b c : System C} → Steps a b → Step b c → Steps a c

-- after `NewRelayService`
abbrev pub started : {C : Type 0} → Lru C → System C
started lru = record { shared = new_relay_service lru; pc = λ i. idle }
