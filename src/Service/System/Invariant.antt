-- ===== src/Service/System/Invariant.antt =====
-- The invariant of the running service: the cache finds nothing, so each worker holds a proof of its own,
-- with its own signature at most.
use bas_relay_hub.Prelude.{
  inl, inr, ◌⊎◌, ℕ, ◌≤◌, ◌<◌, ◌≡◌, ◌≢◌, refl, sym, ap, ◌∙◌, Option, none, some, Bytes, length,
  arith,
}
use bas_relay_hub.Prelude.Maps.{GoMap}
use bas_relay_hub.Errors.{ok}
use bas_relay_hub.Eth.{Address, PrivateKey, Eth, Client}
use bas_relay_hub.Checkpoint.{
  CheckpointProof, entries, signature_count, TrieOps, create_checkpoint_proof,
  sign_checkpoint_proof,
}
use bas_relay_hub.Checkpoint.Create.{create_checkpoint_proof-IsCheckpoint}
use bas_relay_hub.Checkpoint.Signatures.{count-sign}
use bas_relay_hub.Service.State.{Ref, Lru, LruLaws, State, alloc}
use bas_relay_hub.Service.State.Merge.{write_at_self, write_at_other}
use bas_relay_hub.Service.State.Unfound.{FindsNothing, merge_adds, merge-FindsNothing}
use bas_relay_hub.Service.Checkpointing.{sign_at, emit_signed}
use bas_relay_hub.Service.System.{
  Pc, idle, made, signed, merged, announced, waiting, sending, Move, make, sign, sign_failed, merge,
  announce, quorum_known, quorum_unknown, tick, give_up, pass, sent,
}

-- the proof that a worker holds
abbrev pub held : Pc → Option Ref
held idle = none
held (made r) = some r
held (signed r) = some r
held (merged r) = some r
held (announced r) = some r
held (waiting r quorum) = some r
held (sending r quorum) = some r

-- the signatures that it has at most
abbrev pub limit : Pc → ℕ
limit (made r) = 0
limit _ = 1

-- a worker only sends where one signature is enough
abbrev pub IsLow : Pc → Type 0
IsLow (sending r quorum) = quorum ≤ 1
IsLow _ = Unit

module _ {C : Type 0} where
  pub record Owns (s : State C) (p : Pc) : Type 0 where
    pub allocated : (r : Ref) → held p ≡ some r → r < s.next_ref
    pub few : (r : Ref) → held p ≡ some r → signature_count (s.proof_at r) ≤ limit p
    pub low : IsLow p

-- two workers hold different proofs
abbrev pub Apart : Pc → Pc → Type 0
Apart p q = (r r' : Ref) → held p ≡ some r → held q ≡ some r' → r ≢ r'

some-eq : {a b : Ref} → ◌≡◌ {A = Option Ref} (some a) (some b) → a ≡ b
some-eq e = cc

module _ {C T : Type 0} (lru : Lru C) (laws : LruLaws lru) (eth : Eth) (trie : TrieOps T)
    (key : PrivateKey) where
  -- what one step leaves of what another thread has
  pub record Leaves (s t : State C) (p q : Pc) : Type 0 where
    pub nothing : FindsNothing lru t
    pub own : Owns t q
    pub grows : s.next_ref ≤ t.next_ref
    pub others :
        (r : Ref)
        → r < s.next_ref
        → ((r' : Ref) → held p ≡ some r' → r' ≢ r)
        → t.proof_at r ≡ s.proof_at r
    -- what it holds it has held before, or it is new
    pub mine : (r : Ref) → held q ≡ some r → (held p ≡ some r) ⊎ (s.next_ref ≤ r)

  created_unsigned :
      (client : Client) (epoch_block epoch_length : ℕ) (proof : CheckpointProof)
      → create_checkpoint_proof eth trie client epoch_block epoch_length ≡ ok proof
      → signature_count proof ≡ 0
  created_unsigned client epoch_block epoch_length proof e =
      ap (λ (m : Option (GoMap Address Bytes)). length (entries m))
        (create_checkpoint_proof-IsCheckpoint eth trie client epoch_block epoch_length e).unsigned

  make-Leaves :
      (s : State C) (proof : CheckpointProof)
      → FindsNothing lru s
      → signature_count proof ≡ 0
      → Leaves s (alloc proof s).1 idle (made s.next_ref)
  unfolding alloc
  make-Leaves s proof nothing unsigned = record {
    nothing = nothing;
    own = record {
      allocated = λ r e. omega (arith, some-eq e);
      few = λ r e.
          rw (← some-eq e, write_at_self s.proof_at s.next_ref proof) (omega (arith, unsigned));
      low = tt;
    };
    grows = omega arith;
    others = λ r h _. write_at_other s.proof_at s.next_ref r proof (λ e. omega (arith, e, h));
    mine = λ r e. inr (omega (arith, some-eq e));
  }

  sign-Leaves :
      (s : State C) (r : Ref) (q : Pc)
      → FindsNothing lru s
      → Owns s (made r)
      → limit q ≡ 1
      → IsLow q
      → ((r' : Ref) → held q ≡ some r' → r' ≡ r)
      → Leaves s (sign_at eth r key s).1 (made r) q
  unfolding sign_at
  sign-Leaves s r q nothing own one low same = record {
    nothing = nothing;
    own = record {
      allocated = λ r' e. omega (arith, same r' e, own.allocated r refl);
      few = λ r' e.
          rw
            (same r' e, write_at_self s.proof_at r (sign_checkpoint_proof eth (s.proof_at r) key).0)
            (omega (arith, one, count-sign eth (s.proof_at r) key, own.few r refl));
      low = low;
    };
    grows = omega arith;
    others = λ r' h apart.
        write_at_other s.proof_at r r' (sign_checkpoint_proof eth (s.proof_at r) key).0
          (λ e. apart r refl (sym e));
    mine = λ r' e. inl (ap some (sym (same r' e)));
  }

  -- a step that leaves the heap alone
  quiet-Leaves :
      (s t : State C) (p q : Pc)
      → FindsNothing lru t
      → t.next_ref ≡ s.next_ref
      → t.proof_at ≡ s.proof_at
      → Owns s p
      → limit p ≤ limit q
      → IsLow q
      → ((r : Ref) → held q ≡ some r → held p ≡ some r)
      → Leaves s t p q
  quiet-Leaves s t p q nothing refs proofs own more low same = record {
    nothing = nothing;
    own = record {
      allocated = λ r e. omega (arith, refs, own.allocated r (same r e));
      few = λ r e. omega (
        arith,
        ap (λ (f : Ref → CheckpointProof). signature_count (f r)) proofs,
        own.few r (same r e),
        more,
      );
      low = low;
    };
    grows = omega (arith, refs);
    others = λ r h _. ap (λ (f : Ref → CheckpointProof). f r) proofs;
    mine = λ r e. inl (same r e);
  }

  pub Move-Leaves :
      {s t : State C} {p q : Pc}
      → FindsNothing lru s
      → Owns s p
      → Move lru eth trie key s p t q
      → Leaves s t p q
  unfolding emit_signed
  Move-Leaves {s} nothing own (make client epoch_block epoch_length proof e) =
      make-Leaves s proof nothing (created_unsigned client epoch_block epoch_length proof e)
  Move-Leaves {s} nothing own (sign {r} _) =
      sign-Leaves s r (signed r) nothing own refl tt (λ r' e. sym (some-eq e))
  Move-Leaves {s} nothing own (sign_failed {r} _) =
      sign-Leaves s r idle nothing own refl tt (λ r' e. cc)
  Move-Leaves {s} nothing own (merge {r}) =
      let adds = merge_adds lru laws s r nothing in
      quiet-Leaves s _ (signed r) _ (merge-FindsNothing lru laws s r nothing)
        (ap (λ (x : Ref × State C). x.1.next_ref) adds)
        (ap (λ (x : Ref × State C). x.1.proof_at) adds) own (omega arith) tt
        (λ r' e. ap some (sym (ap (λ (x : Ref × State C). x.0) adds)) ∙ e)
  Move-Leaves {s} nothing own (announce {r}) =
      quiet-Leaves s _ (merged r) (announced r) nothing refl refl own (omega arith) tt (λ r' e. e)
  Move-Leaves {s} nothing own (quorum_known {r} quorum) =
      quiet-Leaves s s (announced r) (waiting r quorum) nothing refl refl own (omega arith) tt
        (λ r' e. e)
  Move-Leaves {s} nothing own (quorum_unknown {r}) =
      quiet-Leaves s s (announced r) idle nothing refl refl own (omega arith) tt (λ r' e. cc)
  Move-Leaves {s} nothing own (tick {r} {quorum} few) =
      quiet-Leaves s s (waiting r quorum) (waiting r quorum) nothing refl refl own (omega arith) tt
        (λ r' e. e)
  Move-Leaves {s} nothing own (give_up {r} {quorum} few) =
      quiet-Leaves s s (waiting r quorum) idle nothing refl refl own (omega arith) tt (λ r' e. cc)
  Move-Leaves {s} nothing own (pass {r} {quorum} enough) =
      quiet-Leaves s s (waiting r quorum) (sending r quorum) nothing refl refl own (omega arith)
        (omega (arith, enough, own.few r refl)) (λ r' e. e)
  Move-Leaves {s} nothing own (sent {r} {quorum}) =
      quiet-Leaves s s (sending r quorum) idle nothing refl refl own (omega arith) tt (λ r' e. cc)
