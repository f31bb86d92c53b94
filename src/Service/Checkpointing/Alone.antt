-- ===== src/Service/Checkpointing/Alone.antt =====
-- What the steps of `createCheckpointTransition` keep of a proof in the heap, in a service whose cache
-- finds nothing.
use bas_relay_hub.Prelude.{ap, ◌∙◌, List, arith}
use bas_relay_hub.Eth.{PrivateKey, Eth}
use bas_relay_hub.Checkpoint.{CheckpointProof, sign_checkpoint_proof}
use bas_relay_hub.Service.State.{Ref, Lru, LruLaws, State, alloc, merge_checkpoint_proof}
use bas_relay_hub.Service.State.Merge.{write_at_self}
use bas_relay_hub.Service.State.Unfound.{FindsNothing, merge_adds, merge-FindsNothing}
use bas_relay_hub.Service.Checkpointing.{meanwhile, sign_at, emit_signed}
use bas_relay_hub.Service.Checkpointing.Wait.{collect-IsAlone, IsAlone}

module _ {C : Type 0} (lru : Lru C) (laws : LruLaws lru) where
  pub alloc-IsAlone :
      (created : CheckpointProof) (s : State C)
      → FindsNothing lru s
      → IsAlone lru laws s.next_ref created (alloc created s).1
  unfolding alloc
  alloc-IsAlone created s nothing = record {
    nothing = nothing;
    allocated = omega arith;
    here = write_at_self s.proof_at s.next_ref created;
  }

  pub sign-IsAlone :
      (eth : Eth) (own : Ref) (key : PrivateKey) (proof : CheckpointProof) (s : State C)
      → IsAlone lru laws own proof s
      → IsAlone lru laws own (sign_checkpoint_proof eth proof key).0 (sign_at eth own key s).1
  unfolding sign_at
  sign-IsAlone eth own key proof s alone = record {
    nothing = alone.nothing;
    allocated = alone.allocated;
    here =
        write_at_self s.proof_at own (sign_checkpoint_proof eth (s.proof_at own) key).0
        ∙ ap (λ (p : CheckpointProof). (sign_checkpoint_proof eth p key).0) alone.here;
  }

  -- a proof that is merged stays the proof that the service holds
  pub merged-IsAlone :
      (own : Ref) (proof : CheckpointProof) (s : State C)
      → IsAlone lru laws own proof s
      → let (ref, s') = merge_checkpoint_proof lru own s in IsAlone lru laws ref proof s'
  merged-IsAlone own proof s alone =
      let merged = merge_adds lru laws s own alone.nothing in
      record {
        nothing = merge-FindsNothing lru laws s own alone.nothing;
        allocated = omega (
          arith,
          ap (λ (x : Ref × State C). x.0) merged,
          ap (λ (x : Ref × State C). x.1.next_ref) merged,
          alone.allocated,
        );
        here = ap (λ (x : Ref × State C). x.1.proof_at x.0) merged ∙ alone.here;
      }

  pub emit-IsAlone :
      (ref : Ref) (proof : CheckpointProof) (s : State C)
      → IsAlone lru laws ref proof s
      → IsAlone lru laws ref proof (emit_signed ref s).1
  unfolding emit_signed
  emit-IsAlone ref proof s alone = record {
    nothing = alone.nothing;
    allocated = alone.allocated;
    here = alone.here;
  }

  pub meanwhile-IsAlone :
      (received : List CheckpointProof) (ref : Ref) (proof : CheckpointProof) (s : State C)
      → IsAlone lru laws ref proof s
      → IsAlone lru laws ref proof (meanwhile lru received s).1
  unfolding meanwhile
  meanwhile-IsAlone received ref proof s = collect-IsAlone lru laws ref proof received s
