-- ===== src/Service/Checkpointing/Wait.antt =====
-- The wait for the quorum of signatures.
use bas_relay_hub.Prelude.{ℕ, ◌<◌, ◌≡◌, ap, ◌∙◌, List, [], ◌∷◌, arith, not-leb}
use bas_relay_hub.Errors.{err, context_done}
use bas_relay_hub.Checkpoint.{CheckpointProof, signature_count}
use bas_relay_hub.Service.State.{
  Ref, Lru, LruLaws, State, write_at, alloc, receive, collect_checkpoint_proofs_worker,
}
use bas_relay_hub.Service.State.Unfound.{FindsNothing, merge_adds, merge-FindsNothing}
use bas_relay_hub.Service.Checkpointing.{wait_for_quorum}

module _ {C : Type 0} (lru : Lru C) (laws : LruLaws lru) (ref : Ref) where
  -- a proof in the heap, in a service whose cache finds nothing
  pub record IsAlone (proof : CheckpointProof) (s : State C) : Type 0 where
    pub nothing : FindsNothing lru s
    pub allocated : ref < s.next_ref
    pub here : s.proof_at ref ≡ proof

  elsewhere :
      (f : Ref → CheckpointProof) (r : Ref) (p : CheckpointProof)
      → ref < r
      → write_at f r p ref ≡ f ref
  elsewhere f r p h = ground arith

  receive-IsAlone :
      (proof received : CheckpointProof) (s : State C)
      → IsAlone proof s
      → IsAlone proof (receive lru received s)
  unfolding receive alloc
  receive-IsAlone proof received s alone =
      let s' = (alloc received s).1 in
      let merged = merge_adds lru laws s' s.next_ref alone.nothing in
      record {
        nothing = merge-FindsNothing lru laws s' s.next_ref alone.nothing;
        allocated = omega (arith, ap (λ (x : Ref × State C). x.1.next_ref) merged);
        here =
            ap (λ (x : Ref × State C). x.1.proof_at ref) merged
            ∙ elsewhere s.proof_at s.next_ref received (omega arith)
            ∙ alone.here;
      }

  pub collect-IsAlone :
      (proof : CheckpointProof) (received : List CheckpointProof) (s : State C)
      → IsAlone proof s
      → IsAlone proof (collect_checkpoint_proofs_worker lru received s)
  unfolding collect_checkpoint_proofs_worker
  collect-IsAlone proof [] s alone = alone
  collect-IsAlone proof (p ∷ received) s alone =
      collect-IsAlone proof received (receive lru p s) (receive-IsAlone proof p s alone)

  -- Over a cache with the laws of golang-lru that finds nothing, a proof with too few signatures
  -- never gets another one: whatever the other relayers send, the wait goes on until the context
  -- is done.
  pub wait_times_out :
      (quorum : ℕ) (ticks : List (List CheckpointProof)) (proof : CheckpointProof) (s : State C)
      → IsAlone proof s
      → signature_count proof < quorum
      → (wait_for_quorum lru quorum ref ticks s).0 ≡ err context_done
  unfolding wait_for_quorum
  wait_times_out quorum [] proof s alone few =
      rw (alone.here, not-leb quorum (signature_count proof) few)
  wait_times_out quorum (received ∷ ticks) proof s alone few =
      rw (alone.here, not-leb quorum (signature_count proof) few)
        (wait_times_out quorum ticks proof (collect_checkpoint_proofs_worker lru received s)
          (collect-IsAlone proof received s alone) few)
