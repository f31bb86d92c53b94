-- ===== src/Service/State/Received.antt =====
-- What `collectCheckpointProofsWorker` makes of the proofs of other relayers.
use bas_relay_hub.Prelude.{ℕ, ◌+◌, ◌<◌, ◌≡◌, refl, ap, ◌∙◌, subst, List, [], ◌∷◌, length, arith}
use bas_relay_hub.Checkpoint.{CheckpointProof}
use bas_relay_hub.Service.State.{
  Ref, Lru, LruLaws, State, alloc, receive, collect_checkpoint_proofs_worker,
}
use bas_relay_hub.Service.State.Merge.{write_at_other, write_at_self}
use bas_relay_hub.Service.State.Unfound.{FindsNothing, merge_adds, merge-FindsNothing}

-- the proofs that stand from a pointer on
abbrev pub Holds : (Ref → CheckpointProof) → Ref → List CheckpointProof → Type 0
Holds proof_at r [] = Unit
Holds proof_at r (p ∷ ps) = (proof_at r ≡ p) × Holds proof_at (r + 1) ps

module _ {C : Type 0} (lru : Lru C) (laws : LruLaws lru) where
  -- a state in which some proofs were added to those of another
  pub record IsExtended (s : State C) (proofs : List CheckpointProof) (t : State C) : Type 0 where
    pub nothing : FindsNothing lru t
    pub grown : t.next_ref ≡ s.next_ref + length proofs
    pub kept : (r : Ref) → r < s.next_ref → t.proof_at r ≡ s.proof_at r
    pub holds : Holds t.proof_at s.next_ref proofs

  pub receive-IsExtended :
      (s : State C) (proof : CheckpointProof)
      → FindsNothing lru s
      → IsExtended s (proof ∷ []) (receive lru proof s)
  unfolding receive alloc
  receive-IsExtended s proof nothing =
      let s' = (alloc proof s).1 in
      let adds = merge_adds lru laws s' s.next_ref nothing in
      record {
        nothing = merge-FindsNothing lru laws s' s.next_ref nothing;
        grown = ap (λ (x : Ref × State C). x.1.next_ref) adds;
        kept = λ r old.
            ap (λ (x : Ref × State C). x.1.proof_at r) adds
            ∙ write_at_other s.proof_at s.next_ref r proof (λ e. omega (arith, e, old));
        holds = (
          ap (λ (x : Ref × State C). x.1.proof_at s.next_ref) adds
              ∙ write_at_self s.proof_at s.next_ref proof,
          tt,
        );
      }

  pub collect-IsExtended :
      (s : State C) (proofs : List CheckpointProof)
      → FindsNothing lru s
      → IsExtended s proofs (collect_checkpoint_proofs_worker lru proofs s)
  unfolding collect_checkpoint_proofs_worker
  collect-IsExtended s [] nothing = record {
    nothing = nothing;
    grown = omega arith;
    kept = λ r old. refl;
    holds = tt;
  }
  collect-IsExtended s (proof ∷ proofs) nothing =
      let first = receive-IsExtended s proof nothing in
      let rest = collect-IsExtended (receive lru proof s) proofs first.nothing in
      record {
        nothing = rest.nothing;
        grown = omega (arith, rest.grown, first.grown);
        kept = λ r old. rest.kept r (omega (arith, first.grown, old)) ∙ first.kept r old;
        holds = (
          rest.kept s.next_ref (omega (arith, first.grown)) ∙ first.holds.0,
          subst
              (λ (n : ℕ).
                Holds (collect_checkpoint_proofs_worker lru proofs (receive lru proof s)).proof_at n
                  proofs)
              first.grown rest.holds,
        );
      }
