-- ===== src/Tests/System.antt =====
-- Runs of the service in the small world.
use bas_relay_hub.Prelude.{ℕ, ◌≤◌, ◌≡◌, ◌≢◌, Bool, true, false, some, [], ◌∷◌, arith}
use bas_relay_hub.Checkpoint.{signature_count}
use bas_relay_hub.Service.State.{Ref, new_relay_service, alloc, receive}
use bas_relay_hub.Service.Checkpointing.{create_checkpoint_transition}
use bas_relay_hub.Service.System.{
  Pc, idle, made, make, sending, System, work, collect, Steps, here, next, set_pc,
}
use bas_relay_hub.Service.System.Keeps.{Kept, proofs-Kept}
use bas_relay_hub.Service.System.Invariant.{held}
use bas_relay_hub.Service.System.Safety.{workers_alone}
use bas_relay_hub.Service.System.Sequential.{at, transition_runs}
use bas_relay_hub.Errors.{ok}
use bas_relay_hub.Service.Worker.{epoch_worker}
use bas_relay_hub.Service.Worker.Runs.{epoch_worker_runs}
use bas_relay_hub.Tests.Transitions.{round_at}
use bas_relay_hub.Tests.World.{encode, bob, world, client, node, trie, Cache, cache, cache_laws}
use bas_relay_hub.Tests.Checkpoints.{first_checkpoint, first_checkpoint_made}
use bas_relay_hub.Tests.Shared.{fresh, signed_by, crowded, answers, at_points}

abbrev pub all_idle : Bool → Pc
all_idle i = idle

-- the proof of another relayer is merged into one of the service
proofs-Kept_example : Kept ((receive cache (signed_by bob) crowded).proof_at 0) (crowded.proof_at 0)
proofs-Kept_example =
    proofs-Kept cache world trie bob {a = record { shared = crowded; pc = all_idle }}
      (next here (collect (signed_by bob))) 0 (omega arith)

-- one worker makes a checkpoint proof, the other is idle
abbrev one_made : System Cache
one_made = record { shared = (alloc first_checkpoint fresh).1; pc = set_pc all_idle true (made 0) }

workers_alone_example :
    ((i : Bool) (r : Ref) (quorum : ℕ) → one_made.pc i ≡ sending r quorum → quorum ≤ 1)
    × ((i : Bool) (r : Ref)
        → held (one_made.pc i) ≡ some r
        → signature_count (one_made.shared.proof_at r) ≤ 1)
    × ((r r' : Ref)
        → held (one_made.pc true) ≡ some r
        → held (one_made.pc false) ≡ some r'
        → r ≢ r')
unfolding new_relay_service alloc
workers_alone_example =
    workers_alone cache cache_laws world trie bob {a = one_made}
      (next here (work true (make client 2 2 first_checkpoint first_checkpoint_made)))

one_transition :
    Steps cache world trie
      (node true 0).config.relayer.private_key
      (at cache world trie (node true 0) all_idle true fresh idle)
      (at cache world trie
        (node true 0)
        all_idle
        true
        (create_checkpoint_transition cache world trie at_points answers
          (λ k. true)
          (node true 0)
          (node true 0)
          2
          0
          fresh).1
        idle)
one_transition =
    transition_runs cache world trie (node true 0) all_idle true at_points answers (λ k. true)
      (node true 0) 2 0 fresh

-- the worker is told of block 8 and tries a checkpoint transition of block 2
worker_run :
    Steps cache world trie
      (node true 0).config.relayer.private_key
      (at cache world trie (node true 0) all_idle true fresh idle)
      (at cache world trie
        (node true 0)
        all_idle
        true
        (epoch_worker cache world trie encode
          (node true 0)
          (node true 0)
          (ok 0)
          90
          (round_at 8 100 ∷ [])
          fresh).1
        idle)
worker_run =
    epoch_worker_runs cache world trie encode (node true 0) (node true 0) all_idle true (ok 0) 90
      (round_at 8 100 ∷ []) fresh
