-- ===== src/Tests/Shared.antt =====
-- The state that the goroutines share, in the small world.
use bas_relay_hub.Prelude.{
  ℕ, ◌-◌, ◌<◌, ◌≡◌, refl, Bool, true, false, none, some, List, [], ◌∷◌, arith, ◌==◌, if◌then◌else◌,
  Bytes-discrete,
}
use bas_relay_hub.Prelude.Words.{word}
use bas_relay_hub.Prelude.Maps.{insert}
use bas_relay_hub.Errors.{ok, err, not_mined, context_done}
use bas_relay_hub.Eth.{Address, Hash}
use bas_relay_hub.Common.{wait_tx_to_be_mined}
use bas_relay_hub.Common.Mining.{wait_lem}
use bas_relay_hub.Parlia.{copy_address, extract_loop, extract_parlia_validators}
use bas_relay_hub.Slices.{slice_upto}
use bas_relay_hub.Checkpoint.{CheckpointProof, new_proof}
use bas_relay_hub.Proof.{calc_required_quorum_for_next_epoch}
use bas_relay_hub.Service.State.{
  Ref, State, new_relay_service, find_checkpoint_proof, merge_checkpoint_proof,
}
use bas_relay_hub.Service.State.Unfound.{start, never_merges}
use bas_relay_hub.Service.Checkpointing.{wait_for_quorum, create_checkpoint_transition}
use bas_relay_hub.Service.Checkpointing.Wait.{wait_times_out}
use bas_relay_hub.Service.Checkpointing.Quorum.{never_reaches_quorum}
use bas_relay_hub.Service.Fetcher.{
  fetch_tick, latest_block_fetcher, Rises, latest_block_fetcher-Rises, unconfirmed_wraps,
}
use bas_relay_hub.Tests.World.{alice, bob, carol, world, node, trie, Cache, cache, cache_laws}

abbrev pub fresh : State Cache
fresh = new_relay_service cache

abbrev pub signed_by : Address → CheckpointProof
signed_by a = record (new_proof 1) {
  checkpoint_hash = 5 ∷ [];
  signatures = some ((a, 4 ∷ []) ∷ []);
}

-- three proofs of one checkpoint in the heap, the first of them under its hash in the cache
abbrev pub crowded : State Cache
crowded = record {
  next_ref = 3;
  proof_at = λ r. signed_by (if r == 0 then alice else if r == 1 then bob else carol);
  proofs_map = λ k. some 0;
  signed_events = [];
}

-- a service that holds one proof, with one signature, and finds nothing
abbrev lonely : State Cache
lonely = record {
  next_ref = 1;
  proof_at = λ r. signed_by alice;
  proofs_map = λ k. none;
  signed_events = [];
}

never_merges_example :
    ((h : Hash) → (find_checkpoint_proof cache h fresh).0 ≡ none)
    × ((ref : Ref)
        → ((merge_checkpoint_proof cache ref fresh).0 ≡ ref)
          × ((merge_checkpoint_proof cache ref fresh).1.proof_at ≡ fresh.proof_at))
never_merges_example = never_merges cache cache_laws start

-- two more relayers send their signatures in two ticks
abbrev pub answers : List (List CheckpointProof)
answers = (signed_by bob ∷ []) ∷ (signed_by carol ∷ []) ∷ []

lonely_wait : (wait_for_quorum cache 2 0 answers lonely).0 ≡ err context_done
lonely_wait =
    wait_times_out cache cache_laws 0 2 answers (signed_by alice) lonely
      (record { nothing = λ h. refl; allocated = omega arith; here = refl }) (omega arith)

quorum_of_three : calc_required_quorum_for_next_epoch world (node true 0) 2 ≡ ok 2
unfolding calc_required_quorum_for_next_epoch extract_parlia_validators slice_upto extract_loop
    copy_address insert Bytes-discrete
quorum_of_three = refl

abbrev pub at_points : ℕ → List CheckpointProof
at_points k = signed_by bob ∷ []

never_reaches_quorum_example : ¬ (
    (create_checkpoint_transition cache world trie at_points answers
      (λ k. true)
      (node true 0)
      (node true 0)
      2
      0
      fresh).0
    ≡ ok tt)
never_reaches_quorum_example =
    never_reaches_quorum cache cache_laws world trie (node true 0) (node true 0) 2 0 at_points
      answers (λ k. true) fresh 2 start quorum_of_three (omega arith)

abbrev mined_third : ℕ → Bool
mined_third k = k == 2

wait_lem_example :
    ((k : ℕ) → k < 30 → mined_third k ≡ true → wait_tx_to_be_mined mined_third (1 ∷ []) ≡ ok tt)
    × (((k : ℕ) → k < 30 → mined_third k ≡ false)
        → wait_tx_to_be_mined mined_third (1 ∷ []) ≡ err (not_mined (1 ∷ [])))
wait_lem_example = wait_lem mined_third (1 ∷ [])

latest_block_fetcher-Rises_example :
    Rises 12 0 (latest_block_fetcher 12 0 (some 20 ∷ none ∷ some 18 ∷ some 25 ∷ []))
latest_block_fetcher-Rises_example =
    latest_block_fetcher-Rises 12 0 (some 20 ∷ none ∷ some 18 ∷ some 25 ∷ []) (
      (omega arith, omega arith),
      (tt, ((omega arith, omega arith), ((omega arith, omega arith), tt))),
    )

unconfirmed_wraps_example :
    (fetch_tick 12 0 (some 5) ≡ (5, some (word - (12 - 5)))) × (5 < word - (12 - 5))
unconfirmed_wraps_example = unconfirmed_wraps 12 0 5 (omega arith) (omega arith) (omega arith)
