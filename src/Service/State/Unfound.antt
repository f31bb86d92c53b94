-- ===== src/Service/State/Unfound.antt =====
-- The cache of checkpoint proofs is written under epoch numbers and read under checkpoint hashes.
use bas_relay_hub.Prelude.{ℕ, ◌≡◌, ◌≢◌, ap, ◌∙◌, none, List}
use bas_relay_hub.Eth.{Hash}
use bas_relay_hub.Checkpoint.{CheckpointProof}
use bas_relay_hub.Service.State.{
  Ref, epoch_key, hash_key, Lru, LruLaws, State, new_relay_service, find_checkpoint_proof,
  merge_into, merge_checkpoint_proof,
}

module _ {C : Type 0} (lru : Lru C) where
  -- The states of the cache that a service can come to: it is new, it was searched, or a proof was
  -- merged; between these steps any goroutine may write to the proofs.
  pub data Reachable : State C → Type 0 where
    start : Reachable (new_relay_service lru)
    found : {s : State C} (h : Hash) → Reachable s → Reachable (find_checkpoint_proof lru h s).1
    merged :
        {s : State C} (ref : Ref) → Reachable s → Reachable (merge_checkpoint_proof lru ref s).1
    written :
        {s : State C} (next_ref : Ref) (proof_at : Ref → CheckpointProof) (signed_events : List Ref)
        → Reachable s
        → Reachable
            (record s { next_ref = next_ref; proof_at = proof_at; signed_events = signed_events })

  -- no hash finds anything
  abbrev pub FindsNothing : State C → Type 0
  FindsNothing s = (h : Hash) → (lru.get s.proofs_map (hash_key h)).0 ≡ none

module _ {C : Type 0} (lru : Lru C) (laws : LruLaws lru) where
  abbrev searched : State C → Hash → C
  searched s h = (lru.get s.proofs_map (hash_key h)).1

  still_nothing :
      (s : State C) (h : Hash)
      → FindsNothing lru s
      → (k : Hash) → (lru.get (searched s h) (hash_key k)).0 ≡ none
  still_nothing s h nothing k = laws.get-get s.proofs_map (hash_key h) (hash_key k) ∙ nothing k

  epoch_key-ne-hash_key : (n : ℕ) (h : Hash) → epoch_key n ≢ hash_key h
  epoch_key-ne-hash_key n h e = cc

  -- merging into a cache that finds nothing adds the proof and changes no proof
  pub merge_adds :
      (s : State C) (ref : Ref)
      → FindsNothing lru s
      → merge_checkpoint_proof lru ref s ≡ (
        ref,
        record s {
          proofs_map =
              lru.add
                (searched s (s.proof_at ref).checkpoint_hash)
                (epoch_key (s.proof_at ref).epoch_number)
                ref;
        },
      )
  unfolding merge_checkpoint_proof merge_into
  merge_adds s ref nothing = rw (nothing (s.proof_at ref).checkpoint_hash, merge_into)

  pub merge-FindsNothing :
      (s : State C) (ref : Ref)
      → FindsNothing lru s
      → FindsNothing lru (merge_checkpoint_proof lru ref s).1
  merge-FindsNothing s ref nothing h = rw (merge_adds s ref nothing) (
      laws.get-add (searched s (s.proof_at ref).checkpoint_hash)
        (epoch_key (s.proof_at ref).epoch_number) (hash_key h) ref
        (epoch_key-ne-hash_key (s.proof_at ref).epoch_number h)
        (still_nothing s (s.proof_at ref).checkpoint_hash nothing h))

  pub Reachable-FindsNothing : {s : State C} → Reachable lru s → FindsNothing lru s
  unfolding new_relay_service find_checkpoint_proof
  Reachable-FindsNothing start h = laws.get-new 1000 (hash_key h)
  Reachable-FindsNothing (found {s} k r) h = still_nothing s k (Reachable-FindsNothing r) h
  Reachable-FindsNothing (merged {s} ref r) h =
      merge-FindsNothing s ref (Reachable-FindsNothing r) h
  Reachable-FindsNothing (written next_ref proof_at signed_events r) h = Reachable-FindsNothing r h

  -- Over a cache with the laws of golang-lru, in every state that the service can come to,
  -- `findCheckpointProof` finds no proof for any hash, and `mergeCheckpointProof` returns the
  -- proof that it is given and merges no signature: no proof changes.
  pub never_merges :
      {s : State C}
      → Reachable lru s
      → ((h : Hash) → (find_checkpoint_proof lru h s).0 ≡ none)
        × ((ref : Ref)
            → ((merge_checkpoint_proof lru ref s).0 ≡ ref)
              × ((merge_checkpoint_proof lru ref s).1.proof_at ≡ s.proof_at))
  unfolding find_checkpoint_proof
  never_merges {s} r =
      let nothing = Reachable-FindsNothing r in
      (
        nothing,
        λ ref. (
          ap (λ (x : Ref × State C). x.0) (merge_adds s ref nothing),
          ap (λ (x : Ref × State C). x.1.proof_at) (merge_adds s ref nothing),
        ),
      )
