-- ===== src/Service/State.antt =====
-- The shared state of `RelayService` (relayer/service.go): the checkpoint proofs, which several
-- goroutines hold by pointer, the cache that finds them, and the proofs announced as signed.
-- `findCheckpointProof` and `mergeCheckpointProof` hold the service's lock, so each is one step.
pub mod Merge
pub mod Unfound
pub mod Received
use mathlib.Core.Logic.{ite}
use bas_relay_hub.Prelude.{
  ℕ, ◌+◌, ◌≡◌, ◌≢◌, Bool, Option, none, some, List, [], ◌∷◌, ◌++◌, Bytes, ◌==◌, if◌then◌else◌,
}
use bas_relay_hub.Prelude.Maps.{GoMap}
use bas_relay_hub.Eth.{Address, Hash}
use bas_relay_hub.Checkpoint.{CheckpointProof, entries, new_proof, add_signature}

-- `*checkpointProof`
abbrev pub Ref : Type 0
Ref = ℕ

-- The keys of the cache are of type `interface{}`: a `uint64` and a `common.Hash` differ always.
pub data Key : Type 0 where
  epoch_key : ℕ → Key
  hash_key : Hash → Key

-- `lru.Cache` of hashicorp/golang-lru; `get` may change which entry is dropped next.
pub record Lru (C : Type 0) : Type 0 where
  pub new : ℕ → C
  pub get : C → Key → Option Ref × C
  pub add : C → Key → Ref → C

-- What golang-lru documents: a new cache is empty, `Get` keeps the entries, and `Add` makes no entry
-- under any other key (it may drop some).
pub record LruLaws {C : Type 0} (lru : Lru C) : Type 0 where
  pub get-new : (n : ℕ) (k : Key) → (lru.get (lru.new n) k).0 ≡ none
  pub get-get : (c : C) (j k : Key) → (lru.get (lru.get c j).1 k).0 ≡ (lru.get c k).0
  pub get-add :
      (c : C) (j k : Key) (v : Ref)
      → j ≢ k
      → (lru.get c k).0 ≡ none
      → (lru.get (lru.add c j v) k).0 ≡ none

pub record State (C : Type 0) : Type 0 where
  -- the next pointer that an allocation returns
  pub next_ref : Ref
  pub proof_at : Ref → CheckpointProof
  pub proofs_map : C
  -- the pointers that `checkpointProofSigned` was emitted with
  pub signed_events : List Ref

abbrev pub write_at : (Ref → CheckpointProof) → Ref → CheckpointProof → Ref → CheckpointProof
write_at proofs r p q = if r == q then p else proofs q

-- `&checkpointProof{…}`
unfoldable pub alloc : {C : Type 0} → CheckpointProof → State C → Ref × State C
alloc proof s = (
  s.next_ref,
  record s { next_ref = s.next_ref + 1; proof_at = write_at s.proof_at s.next_ref proof },
)

-- the loop over the signatures of the proof that is merged; what it logs is not modelled
unfoldable pub merge_signatures : GoMap Address Bytes → CheckpointProof → CheckpointProof
merge_signatures [] existing = existing
merge_signatures ((signer, signature) ∷ rest) existing =
    merge_signatures rest (add_signature existing signer signature).0

module _ {C : Type 0} (lru : Lru C) where
  -- `NewRelayService`
  unfoldable pub new_relay_service : State C
  new_relay_service = record {
    next_ref = 0;
    proof_at = λ r. new_proof 0;
    proofs_map = lru.new 1000;
    signed_events = [];
  }

  unfoldable pub find_checkpoint_proof : Hash → State C → Option Ref × State C
  find_checkpoint_proof checkpoint_hash s =
      let (found, proofs_map) = lru.get s.proofs_map (hash_key checkpoint_hash) in
      (found, record s { proofs_map = proofs_map })

  -- the rest of `mergeCheckpointProof`, once the cache has answered
  unfoldable pub merge_into : Ref → Option Ref → State C → Ref × State C
  merge_into ref none s = (
    ref,
    record s { proofs_map = lru.add s.proofs_map (epoch_key (s.proof_at ref).epoch_number) ref },
  )
  merge_into ref (some existing) s = (
    existing,
    record s {
      proof_at =
          write_at s.proof_at existing
            (merge_signatures (entries (s.proof_at ref).signatures) (s.proof_at existing));
    },
  )

  unfoldable pub merge_checkpoint_proof : Ref → State C → Ref × State C
  merge_checkpoint_proof ref s =
      let (existing, proofs_map) =
        lru.get s.proofs_map (hash_key (s.proof_at ref).checkpoint_hash) in
      merge_into ref existing (record s { proofs_map = proofs_map })

  -- `collectCheckpointProofsWorker`: a proof from a peer is put into the heap and merged
  unfoldable pub receive : CheckpointProof → State C → State C
  receive proof s = let (ref, s') = alloc proof s in (merge_checkpoint_proof ref s').1

  unfoldable pub collect_checkpoint_proofs_worker : List CheckpointProof → State C → State C
  collect_checkpoint_proofs_worker [] s = s
  collect_checkpoint_proofs_worker (proof ∷ events) s =
      collect_checkpoint_proofs_worker events (receive proof s)
