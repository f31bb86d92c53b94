-- ===== src/Tests/Checkpoints.antt =====
-- Checkpoint proofs and their signatures in the small world.
use mathlib.Core.Logic.{ite}
use bas_relay_hub.Prelude.{
  ℕ, ◌+◌, ◌%◌, ◌<◌, ◌≡◌, ◌≢◌, refl, true, not, none, some, [], ◌∷◌, if◌then◌else◌, Bytes-discrete,
}
use bas_relay_hub.Errors.{ok, err, panic, divide_by_zero, bad_epoch_block}
use bas_relay_hub.Eth.{Address}
use bas_relay_hub.Checkpoint.{
  CheckpointProof, signature_count, note_epoch_block, checkpoint_loop, create_checkpoint_proof,
  get_signature_or_nil, has_signature, sign_checkpoint_proof, add_signature,
}
use bas_relay_hub.Checkpoint.Blocks.{IsCheckpoint}
use bas_relay_hub.Checkpoint.Create.{create_checkpoint_proof-IsCheckpoint, checkpoint_refuses}
use bas_relay_hub.Checkpoint.Signatures.{kept_or, SameBlock, sign_keeps_first, add_replaces}
use bas_relay_hub.Tests.World.{alice, bob, world, client, trie}

abbrev pub first_checkpoint : CheckpointProof
first_checkpoint = record {
  epoch_number = 1;
  raw_epoch_block = 2 ∷ alice;
  block_hash = 2 ∷ [];
  checkpoint_hash = 3 ∷ 3 ∷ 2 ∷ 2 ∷ [];
  signatures = none;
}

pub first_checkpoint_made : create_checkpoint_proof world trie client 2 2 ≡ ok first_checkpoint
unfolding create_checkpoint_proof checkpoint_loop note_epoch_block
first_checkpoint_made = refl

create_checkpoint_proof-IsCheckpoint_example : IsCheckpoint world trie client 2 2 first_checkpoint
create_checkpoint_proof-IsCheckpoint_example =
    create_checkpoint_proof-IsCheckpoint world trie client 2 2 first_checkpoint_made

third_refused :
    (◌≡◌ {A = ℕ} 2 0 → create_checkpoint_proof world trie client 3 2 ≡ panic divide_by_zero)
    × (0 < 2 → 3 % 2 ≢ 0 → create_checkpoint_proof world trie client 3 2 ≡ err (bad_epoch_block 3))
third_refused = checkpoint_refuses world trie client 3 2

-- a proof that one relayer has signed
abbrev signed_once : CheckpointProof
signed_once = record first_checkpoint { signatures = some ((alice, 8 ∷ []) ∷ []) }

sign_keeps_first_example :
    let (proof', r) = sign_checkpoint_proof world signed_once alice in
    (r ≡ ok tt)
    × SameBlock proof' signed_once
    × (has_signature proof' alice ≡ true)
    × ((a : Address)
        → get_signature_or_nil proof' a
          ≡ ite
              (Bytes-discrete alice a)
              (some (kept_or (get_signature_or_nil signed_once alice) (9 ∷ alice)))
              (get_signature_or_nil signed_once a))
sign_keeps_first_example = sign_keeps_first world signed_once alice (9 ∷ alice) refl

add_replaces_example :
    let (proof', added) = add_signature signed_once bob (7 ∷ []) in
    SameBlock proof' signed_once
    × ((a : Address)
        → get_signature_or_nil proof' a
          ≡ ite (Bytes-discrete bob a) (some (7 ∷ [])) (get_signature_or_nil signed_once a))
    × (added ≡ not (has_signature signed_once bob))
    × (signature_count proof' ≡ signature_count signed_once + (if added then 1 else 0))
add_replaces_example = add_replaces signed_once bob (7 ∷ [])
