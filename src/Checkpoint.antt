-- ===== src/Checkpoint.antt =====
-- relayer/checkpoint.go: a checkpoint proof, its signatures, and how it is made from the blocks of an
-- epoch. Each method holds the proof's lock, so it is one step; a `nil` map is `none`.
pub mod Blocks
pub mod Create
pub mod Signatures
use mathlib.Core.Logic.{ite}
use bas_relay_hub.Prelude.{
  ℕ, zero, suc, ◌+◌, ◌-◌, ◌/◌, ◌%◌, Bool, true, false, not, replicate, Option, none, some, List, [],
  ◌∷◌, Bytes, length, ◌==◌, if◌then◌else◌, Bytes-discrete,
}
use bas_relay_hub.Prelude.Words.{add64, int64}
use bas_relay_hub.Prelude.Maps.{GoMap, insert, lookup}
use bas_relay_hub.Errors.{
  Result, ok, err, panic, wrapped, bad_epoch_block, divide_by_zero, fetch_block, encode_epoch_block,
  encode_path, ◌>>=◌,
}
use bas_relay_hub.Eth.{Address, Hash, PrivateKey, Header, Eth, Client}
use bas_relay_hub.Proof.{rounds}

pub record CheckpointProof : Type 0 where
  pub epoch_number : ℕ
  pub raw_epoch_block : Bytes
  pub block_hash : Hash
  pub checkpoint_hash : Hash
  pub signatures : Option (GoMap Address Bytes)

-- a map that may be `nil`, as reading sees it
abbrev pub entries : Option (GoMap Address Bytes) → GoMap Address Bytes
entries none = []
entries (some m) = m

-- `len(proof.signatures)`
abbrev pub signature_count : CheckpointProof → ℕ
signature_count proof = length (entries proof.signatures)

-- `trie.Trie` of go-ethereum, over an empty database
pub record TrieOps (T : Type 0) : Type 0 where
  pub new_empty : T
  pub update : T → Bytes → Bytes → T
  pub hash : T → Hash

-- the zero value of `common.Hash`
abbrev pub zero_hash : Hash
zero_hash = replicate 32 0

-- `result := &checkpointProof{epochNumber: …}`
abbrev pub new_proof : ℕ → CheckpointProof
new_proof epoch_number = record {
  epoch_number = epoch_number;
  raw_epoch_block = [];
  block_hash = zero_hash;
  checkpoint_hash = zero_hash;
  signatures = none;
}

-- what is written to the proof at the epoch block
unfoldable pub note_epoch_block : Eth → ℕ → ℕ → Header → CheckpointProof → Result CheckpointProof
note_epoch_block eth epoch_block i header result =
    if i == epoch_block
    then (do
      raw ← wrapped encode_epoch_block (eth.rlp_encode_header header)
      ok (record result { raw_epoch_block = raw; block_hash = eth.header_hash header }))
    else ok result

module _ {T : Type 0} (eth : Eth) (trie : TrieOps T) where
  -- the loop over the blocks of the epoch, `n` rounds from block `i` on
  unfoldable pub checkpoint_loop :
      Client → ℕ → ℕ → ℕ → T → CheckpointProof → Result (T × CheckpointProof)
  checkpoint_loop client epoch_block zero i t result = ok (t, result)
  checkpoint_loop client epoch_block (suc n) i t result = do
    header ← wrapped (fetch_block i) (client.block_by_number (int64 i))
    result' ← note_epoch_block eth epoch_block i header result
    path ← wrapped (encode_path i) (eth.rlp_encode_uint i)
    checkpoint_loop client epoch_block n (i + 1) (trie.update t path (eth.header_hash header))
        result'

  unfoldable pub create_checkpoint_proof : Client → ℕ → ℕ → Result CheckpointProof
  create_checkpoint_proof client epoch_block epoch_length =
      if epoch_length == 0
      then panic divide_by_zero
      else if epoch_block % epoch_length == 0
      then (do
        (t, result) ←
            checkpoint_loop client epoch_block (rounds epoch_block (add64 epoch_block epoch_length))
              epoch_block trie.new_empty (new_proof (epoch_block / epoch_length))
        ok (record result { checkpoint_hash = trie.hash t }))
      else err (bad_epoch_block epoch_block)

unfoldable pub get_signature_or_nil : CheckpointProof → Address → Option Bytes
get_signature_or_nil proof signer = lookup Bytes-discrete signer (entries proof.signatures)

-- `_, ok := proof.signatures[signer]`
abbrev pub is_some {ℓ} : {A : Type ℓ} → Option A → Bool
is_some none = false
is_some (some a) = true

unfoldable pub has_signature : CheckpointProof → Address → Bool
has_signature proof signer = is_some (lookup Bytes-discrete signer (entries proof.signatures))

-- the rest of `signCheckpointProof`, once the signature is made
unfoldable pub store_signature : CheckpointProof → Address → Bytes → CheckpointProof
unfolding has_signature
store_signature proof signer signature =
    let made = entries proof.signatures in
    if has_signature proof signer
    then record proof { signatures = some made }
    else record proof { signatures = some (insert Bytes-discrete signer signature made) }

-- the proof afterwards, and the error that is returned
unfoldable pub sign_checkpoint_proof :
    Eth → CheckpointProof → PrivateKey → CheckpointProof × Result (Unit {0})
sign_checkpoint_proof eth proof private_key = elim (eth.sign proof.checkpoint_hash private_key) [
  | ok signature ↦ (store_signature proof (eth.pubkey_to_address private_key) signature, ok tt)
  | err e ↦ (proof, err e)
  | panic p ↦ (proof, panic p)
]

-- the proof afterwards, and whether the signer is new
unfoldable pub add_signature : CheckpointProof → Address → Bytes → CheckpointProof × Bool
add_signature proof signer signature =
    let made = entries proof.signatures in
    (
      record proof { signatures = some (insert Bytes-discrete signer signature made) },
      not (is_some (lookup Bytes-discrete signer made)),
    )
