-- ===== src/Checkpoint/Blocks.antt =====
-- What a checkpoint proof stands for: the blocks of one whole epoch, and the trie of their hashes
-- under the RLP of their numbers.
use bas_relay_hub.Prelude.{ℕ, ◌+◌, ◌/◌, ◌%◌, ◌<◌, ◌≡◌, none, List, [], ◌∷◌, Bytes, length}
use bas_relay_hub.Prelude.Words.{add64, int64}
use bas_relay_hub.Errors.{ok}
use bas_relay_hub.Eth.{Header, Eth, Client}
use bas_relay_hub.Proof.{rounds}
use bas_relay_hub.Checkpoint.{CheckpointProof, zero_hash, TrieOps}

-- the node has the headers, as consecutive blocks from `i` on, and the paths are the block numbers
pub data Blocks (eth : Eth) (client : Client) : ℕ → List Header → List Bytes → Type 0 where
  end : {i : ℕ} → Blocks eth client i [] []
  next :
      {i : ℕ} {h : Header} {path : Bytes} {hs : List Header} {paths : List Bytes}
      → client.block_by_number (int64 i) ≡ ok h
      → eth.rlp_encode_uint i ≡ ok path
      → Blocks eth client (i + 1) hs paths
      → Blocks eth client i (h ∷ hs) (path ∷ paths)

-- the trie with the hash of each block written under its path
abbrev pub fill : {T : Type 0} → Eth → TrieOps T → T → List Header → List Bytes → T
fill eth trie t (h ∷ hs) (path ∷ paths) =
    fill eth trie (trie.update t path (eth.header_hash h)) hs paths
fill eth trie t _ _ = t

-- the proof shows the first of the blocks
abbrev pub ShowsFirst : Eth → CheckpointProof → List Header → Type 0
ShowsFirst eth proof [] = (proof.raw_epoch_block ≡ []) × (proof.block_hash ≡ zero_hash)
ShowsFirst eth proof (h ∷ hs) =
    (eth.rlp_encode_header h ≡ ok proof.raw_epoch_block) × (proof.block_hash ≡ eth.header_hash h)

pub record IsCheckpoint {T : Type 0} (eth : Eth) (trie : TrieOps T) (client : Client)
    (epoch_block epoch_length : ℕ) (proof : CheckpointProof) : Type 0 where
  pub positive : 0 < epoch_length
  pub aligned : epoch_block % epoch_length ≡ 0
  pub headers : List Header
  pub paths : List Bytes
  pub blocks : Blocks eth client epoch_block headers paths
  pub whole : length headers ≡ rounds epoch_block (add64 epoch_block epoch_length)
  pub hashed : proof.checkpoint_hash ≡ trie.hash (fill eth trie trie.new_empty headers paths)
  pub numbered : proof.epoch_number ≡ epoch_block / epoch_length
  pub first : ShowsFirst eth proof headers
  pub unsigned : proof.signatures ≡ none
