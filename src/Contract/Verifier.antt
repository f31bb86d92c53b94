-- ===== src/Contract/Verifier.antt =====
-- contracts/verifiers/ParliaBlockVerifier.sol: how the hub contract verifies a list of blocks. The function
-- that parses one block and recovers its signer is virtual (a precompiled contract overrides it), and is
-- a parameter here.
pub mod Transition
pub mod Updates
pub mod Reset
pub mod Relayed
pub mod Relays
pub mod Prefix
pub mod Honest
use bas_relay_hub.Prelude.{
  ℕ, zero, suc, ◌/◌, ◌%◌, List, [], ◌∷◌, Bytes, replicate, Bool, ◌==◌, Bytes-discrete,
}
use mathlib.Core.Bool.{true, false}
use mathlib.Core.Logic.{ite}
use bas_relay_hub.Errors.{Result, ok, ◌>>=◌, ◌>>◌}
use bas_relay_hub.Eth.{Address, Hash}
use bas_relay_hub.Contract.Chains.{
  BlockHeader, Checker, ProofVerificationFunction, require, div_checked, rem_checked,
}

-- `_parseAndVerifyPoSaBlockHeader`: the header of a block of a chain, and the validators of an epoch block
abbrev pub ParseBlock : Type 0
ParseBlock = ℕ → Bytes → ℕ → Result (BlockHeader × List Address)

-- `firstBlock` before the loop
abbrev pub zero_header : BlockHeader
zero_header = record {
  block_hash = replicate 32 0;
  parent_hash = replicate 32 0;
  block_number = 0;
  coinbase = replicate 20 0;
  receipts_root = replicate 32 0;
  txs_root = replicate 32 0;
  state_root = replicate 32 0;
}

-- the quorum of the epoch before is checked, for every epoch but the first
unfoldable pub check_quorum : Checker → ℕ → List Address → ℕ → Result (Unit {0})
check_quorum checker chain_id block_validators zero = ok tt
check_quorum checker chain_id block_validators (suc epoch_before) = do
  reached ← checker chain_id block_validators epoch_before
  require reached

module _ (parse : ParseBlock) (chain_id epoch_length : ℕ) where
  -- the loop from the second block on: the signers, where each block is the child of the one before
  unfoldable pub verify_children : Hash → List Bytes → Result (List Address)
  verify_children parent_hash [] = ok []
  verify_children parent_hash (block_proof ∷ block_proofs) = do
    parsed ← parse chain_id block_proof epoch_length
    require (ite (Bytes-discrete parsed.0.parent_hash parent_hash) true false)
    signers ← verify_children parsed.0.block_hash block_proofs
    ok (parsed.0.coinbase ∷ signers)

  -- the loop: the first block with its validators, and the signers of all
  unfoldable pub verify_blocks : List Bytes → Result (BlockHeader × List Address × List Address)
  verify_blocks [] = ok (zero_header, [], [])
  verify_blocks (block_proof ∷ block_proofs) = do
    parsed ← parse chain_id block_proof epoch_length
    signers ← verify_children parsed.0.block_hash block_proofs
    ok (parsed.0, parsed.1, parsed.0.coinbase ∷ signers)

  -- `_verifyBlocksAndReachedQuorum`
  unfoldable pub verify_blocks_and_reached_quorum :
      List Bytes → Checker → Result (BlockHeader × List Address)
  verify_blocks_and_reached_quorum block_proofs checker = do
    verified ← verify_blocks block_proofs
    epoch_number ← div_checked verified.0.block_number epoch_length
    check_quorum checker chain_id verified.2 epoch_number
    ok (verified.0, verified.1)

  unfoldable pub verify_validator_transition_of : List Bytes → Checker → Result (List Address × ℕ)
  verify_validator_transition_of block_proofs checker = do
    verified ← verify_blocks_and_reached_quorum block_proofs checker
    rest ← rem_checked verified.0.block_number epoch_length
    require (rest == 0)
    epoch_number ← div_checked verified.0.block_number epoch_length
    ok (verified.1, epoch_number)

-- the contract; `verify_proof` is `MerklePatriciaProof.verify` on the hash of a receipt
abbrev pub parlia_block_verifier :
    ParseBlock → (Bytes → Hash → Bytes → Bytes → Result Bool) → ProofVerificationFunction
parlia_block_verifier parse verify_proof = record {
  verify_block_without_quorum = λ chain_id raw_block epoch_length. do
    parsed ← parse chain_id raw_block epoch_length
    ok (parsed.0.block_hash, parsed.1, parsed.0.block_number);
  verify_validator_transition = λ chain_id block_proofs epoch_length checker.
      verify_validator_transition_of parse chain_id epoch_length block_proofs checker;
  verify_block_and_reached_quorum = λ chain_id block_proofs epoch_length checker. do
    verified ← verify_blocks_and_reached_quorum parse chain_id epoch_length block_proofs checker
    ok verified.0;
  check_receipt_proof = verify_proof;
}
