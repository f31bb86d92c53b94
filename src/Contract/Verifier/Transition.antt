-- ===== src/Contract/Verifier/Transition.antt =====
-- What a list of blocks that is verified gives.
use bas_relay_hub.Prelude.{ℕ, ◌/◌, ◌%◌, ◌≡◌, ◌≢◌, refl, ap, ◌∙◌, List, Bytes}
use bas_relay_hub.Errors.{ok}
use bas_relay_hub.Eth.{Address}
use bas_relay_hub.Contract.Chains.{BlockHeader, Checker, div_checked}
use bas_relay_hub.Contract.Verifier.{
  ParseBlock, check_quorum, verify_blocks, verify_blocks_and_reached_quorum,
  verify_validator_transition_of,
}
use bas_relay_hub.Contract.Chains.Accepts.{div_checked-ok, rem_checked-ok}

module _ (parse : ParseBlock) (chain_id epoch_length : ℕ) (some_blocks : epoch_length ≢ 0) where
  -- the blocks are parsed, the first begins an epoch, and the quorum is reached
  pub transition-ok :
      (block_proofs : List Bytes) (check : Checker) (first : BlockHeader)
      (validators signers : List Address) (epoch_number : ℕ)
      → verify_blocks parse chain_id epoch_length block_proofs ≡ ok (first, validators, signers)
      → first.block_number % epoch_length ≡ 0
      → first.block_number / epoch_length ≡ epoch_number
      → check_quorum check chain_id signers epoch_number ≡ ok tt
      → verify_validator_transition_of parse chain_id epoch_length block_proofs check
        ≡ ok (validators, epoch_number)
  unfolding verify_validator_transition_of verify_blocks_and_reached_quorum
  transition-ok block_proofs check first validators signers epoch_number parsed begins epoch
        quorum =
      let divided : div_checked first.block_number epoch_length ≡ ok epoch_number =
        div_checked-ok first.block_number epoch_length some_blocks ∙ ap ok epoch in
      rw
        (
          parsed,
          divided,
          quorum,
          rem_checked-ok first.block_number epoch_length some_blocks,
          begins,
          divided,
        )
        refl
