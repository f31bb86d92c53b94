-- ===== src/Contract/Verifier/Reset.antt =====
-- The empty list of blocks, which has no quorum to reach.
use bas_relay_hub.Prelude.{
  ℕ, suc, ◌/◌, ◌%◌, ◌<◌, ◌≡◌, refl, ap, ◌∙◌, Bool, true, List, [], ◌∷◌, Bytes, arith, subst, sym,
}
use bas_relay_hub.Prelude.Words.{word}
use bas_relay_hub.Errors.{Result, ok, ◌>>=◌}
use bas_relay_hub.Eth.{Address, Hash}
use bas_relay_hub.Contract.{
  AddressSetOps, AddressSetLaws, ValidatorHistory, count_validator, count_loop,
  check_validators_and_quorum_reached,
}
use bas_relay_hub.Contract.Update.{write_epoch}
use bas_relay_hub.Contract.Update.Succeeds.{BucketsFit}
use bas_relay_hub.Contract.Chains.{BlockHeader, ProofVerificationFunction, Bas, RelayHubState}
use bas_relay_hub.Contract.Chains.Epochs.{update_validator_set}
use bas_relay_hub.Contract.Verifier.{
  ParseBlock, zero_header, check_quorum, verify_children, verify_blocks,
}
use bas_relay_hub.Contract.Verifier.Updates.{
  VerifiesParlia, after_update, IsAt, after_update-IsAt, after_update-chain,
  after_update-VerifiesParlia, verified_updates,
}

module _ {S : Type 0} (set : AddressSetOps S) (laws : AddressSetLaws set) where
  -- an outsider is skipped, and no validator is a quorum of none
  no_quorum_needed :
      (history : ValidatorHistory S) (epoch_number : ℕ) (a : Address)
      → set.index history.all_validators a ≡ 0
      → history.validator_count epoch_number ≡ 0
      → check_validators_and_quorum_reached set history epoch_number (a ∷ []) ≡ ok true
  unfolding check_validators_and_quorum_reached count_loop count_validator
  no_quorum_needed history epoch_number a outsider nobody = rw (outsider, nobody) refl

module _ {S : Type 0} (set : AddressSetOps S) (laws : AddressSetLaws set) (parse : ParseBlock)
    (verify_proof : Bytes → Hash → Bytes → Bytes → Result Bool)
    (default : ProofVerificationFunction) (chain_id : ℕ) where
  module _ (s : RelayHubState S)
      (chain : VerifiesParlia set laws parse verify_proof default chain_id s) where
    -- the state after a call with no block
    abbrev reset : RelayHubState S
    reset = after_update set laws parse verify_proof default chain_id s [] 0

    empty_resets : update_validator_set set default chain_id [] s ≡ ok reset
    unfolding verify_blocks check_quorum
    empty_resets =
        verified_updates set laws parse verify_proof default chain_id s [] zero_header [] [] 0 chain
          refl (omega (arith, chain.some_blocks)) (omega (arith, chain.some_blocks)) refl
          (ground arith) (omega arith)

  -- a chain without a latest epoch takes the validators of a block that an outsider has sealed
  seizes :
      (s : RelayHubState S) (raw_block : Bytes) (header : BlockHeader) (validators : List Address)
      (epoch_before : ℕ)
      → VerifiesParlia set laws parse verify_proof default chain_id s
      → parse chain_id raw_block (s.registered_chains chain_id).epoch_length
        ≡ ok (header, validators)
      → set.index (s.validator_histories chain_id).all_validators header.coinbase ≡ 0
      → (s.validator_histories chain_id).latest_known_epoch ≡ 0
      → header.block_number % (s.registered_chains chain_id).epoch_length ≡ 0
      → header.block_number / (s.registered_chains chain_id).epoch_length ≡ suc epoch_before
      → (s.validator_histories chain_id).validator_count epoch_before ≡ 0
      → BucketsFit set laws (s.validator_histories chain_id) validators
      → let t =
          after_update set laws parse verify_proof default chain_id s validators
            (suc epoch_before) in
        (update_validator_set set default chain_id (raw_block ∷ []) s ≡ ok t)
        × IsAt set laws parse verify_proof default chain_id t validators (suc epoch_before)
  unfolding verify_blocks verify_children check_quorum
  seizes s raw_block header validators epoch_before chain parsed outsider unknown begins epoch
        nobody room =
      let h : ValidatorHistory S = s.validator_histories chain_id in
      let quorum = no_quorum_needed set laws h epoch_before header.coinbase outsider nobody in
      (
        verified_updates set laws parse verify_proof default chain_id s (raw_block ∷ []) header
            validators (header.coinbase ∷ []) (suc epoch_before) chain (rw parsed refl) begins epoch
            (rw quorum refl) (rw unknown refl) room,
        after_update-IsAt set laws parse verify_proof default chain_id s validators
            (suc epoch_before) room,
      )

  -- Over a set with the laws of OpenZeppelin's: any registered chain whose blocks `ParliaBlockVerifier`
  -- verifies can be taken over by two calls of `updateValidatorSet` that no validator has signed for. The
  -- first is given no block; the second one block, that begins any epoch but the first, behind an epoch
  -- without a recorded number of validators (or epoch 0), sealed by any address that was never a
  -- validator. Both go through, if the buckets have room; and then the epoch of the block is the latest,
  -- as many validators are recorded for it as the block has, up to 2 ^ 64, and each of those is active.
  pub outsider_takes_over :
      (s : RelayHubState S) (raw_block : Bytes) (header : BlockHeader) (validators : List Address)
      (epoch_before : ℕ)
      → VerifiesParlia set laws parse verify_proof default chain_id s
      → parse chain_id raw_block (s.registered_chains chain_id).epoch_length
        ≡ ok (header, validators)
      → set.index (s.validator_histories chain_id).all_validators header.coinbase ≡ 0
      → header.block_number % (s.registered_chains chain_id).epoch_length ≡ 0
      → header.block_number / (s.registered_chains chain_id).epoch_length ≡ suc epoch_before
      → (0 < epoch_before → (s.validator_histories chain_id).validator_count epoch_before ≡ 0)
      → BucketsFit set laws (s.validator_histories chain_id) validators
      → (t : RelayHubState S) × ((update_validator_set set default chain_id [] s
            >>= update_validator_set set default chain_id (raw_block ∷ []))
          ≡ ok t)
        × IsAt set laws parse verify_proof default chain_id t validators (suc epoch_before)
  outsider_takes_over s raw_block header validators epoch_before chain parsed outsider begins epoch
        nobody room =
      let is_reset = (after_update-chain set laws parse verify_proof default chain_id s [] 0).0 in
      let length_kept =
        ap (λ (c : Bas). c.epoch_length)
          (after_update-chain set laws parse verify_proof default chain_id s [] 0).1 in
      let seized =
        seizes (reset s chain) raw_block header validators epoch_before
          (after_update-VerifiesParlia set laws parse verify_proof default chain_id s [] 0 chain)
          (ap (parse chain_id raw_block) length_kept ∙ parsed)
          (ap (λ (g : ValidatorHistory S). set.index g.all_validators header.coinbase) is_reset
            ∙ outsider)
          (ap (λ (g : ValidatorHistory S). g.latest_known_epoch) is_reset)
          (ap (λ (n : ℕ). header.block_number % n) length_kept ∙ begins)
          (ap (λ (n : ℕ). header.block_number / n) length_kept ∙ epoch)
          (ap (λ (g : ValidatorHistory S). g.validator_count epoch_before) is_reset
            ∙ none_counted epoch_before nobody)
          (subst (λ (g : ValidatorHistory S). BucketsFit set laws g validators) (sym is_reset)
            room) in
      (
        after_update set laws parse verify_proof default chain_id (reset s chain) validators
            (suc epoch_before),
        rw (empty_resets s chain) seized.0,
        seized.1,
      )
    where
      none_counted :
          (e : ℕ)
          → (0 < e → (s.validator_histories chain_id).validator_count e ≡ 0)
          → write_epoch (s.validator_histories chain_id).validator_count 0 (0 % word) e ≡ 0
      none_counted e nobody = ground arith
