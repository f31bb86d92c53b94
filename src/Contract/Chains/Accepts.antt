-- ===== src/Contract/Chains/Accepts.antt =====
-- When `updateValidatorSet` goes through.
use bas_relay_hub.Prelude.{
  ℕ, ◌+◌, ◌/◌, ◌%◌, ◌≡◌, ◌≢◌, refl, true, false, not, ◌&&◌, List, Bytes, ltb, not-==, ◌==◌,
}
use bas_relay_hub.Errors.{ok}
use bas_relay_hub.Eth.{Address}
use bas_relay_hub.Contract.{AddressSetOps, AddressSetLaws}
use bas_relay_hub.Contract.Update.Counted.{updated}
use bas_relay_hub.Contract.Update.Succeeds.{BucketsFit, update_succeeds}
use bas_relay_hub.Contract.Chains.{
  active, ProofVerificationFunction, RelayHubState, is_registered, div_checked, rem_checked,
  verifier_of, write_chain, checker,
}
use bas_relay_hub.Contract.Chains.Epochs.{update_validator_set}

pub div_checked-ok : (n d : ℕ) → d ≢ 0 → div_checked n d ≡ ok (n / d)
unfolding div_checked
div_checked-ok n d some_ = rw (not-== d 0 some_) refl

pub rem_checked-ok : (n d : ℕ) → d ≢ 0 → rem_checked n d ≡ ok (n % d)
unfolding rem_checked
rem_checked-ok n d some_ = rw (not-== d 0 some_) refl

module _ {S : Type 0} (set : AddressSetOps S) (laws : AddressSetLaws set) where
  -- a call of `updateValidatorSet` that the verification function lets through
  pub verified_update :
      (default : ProofVerificationFunction) (chain_id : ℕ) (block_proofs : List Bytes)
      (s : RelayHubState S) (validators : List Address) (epoch_number : ℕ)
      → is_registered (s.registered_chains chain_id).chain_status ≡ true
      → (verifier_of default (s.registered_chains chain_id).verification_function
            ).verify_validator_transition
          chain_id block_proofs
          (s.registered_chains chain_id).epoch_length
          (checker set s)
        ≡ ok (validators, epoch_number)
      → (ltb 0 (s.validator_histories chain_id).latest_known_epoch
          && ltb 0 epoch_number
          && not (epoch_number == (s.validator_histories chain_id).latest_known_epoch + 1))
        ≡ false
      → BucketsFit set laws (s.validator_histories chain_id) validators
      → update_validator_set set default chain_id block_proofs s
        ≡ ok (
            write_chain s chain_id
              (updated set laws (s.validator_histories chain_id) validators epoch_number)
              (record (s.registered_chains chain_id) { chain_status = active }))
  unfolding update_validator_set
  verified_update default chain_id block_proofs s validators epoch_number registered verified next
        room =
      rw
        (
          registered,
          verified,
          update_succeeds set laws (s.validator_histories chain_id) validators epoch_number next
              room,
        )
        refl
