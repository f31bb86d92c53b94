-- ===== src/Contract/Verifier/Updates.antt =====
-- A call of `updateValidatorSet` over the Parlia contract that goes through.
use bas_relay_hub.Prelude.{
  ℕ, ◌+◌, ◌/◌, ◌%◌, ◌≡◌, ◌≢◌, refl, ap, ◌∙◌, Bool, true, false, not, ◌&&◌, List, Bytes, length, ltb,
  subst, All, sym, ==_iff, ◌==◌,
}
use bas_relay_hub.Prelude.Words.{word}
use bas_relay_hub.Errors.{Result, ok}
use bas_relay_hub.Eth.{Address, Hash}
use bas_relay_hub.Contract.{AddressSetOps, AddressSetLaws, ValidatorHistory}
use bas_relay_hub.Contract.Update.Counted.{updated, updated-count}
use bas_relay_hub.Contract.Update.Succeeds.{BucketsFit, IsActive, updated-IsActive}
use bas_relay_hub.Contract.Chains.{
  active, BlockHeader, ProofVerificationFunction, Bas, RelayHubState, is_registered, verifier_of,
  write_chain, checker,
}
use bas_relay_hub.Contract.Chains.Accepts.{verified_update}
use bas_relay_hub.Contract.Verifier.Transition.{transition-ok}
use bas_relay_hub.Contract.Chains.Epochs.{update_validator_set}
use bas_relay_hub.Contract.Verifier.{ParseBlock, check_quorum, verify_blocks, parlia_block_verifier}

module _ {S : Type 0} (set : AddressSetOps S) (laws : AddressSetLaws set) (parse : ParseBlock)
    (verify_proof : Bytes → Hash → Bytes → Bytes → Result Bool)
    (default : ProofVerificationFunction) (chain_id : ℕ) where
  -- a chain that is registered, and whose blocks the Parlia contract verifies
  pub record VerifiesParlia (s : RelayHubState S) : Type 0 where
    pub registered : is_registered (s.registered_chains chain_id).chain_status ≡ true
    pub verified_so :
        verifier_of default (s.registered_chains chain_id).verification_function
        ≡ parlia_block_verifier parse verify_proof
    pub some_blocks : (s.registered_chains chain_id).epoch_length ≢ 0

  -- the state after an update of the chain
  abbrev pub after_update : RelayHubState S → List Address → ℕ → RelayHubState S
  after_update s validators epoch_number =
      write_chain s chain_id
        (updated set laws (s.validator_histories chain_id) validators epoch_number)
        (record (s.registered_chains chain_id) { chain_status = active })

  -- then the epoch is the latest, as many validators are recorded as there are, up to 2 ^ 64, and
  -- each of them is active
  abbrev pub IsAt : RelayHubState S → List Address → ℕ → Type 0
  IsAt t validators epoch_number =
      ((t.validator_histories chain_id).latest_known_epoch ≡ epoch_number)
      × ((t.validator_histories chain_id).validator_count epoch_number ≡ length validators % word)
      × All (IsActive set (t.validator_histories chain_id) epoch_number) validators

  pub after_update-chain :
      (s : RelayHubState S) (validators : List Address) (epoch_number : ℕ)
      → ((after_update s validators epoch_number).validator_histories chain_id
          ≡ updated set laws (s.validator_histories chain_id) validators epoch_number)
        × ((after_update s validators epoch_number).registered_chains chain_id
            ≡ record (s.registered_chains chain_id) { chain_status = active })
  after_update-chain s validators epoch_number =
      (rw ((==_iff chain_id chain_id).1 refl) refl, rw ((==_iff chain_id chain_id).1 refl) refl)

  pub after_update-IsAt :
      (s : RelayHubState S) (validators : List Address) (epoch_number : ℕ)
      → BucketsFit set laws (s.validator_histories chain_id) validators
      → IsAt (after_update s validators epoch_number) validators epoch_number
  after_update-IsAt s validators epoch_number room =
      let h : ValidatorHistory S = s.validator_histories chain_id in
      let at = (after_update-chain s validators epoch_number).0 in
      (
        ap (λ (g : ValidatorHistory S). g.latest_known_epoch) at,
        ap (λ (g : ValidatorHistory S). g.validator_count epoch_number) at
            ∙ updated-count set laws h validators epoch_number,
        subst (λ (g : ValidatorHistory S). All (IsActive set g epoch_number) validators) (sym at)
            (updated-IsActive set laws h validators epoch_number room),
      )

  pub after_update-VerifiesParlia :
      (s : RelayHubState S) (validators : List Address) (epoch_number : ℕ)
      → VerifiesParlia s
      → VerifiesParlia (after_update s validators epoch_number)
  after_update-VerifiesParlia s validators epoch_number chain =
      let at = (after_update-chain s validators epoch_number).1 in
      record {
        registered = ap (λ (c : Bas). is_registered c.chain_status) at;
        verified_so =
            ap (λ (c : Bas). verifier_of default c.verification_function) at ∙ chain.verified_so;
        some_blocks = λ e. chain.some_blocks (sym (ap (λ (c : Bas). c.epoch_length) at) ∙ e);
      }

  -- a list of blocks that is verified updates the chain, if the epoch is 0 or the latest is, or it is
  -- the next one, and the buckets have room
  pub verified_updates :
      (s : RelayHubState S) (block_proofs : List Bytes) (first : BlockHeader)
      (validators signers : List Address) (epoch_number : ℕ)
      → VerifiesParlia s
      → verify_blocks parse chain_id (s.registered_chains chain_id).epoch_length block_proofs
        ≡ ok (first, validators, signers)
      → first.block_number % (s.registered_chains chain_id).epoch_length ≡ 0
      → first.block_number / (s.registered_chains chain_id).epoch_length ≡ epoch_number
      → check_quorum (checker set s) chain_id signers epoch_number ≡ ok tt
      → (ltb 0 (s.validator_histories chain_id).latest_known_epoch
          && ltb 0 epoch_number
          && not (epoch_number == (s.validator_histories chain_id).latest_known_epoch + 1))
        ≡ false
      → BucketsFit set laws (s.validator_histories chain_id) validators
      → update_validator_set set default chain_id block_proofs s
        ≡ ok (after_update s validators epoch_number)
  verified_updates s block_proofs first validators signers epoch_number chain parsed begins epoch
        quorum next room =
      verified_update set laws default chain_id block_proofs s validators epoch_number
        chain.registered
        (rw chain.verified_so (
          transition-ok parse chain_id (s.registered_chains chain_id).epoch_length chain.some_blocks
            block_proofs (checker set s) first validators signers epoch_number parsed begins epoch
            quorum))
        next room
