-- ===== src/Contract/Views.antt =====
-- contracts/RelayHub.sol: the calls that read the contract and change nothing.
pub mod Receipts
pub mod Active
pub mod Updated
use bas_relay_hub.Prelude.{
  ℕ, zero, suc, ◌+◌, ◌-◌, ◌*◌, ◌/◌, ◌<◌, ◌≡◌, Bool, true, false, List, [], ◌∷◌, ◌++◌, Bytes, length,
  ltb, ◌==◌, if◌then◌else◌,
}
use bas_relay_hub.Errors.{Result, ok, panic, raised, slice_bounds, ◌>>=◌, ◌>>◌}
use bas_relay_hub.Eth.{Address}
use bas_relay_hub.Contract.{AddressSetOps, ValidatorHistory}
use bas_relay_hub.Contract.Chains.{
  ChainStatus, not_found, verifying, active, ProofVerificationFunction, RelayHubState, require,
  verifier_of, checker,
}

unfoldable pub get_bridge_address : {S : Type 0} → ℕ → RelayHubState S → Address
get_bridge_address chain_id s = (s.registered_chains chain_id).bridge_address

unfoldable pub get_latest_transitioned_epoch : {S : Type 0} → ℕ → RelayHubState S → ℕ
get_latest_transitioned_epoch chain_id s = (s.validator_histories chain_id).latest_known_epoch

-- `chainStatus == ChainStatus.Active`
abbrev pub is_active : ChainStatus → Bool
is_active not_found = false
is_active verifying = false
is_active active = true

module _ {S : Type 0} (set : AddressSetOps S) (default : ProofVerificationFunction) where
  unfoldable pub check_receipt_proof :
      ℕ → List Bytes → Bytes → Bytes → Bytes → RelayHubState S → Result Bool
  check_receipt_proof chain_id block_proofs raw_receipt proof_siblings proof_path s = do
    let chain = s.registered_chains chain_id
    require (is_active chain.chain_status)
    let verification = verifier_of default chain.verification_function
    header ←
        verification.verify_block_and_reached_quorum chain_id block_proofs chain.epoch_length
          (checker set s)
    verification.check_receipt_proof raw_receipt header.receipts_root proof_siblings proof_path

module _ {S : Type 0} (set : AddressSetOps S) (history : ValidatorHistory S) (epoch : ℕ) where
  -- the loop of `checkValidators`: the index of an address that is not in the set underflows and reverts
  unfoldable pub check_loop : List Address → ℕ → Result ℕ
  check_loop [] unique_validators = ok unique_validators
  check_loop (validator ∷ validators) unique_validators = do
    let raw_index = set.index history.all_validators validator
    require (ltb 0 raw_index)
    require (history.active_validators epoch (raw_index - 1))
    check_loop validators (unique_validators + 1)

unfoldable pub check_validators :
    {S : Type 0} → AddressSetOps S → ℕ → List Address → ℕ → RelayHubState S → Result ℕ
unfolding check_loop
check_validators set chain_id validators epoch s =
    check_loop set (s.validator_histories chain_id) epoch validators 0

-- `_values` of a set: the address at a place, if there is one
module _ {S : Type 0} (set : AddressSetOps S) (value_at : S → ℕ → Result Address)
    (history : ValidatorHistory S) (at_epoch : ℕ) where
  -- the loop over the bits of a bucket, from the lowest on, `n` of them from a place on; an address past
  -- the end of the array reverts
  unfoldable pub bucket_loop : ℕ → ℕ → List Address → Result (List Address)
  bucket_loop zero place active_validators = ok active_validators
  bucket_loop (suc n) place active_validators =
      let skipped = bucket_loop n (place + 1) active_validators in
      if history.active_validators at_epoch place
      then (do
        validator ← value_at history.all_validators place
        require (ltb (length active_validators) (set.length history.all_validators))
        bucket_loop n (place + 1) (active_validators ++ validator ∷ []))
      else skipped

  -- the loop over the buckets, `n` of them from bucket `i` on
  unfoldable pub buckets_loop : ℕ → ℕ → List Address → Result (List Address)
  buckets_loop zero i active_validators = ok active_validators
  buckets_loop (suc n) i active_validators = do
    active_validators' ← bucket_loop 256 (i * 256) active_validators
    buckets_loop n (i + 1) active_validators'

  unfoldable pub extract_active_validators : Result (List Address)
  extract_active_validators = buckets_loop (set.length history.all_validators / 256 + 1) 0 []

unfoldable pub get_active_validators :
    {S : Type 0}
    → AddressSetOps S
    → (S → ℕ → Result Address)
    → ℕ
    → RelayHubState S
    → Result (List Address)
unfolding extract_active_validators
get_active_validators set value_at chain_id s =
    let history = s.validator_histories chain_id in
    extract_active_validators set value_at history history.latest_known_epoch
