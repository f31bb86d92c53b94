-- ===== src/Contract/Update.antt =====
-- contracts/RelayHub.sol: `_updateActiveValidatorSet`, which makes the record of an epoch that the check
-- of the next epoch's signers reads.
pub mod Places
pub mod Counted
pub mod Succeeds
pub mod Accepted
use bas_relay_hub.Prelude.{
  ℕ, ◌+◌, ◌-◌, ◌*◌, ◌/◌, ◌%◌, Bool, true, false, ◌&&◌, not, List, [], ◌∷◌, length, ltb, ◌==◌,
  if◌then◌else◌, ℕ_discrete,
}
use bas_relay_hub.Prelude.Words.{word}
use bas_relay_hub.Prelude.Maps.{contains}
use bas_relay_hub.Errors.{Result, ok, panic, raised, slice_bounds, ◌>>=◌}
use bas_relay_hub.Eth.{Address}
use bas_relay_hub.Contract.{AddressSetOps, ValidatorHistory}

-- the words of `activeValidators[epoch]` are those of the buckets, as far as there are buckets
abbrev pub copy_buckets : ℕ → List ℕ → (ℕ → Bool) → ℕ → Bool
copy_buckets words bits bitmap place =
    if ltb (place / 256) words then contains ℕ_discrete place bits else bitmap place

abbrev pub write_epoch {ℓ} : {A : Type ℓ} → (ℕ → A) → ℕ → A → ℕ → A
write_epoch f epoch value e = if e == epoch then value else f e

module _ {S : Type 0} (set : AddressSetOps S) where
  -- one round of the loop: the set of all validators, and the bits of the buckets; the access to a
  -- bucket past the end of the array reverts
  unfoldable pub add_validator : ℕ → S × List ℕ → Address → Result (S × List ℕ)
  add_validator words (all_validators, bits) validator =
      let all_validators' = set.add validator all_validators in
      let index = set.index all_validators' validator - 1 in
      if ltb (index / 256) words then ok (all_validators', index ∷ bits) else panic slice_bounds

  unfoldable pub add_loop : ℕ → List Address → S × List ℕ → Result (S × List ℕ)
  add_loop words [] added = ok added
  add_loop words (validator ∷ new_validator_set) added = do
    added' ← add_validator words added validator
    add_loop words new_validator_set added'

  -- `require` reverts on another epoch than the next one, unless the latest or the new one is 0
  unfoldable pub update_active_validator_set :
      ValidatorHistory S → List Address → ℕ → Result (ValidatorHistory S)
  update_active_validator_set history new_validator_set epoch_number =
      if (ltb 0 history.latest_known_epoch && ltb 0 epoch_number)
        && not (epoch_number == history.latest_known_epoch + 1)
      then panic raised
      else (do
        let words = set.length history.all_validators / 256 + 1
        (all_validators, bits) ← add_loop words new_validator_set (history.all_validators, [])
        ok (record history {
          all_validators = all_validators;
          active_validators =
              write_epoch history.active_validators epoch_number
                (copy_buckets words bits (history.active_validators epoch_number));
          validator_count =
              write_epoch history.validator_count epoch_number (length new_validator_set % word);
          latest_known_epoch = epoch_number;
        }))
