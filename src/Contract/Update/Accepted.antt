-- ===== src/Contract/Update/Accepted.antt =====
-- The relayer's block proofs against the record that the update of the epoch before has written.
use bas_relay_hub.Prelude.{ℕ, ◌*◌, ◌<◌, ◌≤◌, ◌≡◌, refl, ◌∙◌, true, List, Bytes, length, All, le→leb}
use bas_relay_hub.Prelude.Words.{word}
use bas_relay_hub.Errors.{ok}
use bas_relay_hub.Eth.{Eth, Client}
use bas_relay_hub.Proof.{quorum_of}
use bas_relay_hub.Proof.Run.{coinbases, signers, ProvesEpoch}
use bas_relay_hub.Contract.{
  AddressSetOps, AddressSetLaws, ValidatorHistory, words_for, check_validators_and_quorum_reached,
}
use bas_relay_hub.Contract.Quorum.{IsAmong, validators_among_same}
use bas_relay_hub.Contract.Update.{update_active_validator_set}
use bas_relay_hub.Contract.Update.Counted.{updated_counts}

module _ {S : Type 0} (set : AddressSetOps S) (laws : AddressSetLaws set) (eth : Eth)
    (client : Client) (epoch_block epoch_length : ℕ) (history : ValidatorHistory S)
    (epoch_number : ℕ) where
  -- Over a set with the laws of OpenZeppelin's: where the contract has gone through an update with the
  -- validators of the previous epoch block, fewer than 2 ^ 64, and the array of marks has room for all
  -- validators that ever were, the contract accepts under that epoch the signers of a list that proves the
  -- next epoch, as `createBlockProofs` returns it, if every block of the list was sealed by one of them.
  pub updated_accepts :
      {proofs : List Bytes} {history' : ValidatorHistory S}
      (p : ProvesEpoch eth client epoch_block epoch_length proofs)
      → update_active_validator_set set history p.validators epoch_number ≡ ok history'
      → set.length history'.all_validators ≤ 256 * words_for (length p.validators)
      → length p.validators < word
      → All (IsAmong p.validators) (coinbases p.headers)
      → check_validators_and_quorum_reached set history' epoch_number (coinbases p.headers)
        ≡ ok true
  updated_accepts p went_through reach sized among =
      updated_counts set laws history p.validators epoch_number (coinbases p.headers) went_through
        reach sized
      ∙ rw
          (
            validators_among_same p.validators (coinbases p.headers) among,
            le→leb (quorum_of p.validators) (signers p.headers) p.quorum_reached,
          )
          refl
