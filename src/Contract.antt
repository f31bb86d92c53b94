-- ===== src/Contract.antt =====
-- contracts/RelayHub.sol: `checkValidatorsAndQuorumReached`, the check that the hub contract makes of the
-- block signers that the relayer sends; what it reads is written by Contract/Update. A bitmap is the function or the list of the bits that are set;
-- a call that reverts is a panic.
pub mod Quorum
pub mod Update
pub mod Chains
pub mod Verifier
pub mod Views
use mathlib.Core.Logic.{ite}
use bas_relay_hub.Prelude.{
  ℕ, ◌+◌, ◌-◌, ◌*◌, ◌/◌, Bool, true, false, ◌||◌, not, List, [], ◌∷◌, leb, ltb, ◌==◌, if◌then◌else◌,
  ◌≤◌, ◌<◌, ◌≡◌, ℕ_discrete, Bytes-discrete,
}
use bas_relay_hub.Prelude.Maps.{contains}
use bas_relay_hub.Errors.{Result, ok, panic, slice_bounds, ◌>>=◌}
use bas_relay_hub.Eth.{Address, Hash}

-- `EnumerableSet.AddressSet` of OpenZeppelin: `_indexes` of an address, 0 for one that is not in the set
pub record AddressSetOps (S : Type 0) : Type 0 where
  pub add : Address → S → S
  pub length : S → ℕ
  pub index : S → Address → ℕ

-- what OpenZeppelin documents of a set from which nothing is removed: an address that is not in it is
-- appended, and each keeps its place, from 1 on
pub record AddressSetLaws {S : Type 0} (set : AddressSetOps S) : Type 0 where
  pub index-add :
      (a b : Address) (s : S)
      → set.index (set.add a s) b ≡ (
          if set.index s b == 0
          then ite (Bytes-discrete a b) (set.length s + 1) 0
          else set.index s b)
  pub length-add :
      (a : Address) (s : S)
      → set.length (set.add a s) ≡ (if set.index s a == 0 then set.length s + 1 else set.length s)
  pub index_le : (a : Address) (s : S) → set.index s a ≤ set.length s
  pub index_apart :
      (a b : Address) (s : S) → 0 < set.index s a → set.index s a ≡ set.index s b → a ≡ b

-- `ValidatorHistory`: all validators that ever were; for each epoch, which places among them are active,
-- and how many validators there are, and the checkpoint; and the latest epoch.
pub record ValidatorHistory (S : Type 0) : Type 0 where
  pub all_validators : S
  pub active_validators : ℕ → ℕ → Bool
  pub validator_count : ℕ → ℕ
  pub epoch_checkpoints : ℕ → Hash
  pub latest_known_epoch : ℕ

-- the words of `markedValidators`
abbrev pub words_for : ℕ → ℕ
words_for total_validators = (total_validators + 255) / 256

-- one bit of `markedValidators` is set, and counted if it was not
unfoldable pub mark_bit : ℕ → List ℕ → ℕ → List ℕ × ℕ
mark_bit index marks unique_validators =
    if contains ℕ_discrete index marks
    then (marks, unique_validators)
    else (index ∷ marks, unique_validators + 1)

module _ {S : Type 0} (set : AddressSetOps S) (history : ValidatorHistory S)
    (epoch_number : ℕ) where
  -- one round of the loop; the access to a word past the end of the array reverts
  unfoldable pub count_validator : List ℕ × ℕ → Address → Result (List ℕ × ℕ)
  unfolding mark_bit
  count_validator (marks, unique_validators) validator =
      let raw_index = set.index history.all_validators validator in
      let index = raw_index - 1 in
      if (raw_index == 0) || not (history.active_validators epoch_number index)
      then ok (marks, unique_validators)
      else if ltb (index / 256) (words_for (history.validator_count epoch_number))
      then ok (mark_bit index marks unique_validators)
      else panic slice_bounds

  unfoldable pub count_loop : List Address → List ℕ × ℕ → Result (List ℕ × ℕ)
  count_loop [] counted = ok counted
  count_loop (validator ∷ validator_set) counted = do
    counted' ← count_validator counted validator
    count_loop validator_set counted'

  unfoldable pub check_validators_and_quorum_reached : List Address → Result Bool
  check_validators_and_quorum_reached validator_set = do
    (marks, unique_validators) ← count_loop validator_set ([], 0)
    ok (leb (history.validator_count epoch_number * 2 / 3) unique_validators)
