-- ===== src/Contract/Update/Counted.antt =====
-- What `checkValidatorsAndQuorumReached` makes of the record that `_updateActiveValidatorSet` has written.
use bas_relay_hub.Prelude.{
  ℕ, ◌+◌, ◌-◌, ◌/◌, ◌*◌, ◌%◌, ◌<◌, ◌≤◌, ◌≡◌, inl, inr, refl, sym, ap, ◌∙◌, subst, Bool, true, false,
  not, ◌||◌, ◌&&◌, Bool-cases, List, [], length, arith, ltb, leb, ◌==◌, if◌then◌else◌, ℕ_discrete,
  Bytes-discrete,
}
use bas_relay_hub.Prelude.Words.{word}
use bas_relay_hub.Prelude.Maps.{contains}
use bas_relay_hub.Prelude.Maps.Counts.{distinct}
use bas_relay_hub.Errors.{Result, ok, panic, raised, >>=-eq-ok, ok-injective}
use bas_relay_hub.Eth.{Address}
use bas_relay_hub.Proof.{quorum_of}
use bas_relay_hub.Contract.{
  AddressSetOps, AddressSetLaws, ValidatorHistory, words_for, check_validators_and_quorum_reached,
}
use bas_relay_hub.Contract.Quorum.{IsAmong, Knows, Records, validators_among, contract_counts}
use bas_relay_hub.Contract.Update.{copy_buckets, write_epoch, add_loop, update_active_validator_set}
use bas_relay_hub.Contract.Update.Places.{
  adds, places, Fit, add_loop-Fit, unseen, IsPlaced, seen-IsPlaced, origin,
}

-- the array of marks for the latest epoch has room for all validators that ever were
abbrev pub HasRoom : {S : Type 0} → AddressSetOps S → ValidatorHistory S → Type 0
HasRoom set history =
    set.length history.all_validators
    ≤ 256 * words_for (history.validator_count history.latest_known_epoch)

-- the record of the latest epoch holds a list of validators
pub record Recorded {S : Type 0} (set : AddressSetOps S) (history : ValidatorHistory S)
    (validators : List Address) : Type 0 where
  pub counted : history.validator_count history.latest_known_epoch ≡ length validators % word
  pub knows : HasRoom set history → Knows set history history.latest_known_epoch validators

or_left : {b : Bool} (c : Bool) → b ≡ true → (b || c) ≡ true
or_left {b = true} c h = refl
or_left {b = false} c h = cc

or_right : (b : Bool) {c : Bool} → c ≡ false → (b || not c) ≡ true
or_right true h = refl
or_right false {c = true} h = cc
or_right false {c = false} h = refl

unless_ok :
    {A : Type 0} {m : Result A} {r : A} (b : Bool)
    → (if b then panic raised else m) ≡ ok r
    → (b ≡ false) × (m ≡ ok r)
unless_ok true h = cc
unless_ok false h = (refl, h)

module _ {S : Type 0} (set : AddressSetOps S) (laws : AddressSetLaws set)
    (history : ValidatorHistory S) (validators : List Address) (epoch_number : ℕ) where
  abbrev pub words : ℕ
  words = set.length history.all_validators / 256 + 1

  abbrev pub bits : List ℕ
  bits = places set laws validators history.all_validators []

  -- the record with these validators and bits, and the one that an update that goes through has written
  abbrev pub written : S × List ℕ → ValidatorHistory S
  written (all_validators, bits') = record history {
    all_validators = all_validators;
    active_validators =
        write_epoch history.active_validators epoch_number
          (copy_buckets words bits' (history.active_validators epoch_number));
    validator_count = write_epoch history.validator_count epoch_number (length validators % word);
    latest_known_epoch = epoch_number;
  }

  abbrev pub updated : ValidatorHistory S
  updated = written (adds set laws validators history.all_validators, bits)

  pub update-eq :
      {history' : ValidatorHistory S}
      → update_active_validator_set set history validators epoch_number ≡ ok history'
      → (history' ≡ updated) × Fit set laws words validators history.all_validators
  unfolding update_active_validator_set
  update-eq h =
      let (_, went_on) =
        unless_ok
          (ltb 0 history.latest_known_epoch
            && ltb 0 epoch_number
            && not (epoch_number == history.latest_known_epoch + 1))
          h in
      let (r, looped, done) =
        >>=-eq-ok (add_loop set words validators (history.all_validators, [])) _ went_on in
      let (is, fits) = add_loop-Fit set laws words validators history.all_validators [] looped in
      (sym (ok-injective done) ∙ ap written is, fits)

  pub updated-active :
      (place : ℕ)
      → place / 256 < words
      → updated.active_validators epoch_number place ≡ contains ℕ_discrete place bits
  updated-active place within = ground arith

  -- the bit of a validator that is not in the new set is not set
  pub updated-outside :
      (a : Address)
      → contains Bytes-discrete a validators ≡ false
      → 0 < set.index updated.all_validators a
      → updated.active_validators epoch_number (set.index updated.all_validators a - 1) ≡ false
  unfolding contains
  updated-outside a outside known =
      let place = set.index updated.all_validators a - 1 in
      let old = unseen set laws validators history.all_validators a outside in
      let within : place / 256 < words =
        omega (arith, old, known, laws.index_le a history.all_validators) in
      updated-active place within ∙ elim (Bool-cases (contains ℕ_discrete place bits)) [
        | inr unset ↦ unset
        | inl is_set ↦ elim (origin set laws validators history.all_validators [] place is_set) [
          | inl before ↦ cc
          | inr (v, among, placed, same) ↦
              let here : v ≡ a =
                laws.index_apart v a updated.all_validators placed
                  (omega (arith, same, placed, known)) in
              absurd (cc (among, outside, here))
        ]
      ]

  pub updated-Knows :
      Fit set laws words validators history.all_validators
      → HasRoom set updated
      → Knows set updated epoch_number validators
  updated-Knows fits room =
      let seen : (a : Address)
          → IsAmong validators a
          → IsPlaced set laws words updated.all_validators bits a =
        λ a among. seen-IsPlaced set laws words validators history.all_validators [] a fits among in
      record {
        placed = λ a among. (seen a among).placed;
        active = λ a among.
            updated-active (set.index updated.all_validators a - 1) (seen a among).within
            ∙ (seen a among).marked;
        reached = λ a among.
            omega (arith, room, (seen a among).placed, laws.index_le a updated.all_validators);
        apart = λ a b here there same.
            laws.index_apart a b updated.all_validators (seen a here).placed same;
        outside = λ a outside. elim (Bool-cases (set.index updated.all_validators a == 0)) [
          | inl nowhere ↦ or_left _ nowhere
          | inr known ↦
              or_right (set.index updated.all_validators a == 0)
                (updated-outside a outside (ground arith))
        ];
      }

  pub updated-count : updated.validator_count epoch_number ≡ length validators % word
  updated-count = ground arith

  pub update-latest :
      {history' : ValidatorHistory S}
      → update_active_validator_set set history validators epoch_number ≡ ok history'
      → history'.latest_known_epoch ≡ epoch_number
  update-latest went_through =
      ap (λ (h : ValidatorHistory S). h.latest_known_epoch) (update-eq went_through).0

  pub update-Recorded :
      {history' : ValidatorHistory S}
      → update_active_validator_set set history validators epoch_number ≡ ok history'
      → Recorded set history' validators
  update-Recorded went_through =
      let (is, fits) = update-eq went_through in
      subst (λ (h : ValidatorHistory S). Recorded set h validators) (sym is)
        (record { counted = updated-count; knows = updated-Knows fits })

  -- Over a set with the laws of OpenZeppelin's: after an update that goes through, of fewer than 2 ^ 64
  -- validators, and where the array of marks has room for all validators that ever were, the contract
  -- accepts signers under the new epoch exactly where the number of different new validators among them
  -- is at least two thirds, rounded down, of that of the new validators, whatever the record held before.
  pub updated_counts :
      {history' : ValidatorHistory S} (signers : List Address)
      → update_active_validator_set set history validators epoch_number ≡ ok history'
      → set.length history'.all_validators ≤ 256 * words_for (length validators)
      → length validators < word
      → check_validators_and_quorum_reached set history' epoch_number signers
        ≡ ok (
            leb
              (quorum_of validators)
              (distinct Bytes-discrete (validators_among validators signers)))
  updated_counts {history'} signers went_through reach sized =
      let (is, fits) = update-eq went_through in
      let counted : updated.validator_count epoch_number ≡ length validators =
        omega (arith, updated-count, sized) in
      let room : HasRoom set updated =
        omega (
          arith,
          reach,
          counted,
          ap (λ (h : ValidatorHistory S). set.length h.all_validators) is,
        ) in
      contract_counts set history' epoch_number validators
        (subst (λ (h : ValidatorHistory S). Records set h epoch_number validators) (sym is)
          (record { knows = updated-Knows fits room; counted = counted }))
        signers
