-- ===== src/Contract/Views/Updated.antt =====
-- The active validators after an update.
use bas_relay_hub.Prelude.{
  ℕ, ◌-◌, ◌/◌, ◌<◌, ◌≡◌, refl, sym, ap, ◌∙◌, subst, Bool, true, false, ◌&&◌, inl, inr, Bool-cases,
  List, [], arith, ltb, lt→ltb, ltb→lt, Bytes-discrete,
}
use bas_relay_hub.Prelude.Maps.{contains}
use bas_relay_hub.Errors.{Result, ok}
use bas_relay_hub.Eth.{Address}
use bas_relay_hub.Contract.{AddressSetOps, AddressSetLaws, ValidatorHistory}
use bas_relay_hub.Contract.Update.{update_active_validator_set}
use bas_relay_hub.Contract.Update.Places.{Fit, seen-IsPlaced, origin}
use bas_relay_hub.Contract.Update.Counted.{
  updated, words, update-eq, updated-active, updated-outside,
}
use bas_relay_hub.Contract.Views.{extract_active_validators}
use bas_relay_hub.Contract.Views.Active.{HoldsValues, extract_lists}

both : {b c : Bool} → b ≡ true → c ≡ true → (b && c) ≡ true
both h k = ground arith

unless_known : {c : Bool} (b : Bool) → (b ≡ true → c ≡ false) → (b && c) ≡ false
unless_known true none = none refl
unless_known false none = refl

module _ {S : Type 0} (set : AddressSetOps S) (laws : AddressSetLaws set)
    (value_at : S → ℕ → Result Address) (history : ValidatorHistory S) (validators : List Address)
    (epoch_number : ℕ)
    (fresh : (place : ℕ) → history.active_validators epoch_number place ≡ false) where
  abbrev after : ValidatorHistory S
  after = updated set laws history validators epoch_number

  -- a place of the epoch that is active is that of a new validator
  active-origin :
      (place : ℕ)
      → after.active_validators epoch_number place ≡ true
      → place < set.length after.all_validators
  unfolding contains
  active-origin place is_set =
      elim (Bool-cases (ltb (place / 256) (words set laws history validators epoch_number))) [
        | inr beyond ↦ ground (arith, fresh place)
        | inl within ↦
            let marked =
              sym
                (updated-active set laws history validators epoch_number place (ltb→lt _ _ within))
              ∙ is_set in
            elim (origin set laws validators history.all_validators [] place marked) [
              | inl before ↦ absurd (cc before)
              | inr (v, among, placed, is) ↦
                  omega (arith, is, placed, laws.index_le v after.all_validators)
            ]
      ]

  -- an address is at an active place exactly if it is a new validator
  listed_among :
      (a : Address)
      → Fit set laws
          (words set laws history validators epoch_number)
          validators
          history.all_validators
      → (ltb 0 (set.index after.all_validators a)
          && after.active_validators epoch_number (set.index after.all_validators a - 1))
        ≡ contains Bytes-discrete a validators
  listed_among a fits = elim (Bool-cases (contains Bytes-discrete a validators)) [
    | inl among ↦
        let seen =
          seen-IsPlaced set laws (words set laws history validators epoch_number) validators
            history.all_validators [] a fits among in
        let is_active =
          updated-active set laws history validators epoch_number
            (set.index after.all_validators a - 1) seen.within
          ∙ seen.marked in
        both (lt→ltb 0 (set.index after.all_validators a) seen.placed) is_active ∙ sym among
    | inr outside ↦
        unless_known (ltb 0 (set.index after.all_validators a)) (λ known.
          updated-outside set laws history validators epoch_number a outside (ltb→lt _ _ known))
        ∙ sym outside
  ]

  updated_lists :
      HoldsValues set value_at after.all_validators
      → Fit set laws
          (words set laws history validators epoch_number)
          validators
          history.all_validators
      → (listed : List Address) × (extract_active_validators set value_at after epoch_number
          ≡ ok listed)
        × ((a : Address) → contains Bytes-discrete a listed ≡ contains Bytes-discrete a validators)
  updated_lists holds fits =
      let (listed, extracted, holding) =
        extract_lists set laws value_at after holds epoch_number active-origin in
      (listed, extracted, λ a. holding a ∙ listed_among a fits)

module _ {S : Type 0} (set : AddressSetOps S) (laws : AddressSetLaws set)
    (value_at : S → ℕ → Result Address) where
  -- Over a set with the laws of OpenZeppelin's: after an update that goes through, to an epoch of which no
  -- validator was active before, and that leaves each address at its place, `getActiveValidators` lists
  -- exactly the new validators.
  pub update_listed :
      (history : ValidatorHistory S) (validators : List Address) (epoch_number : ℕ)
      {history' : ValidatorHistory S}
      → update_active_validator_set set history validators epoch_number ≡ ok history'
      → ((place : ℕ) → history.active_validators epoch_number place ≡ false)
      → HoldsValues set value_at history'.all_validators
      → (listed : List Address) × (extract_active_validators set value_at history'
            history'.latest_known_epoch
          ≡ ok listed)
        × ((a : Address) → contains Bytes-discrete a listed ≡ contains Bytes-discrete a validators)
  update_listed history validators epoch_number went_through fresh holds =
      let (is, fits) = update-eq set laws history validators epoch_number went_through in
      let (listed, extracted, holding) =
        updated_lists set laws value_at history validators epoch_number fresh
          (subst (λ (h : ValidatorHistory S). HoldsValues set value_at h.all_validators) is holds)
          fits in
      (
        listed,
        ap
              (λ (h : ValidatorHistory S).
                extract_active_validators set value_at h h.latest_known_epoch)
              is
            ∙ extracted,
        holding,
      )
