-- ===== src/Contract/Update/Succeeds.antt =====
-- When `_updateActiveValidatorSet` goes through.
use bas_relay_hub.Prelude.{
  ℕ, ◌+◌, ◌-◌, ◌*◌, ◌/◌, ◌<◌, ◌≤◌, ◌≡◌, refl, ◌∙◌, true, false, List, [], ◌∷◌, All, arith, ltb,
  lt→ltb, ◌==◌, ◌&&◌, not,
}
use bas_relay_hub.Errors.{ok}
use bas_relay_hub.Eth.{Address}
use bas_relay_hub.Contract.{AddressSetOps, AddressSetLaws, ValidatorHistory}
use bas_relay_hub.Prelude.Maps.{contains}
use bas_relay_hub.Contract.Quorum.{IsAmong}
use bas_relay_hub.Contract.Update.{add_validator, add_loop, update_active_validator_set}
use bas_relay_hub.Contract.Update.Places.{added, adds, place_in, places, Fit, seen-IsPlaced}
use bas_relay_hub.Contract.Update.Counted.{updated, updated-active}

-- a validator has a place, which is active in an epoch
abbrev pub IsActive : {S : Type 0} → AddressSetOps S → ValidatorHistory S → ℕ → Address → Type 0
IsActive set history epoch_number a =
    (0 < set.index history.all_validators a)
    × (history.active_validators epoch_number (set.index history.all_validators a - 1) ≡ true)

-- the buckets, which are counted before validators are added, have room for the set that has them all
abbrev pub BucketsFit :
    {S : Type 0} (set : AddressSetOps S)
    → AddressSetLaws set
    → ValidatorHistory S
    → List Address
    → Type 0
BucketsFit set laws history validators =
    set.length (adds set laws validators history.all_validators)
    ≤ 256 * (set.length history.all_validators / 256 + 1)

All-IsAmong :
    (P : Address → Type 0) (validators : List Address)
    → ((a : Address) → IsAmong validators a → P a)
    → All P validators
unfolding contains
All-IsAmong P [] holds = tt
All-IsAmong P (v ∷ validators) holds =
    (holds v (ground arith), All-IsAmong P validators (λ a among. holds a (ground arith)))

module _ {S : Type 0} (set : AddressSetOps S) (laws : AddressSetLaws set) where
  adds_grow : (vs : List Address) (s : S) → set.length s ≤ set.length (adds set laws vs s)
  adds_grow [] s = omega arith
  adds_grow (v ∷ vs) s = ground (arith, laws.length-add v s, adds_grow vs (set.add v s))

  -- with room in the buckets for the set that has them all, the places of new validators lie within
  fits_below :
      (words : ℕ) (vs : List Address) (s : S)
      → set.length (adds set laws vs s) ≤ 256 * words
      → Fit set laws words vs s
  fits_below words [] s below = tt
  fits_below words (v ∷ vs) s below =
      let place = laws.index_le v (set.add v s) in
      (
        omega (arith, below, place, adds_grow vs (set.add v s), added set laws v s),
        fits_below words vs (set.add v s) below,
      )

  Fit-add_loop :
      (words : ℕ) (vs : List Address) (s : S) (bits : List ℕ)
      → Fit set laws words vs s
      → add_loop set words vs (s, bits) ≡ ok (adds set laws vs s, places set laws vs s bits)
  unfolding add_loop add_validator
  Fit-add_loop words [] s bits fits = refl
  Fit-add_loop words (v ∷ vs) s bits (here, later) =
      rw (lt→ltb _ _ here)
        (Fit-add_loop words vs (set.add v s) (place_in set laws (set.add v s) v ∷ bits) later)

  -- the epoch is the next one, or the latest or the new one is 0, and the buckets have room
  pub update_succeeds :
      (history : ValidatorHistory S) (validators : List Address) (epoch_number : ℕ)
      → (ltb 0 history.latest_known_epoch
          && ltb 0 epoch_number
          && not (epoch_number == history.latest_known_epoch + 1))
        ≡ false
      → BucketsFit set laws history validators
      → update_active_validator_set set history validators epoch_number
        ≡ ok (updated set laws history validators epoch_number)
  unfolding update_active_validator_set
  update_succeeds history validators epoch_number next room =
      rw
        (
          next,
          Fit-add_loop (set.length history.all_validators / 256 + 1) validators
              history.all_validators []
              (fits_below (set.length history.all_validators / 256 + 1) validators
                history.all_validators room),
        )
        refl

  pub room-Fit :
      (history : ValidatorHistory S) (validators : List Address)
      → BucketsFit set laws history validators
      → Fit set laws (set.length history.all_validators / 256 + 1) validators history.all_validators
  room-Fit history validators room =
      fits_below (set.length history.all_validators / 256 + 1) validators history.all_validators
        room

  -- then each new validator has a place, which is active in the epoch
  pub updated-IsActive :
      (history : ValidatorHistory S) (validators : List Address) (epoch_number : ℕ)
      → BucketsFit set laws history validators
      → All
          (IsActive set (updated set laws history validators epoch_number) epoch_number)
          validators
  updated-IsActive history validators epoch_number room =
      All-IsAmong (IsActive set (updated set laws history validators epoch_number) epoch_number)
        validators
        (λ a among.
          let words = set.length history.all_validators / 256 + 1 in
          let seen =
            seen-IsPlaced set laws words validators history.all_validators [] a
              (fits_below words validators history.all_validators room) among in
          (
            seen.placed,
            updated-active set laws history validators epoch_number
                  (place_in set laws (adds set laws validators history.all_validators) a)
                  seen.within
                ∙ seen.marked,
          ))
