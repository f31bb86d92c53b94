-- ===== src/Tests/Views.antt =====
-- What the hub contract answers in the small world.
use bas_relay_hub.Prelude.{
  ℕ, zero, suc, ◌≡◌, refl, true, List, [], ◌∷◌, length, leb, arith, ◌==◌, if◌then◌else◌,
  Bytes-discrete,
}
use bas_relay_hub.Prelude.Maps.{contains}
use bas_relay_hub.Prelude.Maps.Counts.{distinct}
use bas_relay_hub.Errors.{Result, ok, panic, raised, slice_bounds}
use bas_relay_hub.Eth.{Address}
use bas_relay_hub.Proof.{quorum_of}
use bas_relay_hub.Contract.Quorum.{validators_among}
use bas_relay_hub.Contract.Views.{check_loop, extract_active_validators, check_receipt_proof}
use bas_relay_hub.Contract.Views.Active.{HoldsValues}
use bas_relay_hub.Contract.Views.Updated.{update_listed}
use bas_relay_hub.Contract.Views.Receipts.{receipt_checked}
use bas_relay_hub.Tests.World.{alice, bob, carol, validators, world, block, client}
use bas_relay_hub.Tests.Runs.{two_proofs, two_prove}
use bas_relay_hub.Tests.Quorums.{listed, listed_laws, no_history, first_history, first_updated}
use bas_relay_hub.Tests.Verifier.{honest, verifying_with, genesis, verifies}
use bas_relay_hub.Tests.Relays.{honest-ParsesSealed, genesis-Records}

-- the members of `listed`, by their places
abbrev value_in : List Address → ℕ → Result Address
value_in [] place = panic slice_bounds
value_in (a ∷ s) place = let rest = value_in s place in if place == length s then ok a else rest

three_held : HoldsValues listed value_in first_history.all_validators
unfolding Bytes-discrete
three_held zero within = (alice, refl, refl)
three_held (suc zero) within = (bob, refl, refl)
three_held (suc (suc zero)) within = (carol, refl, refl)
three_held (suc (suc (suc place))) within = absurd (omega (arith, within))

update_listed_example :
    (members : List Address) × (extract_active_validators listed value_in first_history 1
      ≡ ok members)
    × ((a : Address) → contains Bytes-discrete a members ≡ contains Bytes-discrete a validators)
update_listed_example =
    update_listed listed listed_laws value_in no_history validators 1 first_updated (λ place. refl)
      three_held

two_checked :
    (check_loop listed first_history 1 (alice ∷ carol ∷ []) 0 ≡ ok 2)
    × (check_loop listed first_history 1 (alice ∷ (9 ∷ []) ∷ []) 0 ≡ panic raised)
unfolding check_loop contains Bytes-discrete
two_checked = (refl, refl)

receipt_checked_example :
    check_receipt_proof listed (verifying_with honest) 56 two_proofs (7 ∷ []) [] [] genesis ≡ (
      if leb
        (quorum_of validators)
        (distinct Bytes-discrete (validators_among validators (alice ∷ bob ∷ [])))
      then ok true
      else panic raised)
receipt_checked_example =
    receipt_checked listed listed_laws honest (λ receipt root siblings path. ok true)
      (verifying_with honest) world client 56 genesis 2 (block 2) (block 3 ∷ []) validators 0
      (7 ∷ []) [] [] honest-ParsesSealed (verifies honest) refl two_prove.run (refl, tt) refl
      genesis-Records
