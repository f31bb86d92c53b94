-- ===== src/Contract/Quorum.antt =====
-- The quorum that the relayer gathers against the quorum that the hub contract checks.
use bas_relay_hub.Prelude.{
  false, not, ◌||◌, ◌==◌, leb, ℕ, ◌+◌, ◌-◌, ◌*◌, ◌/◌, ◌<◌, ◌≡◌, refl, ap, ◌∙◌, subst, true, inl,
  inr, Bool-cases, List, [], ◌∷◌, map, Bytes, length, All, arith, le→leb, lt→ltb, not-==,
  if◌then◌else◌, ℕ_discrete, Bytes-discrete,
}
use bas_relay_hub.Prelude.Maps.{contains}
use bas_relay_hub.Prelude.Maps.Counts.{distinct_from, distinct}
use bas_relay_hub.Errors.{ok}
use bas_relay_hub.Eth.{Address, Eth, Client}
use bas_relay_hub.Proof.{quorum_of}
use bas_relay_hub.Proof.Run.{coinbases, signers, ProvesEpoch}
use bas_relay_hub.Contract.{
  AddressSetOps, ValidatorHistory, words_for, mark_bit, count_validator, count_loop,
  check_validators_and_quorum_reached,
}

abbrev pub IsAmong : List Address → Address → Type 0
IsAmong validators a = contains Bytes-discrete a validators ≡ true

-- the contract knows the validators of an epoch, at places that the array of marks reaches
pub record Knows {S : Type 0} (set : AddressSetOps S) (history : ValidatorHistory S)
    (epoch_number : ℕ) (validators : List Address) : Type 0 where
  pub placed : (a : Address) → IsAmong validators a → 0 < set.index history.all_validators a
  pub active :
      (a : Address)
      → IsAmong validators a
      → history.active_validators epoch_number (set.index history.all_validators a - 1) ≡ true
  pub reached :
      (a : Address)
      → IsAmong validators a
      → (set.index history.all_validators a - 1) / 256
        < words_for (history.validator_count epoch_number)
  pub apart :
      (a b : Address)
      → IsAmong validators a
      → IsAmong validators b
      → set.index history.all_validators a ≡ set.index history.all_validators b
      → a ≡ b
  pub outside :
      (a : Address)
      → contains Bytes-discrete a validators ≡ false
      → ((set.index history.all_validators a == 0)
          || not (history.active_validators epoch_number (set.index history.all_validators a - 1)))
        ≡ true

-- and their number
pub record Records {S : Type 0} (set : AddressSetOps S) (history : ValidatorHistory S)
    (epoch_number : ℕ) (validators : List Address) : Type 0 where
  pub knows : Knows set history epoch_number validators
  pub counted : history.validator_count epoch_number ≡ length validators

-- the signers that are validators
abbrev pub validators_among : List Address → List Address → List Address
validators_among validators [] = []
validators_among validators (a ∷ signers) =
    let rest = validators_among validators signers in
    if contains Bytes-discrete a validators then a ∷ rest else rest

pub validators_among_same :
    (validators signers : List Address)
    → All (IsAmong validators) signers
    → validators_among validators signers ≡ signers
validators_among_same validators [] _ = refl
validators_among_same validators (a ∷ signers) (among, more) =
    rw among (ap (◌∷◌ a) (validators_among_same validators signers more))

module _ {S : Type 0} (set : AddressSetOps S) (history : ValidatorHistory S) (epoch_number : ℕ)
    (validators : List Address) (knows : Knows set history epoch_number validators) where
  abbrev place : Address → ℕ
  place a = set.index history.all_validators a - 1

  contains-places :
      (a : Address) (seen : List Address)
      → IsAmong validators a
      → All (IsAmong validators) seen
      → contains ℕ_discrete (place a) (map place seen) ≡ contains Bytes-discrete a seen
  unfolding contains
  contains-places a [] among _ = refl
  contains-places a (s ∷ seen) among (among', all) = ground (
    arith,
    contains-places a seen among all,
    knows.placed a among,
    knows.placed s among',
    knows.apart s a among' among,
  )

  counts_one :
      (a : Address) (seen : List Address) (unique : ℕ)
      → IsAmong validators a
      → All (IsAmong validators) seen
      → count_validator set history epoch_number (map place seen, unique) a
        ≡ ok (
            if contains Bytes-discrete a seen
            then (map place seen, unique)
            else (map place (a ∷ seen), unique + 1))
  unfolding count_validator mark_bit
  counts_one a seen unique among all =
      rw
        (
          not-== (set.index history.all_validators a) 0
              (λ e. omega (arith, e, knows.placed a among)),
          knows.active a among,
          lt→ltb ((set.index history.all_validators a - 1) / 256)
              (words_for (history.validator_count epoch_number)) (knows.reached a among),
          contains-places a seen among all,
        )
        refl

  counts_none :
      (a : Address) (counted : List ℕ × ℕ)
      → contains Bytes-discrete a validators ≡ false
      → count_validator set history epoch_number counted a ≡ ok counted
  unfolding count_validator
  counts_none a (marks, unique) outside = rw (count_validator, knows.outside a outside) refl

  counts_distinct :
      (signers seen : List Address) (unique : ℕ)
      → All (IsAmong validators) seen
      → (marks : List ℕ) × (count_loop set history epoch_number signers (map place seen, unique)
          ≡ ok (
            marks,
            unique + distinct_from Bytes-discrete seen (validators_among validators signers),
          ))
  unfolding count_loop distinct_from
  counts_distinct [] seen unique _ =
      (map place seen, ap (λ (n : ℕ). ok (map place seen, n)) (omega arith))
  counts_distinct (a ∷ signers) seen unique all =
      elim (Bool-cases (contains Bytes-discrete a validators)) [
        | inr outside ↦
            let (marks, e) = counts_distinct signers seen unique all in
            (marks, rw (counts_none a (map place seen, unique) outside, outside) e)
        | inl among ↦ elim (Bool-cases (contains Bytes-discrete a seen)) [
          | inl old ↦
              let (marks, e) = counts_distinct signers seen unique all in
              (marks, rw (counts_one a seen unique among all, among, distinct_from, old) e)
          | inr new ↦
              let (marks, e) = counts_distinct signers (a ∷ seen) (unique + 1) (among, all) in
              (
                marks,
                rw (counts_one a seen unique among all, among, distinct_from, new)
                    (e ∙ ap (λ (n : ℕ). ok (marks, n)) (omega arith)),
              )
        ]
      ]

  -- the check, by the number that is recorded
  pub knows_counts :
      (signers : List Address)
      → check_validators_and_quorum_reached set history epoch_number signers
        ≡ ok (
            leb
              (history.validator_count epoch_number * 2 / 3)
              (distinct Bytes-discrete (validators_among validators signers)))
  unfolding check_validators_and_quorum_reached
  knows_counts signers =
      let (marks, counted) = counts_distinct signers [] 0 tt in
      rw counted
        (ap (λ (n : ℕ). ok (leb (history.validator_count epoch_number * 2 / 3) n)) (omega arith))

module _ {S : Type 0} (set : AddressSetOps S) (history : ValidatorHistory S) (epoch_number : ℕ)
    (validators : List Address) (records : Records set history epoch_number validators) where
  -- Where the contract's record of an epoch holds a list of validators, the contract accepts
  -- signers exactly where the number of different validators among them is at least two thirds,
  -- rounded down, of that of the validators; every other signer is skipped.
  pub contract_counts :
      (signers : List Address)
      → check_validators_and_quorum_reached set history epoch_number signers
        ≡ ok (
            leb
              (quorum_of validators)
              (distinct Bytes-discrete (validators_among validators signers)))
  contract_counts signers =
      subst
        (λ (n : ℕ).
          check_validators_and_quorum_reached set history epoch_number signers
          ≡ ok (leb (n * 2 / 3) (distinct Bytes-discrete (validators_among validators signers))))
        records.counted (knows_counts set history epoch_number validators records.knows signers)

module _ {S : Type 0} (set : AddressSetOps S) (eth : Eth) (client : Client)
    (epoch_block epoch_length : ℕ) (history : ValidatorHistory S) (epoch_number : ℕ) where
  -- The hub contract accepts the quorum of a list that proves the epoch, as those do that
  -- `createBlockProofs` returns, if the contract's record of the previous epoch holds the validators of
  -- the previous epoch block, and every block of the list was sealed by one of them.
  pub contract_accepts :
      {proofs : List Bytes} (p : ProvesEpoch eth client epoch_block epoch_length proofs)
      → Records set history epoch_number p.validators
      → All (IsAmong p.validators) (coinbases p.headers)
      → check_validators_and_quorum_reached set history epoch_number (coinbases p.headers) ≡ ok true
  contract_accepts p records among =
      contract_counts set history epoch_number p.validators records (coinbases p.headers)
      ∙ rw
          (
            validators_among_same p.validators (coinbases p.headers) among,
            le→leb (quorum_of p.validators) (signers p.headers) p.quorum_reached,
          )
          refl
