-- ===== src/Tests/Quorums.antt =====
-- The contract's check in the small world.
use mathlib.Core.Logic.{ite}
use bas_relay_hub.Prelude.{
  false, ◌||◌, not, leb, ℕ, ◌+◌, List, length, ◌-◌, ◌≤◌, ◌<◌, ◌≡◌, refl, sym, ap, ◌∙◌, true, [],
  ◌∷◌, ltb, lt→ltb, arith, ◌==◌, if◌then◌else◌, Bytes-discrete,
}
use bas_relay_hub.Prelude.Maps.Counts.{distinct}
use bas_relay_hub.Proof.{quorum_of}
use bas_relay_hub.Prelude.Maps.{contains}
use bas_relay_hub.Errors.{ok}
use bas_relay_hub.Eth.{Address}
use bas_relay_hub.Contract.{
  AddressSetOps, AddressSetLaws, ValidatorHistory, check_validators_and_quorum_reached,
}
use bas_relay_hub.Contract.Update.{
  copy_buckets, write_epoch, add_validator, add_loop, update_active_validator_set,
}
use bas_relay_hub.Contract.Update.Accepted.{updated_accepts}
use bas_relay_hub.Contract.Update.Counted.{updated_counts}
use bas_relay_hub.Contract.Quorum.{
  validators_among, contract_counts, IsAmong, Knows, Records, contract_accepts,
}
use bas_relay_hub.Tests.World.{alice, bob, carol, validators, world, client}
use bas_relay_hub.Tests.Runs.{two_prove}

abbrev place_of : Address → ℕ
place_of a =
    ite (Bytes-discrete alice a) 1 (ite (Bytes-discrete bob a) 2 (ite (Bytes-discrete carol a) 3 0))

abbrev at_place : ℕ → Address
at_place n = if n == 1 then alice else if n == 2 then bob else carol

-- the set that holds the three, as its places
abbrev placed : AddressSetOps (Address → ℕ)
placed = record { add = λ a s. s; length = λ s. 3; index = λ s. s }

abbrev three : ValidatorHistory (Address → ℕ)
three = record {
  all_validators = place_of;
  active_validators = λ epoch index. ltb index 3;
  validator_count = λ epoch. 3;
  epoch_checkpoints = λ epoch. [];
  latest_known_epoch = 0;
}

found : (a : Address) → IsAmong validators a → (0 < place_of a) × (place_of a ≤ 3)
unfolding contains
found a among = (ground arith, ground arith)

at_place_of : (a : Address) → IsAmong validators a → at_place (place_of a) ≡ a
unfolding contains
at_place_of a among = ground arith

not_found :
    (a : Address)
    → contains Bytes-discrete a validators ≡ false
    → ((place_of a == 0) || not (ltb (place_of a - 1) 3)) ≡ true
unfolding contains
not_found a outside = ground arith

three_known : Knows placed three 0 validators
three_known = record {
  placed = λ a among. (found a among).0;
  active =
      λ a among. lt→ltb (place_of a - 1) 3 (omega (arith, (found a among).0, (found a among).1));
  reached = λ a among. omega (arith, (found a among).0, (found a among).1);
  apart = λ a b here there e. sym (at_place_of a here) ∙ ap at_place e ∙ at_place_of b there;
  outside = not_found;
}

three_recorded : Records placed three 0 validators
three_recorded = record { knows = three_known; counted = refl }

two_accepted : check_validators_and_quorum_reached placed three 0 (alice ∷ bob ∷ []) ≡ ok true
unfolding contains Bytes-discrete
two_accepted =
    contract_accepts placed world client 2 2 three 0 two_prove three_recorded (refl, (refl, tt))

-- one validator and an outsider are two signers, but no quorum
outsider_skipped :
    check_validators_and_quorum_reached placed three 0 (alice ∷ (9 ∷ []) ∷ [])
    ≡ ok (
        leb
          (quorum_of validators)
          (distinct Bytes-discrete (validators_among validators (alice ∷ (9 ∷ []) ∷ []))))
outsider_skipped = contract_counts placed three 0 validators three_recorded (alice ∷ (9 ∷ []) ∷ [])

-- a set as the list of its members, the latest first
abbrev pub index_in : List Address → Address → ℕ
index_in [] a = 0
index_in (x ∷ s) a = ite (Bytes-discrete x a) (length s + 1) (index_in s a)

index_in_le : (a : Address) (s : List Address) → index_in s a ≤ length s
index_in_le a [] = omega arith
index_in_le a (x ∷ s) = ground (arith, index_in_le a s)

index_in_apart :
    (a b : Address) (s : List Address) → 0 < index_in s a → index_in s a ≡ index_in s b → a ≡ b
index_in_apart a b [] known same = absurd (omega arith)
index_in_apart a b (x ∷ s) known same =
    ground (arith, index_in_apart a b s, index_in_le a s, index_in_le b s)

index_in-add :
    (a b : Address) (s : List Address)
    → index_in (if index_in s a == 0 then a ∷ s else s) b
      ≡ (if index_in s b == 0 then ite (Bytes-discrete a b) (length s + 1) 0 else index_in s b)
index_in-add a b s = ground (arith, λ (e : a ≡ b). ap (index_in s) e)

abbrev pub listed : AddressSetOps (List Address)
listed = record {
  add = λ a s. if index_in s a == 0 then a ∷ s else s;
  length = length;
  index = index_in;
}

pub listed_laws : AddressSetLaws listed
listed_laws = record {
  index-add = λ a b s. index_in-add a b s;
  length-add = λ a s. ground arith;
  index_le = index_in_le;
  index_apart = index_in_apart;
}

abbrev pub no_history : ValidatorHistory (List Address)
no_history = record {
  all_validators = [];
  active_validators = λ epoch index. false;
  validator_count = λ epoch. 0;
  epoch_checkpoints = λ epoch. [];
  latest_known_epoch = 0;
}

abbrev pub first_history : ValidatorHistory (List Address)
first_history = record {
  all_validators = carol ∷ bob ∷ alice ∷ [];
  active_validators =
      write_epoch no_history.active_validators 1 (copy_buckets 1 (2 ∷ 1 ∷ 0 ∷ []) (λ index. false));
  validator_count = write_epoch no_history.validator_count 1 3;
  epoch_checkpoints = λ epoch. [];
  latest_known_epoch = 1;
}

pub first_updated : update_active_validator_set listed no_history validators 1 ≡ ok first_history
unfolding update_active_validator_set add_loop add_validator Bytes-discrete
first_updated = refl

update_counted :
    check_validators_and_quorum_reached listed first_history 1 (alice ∷ (9 ∷ []) ∷ bob ∷ [])
    ≡ ok (
        leb
          (quorum_of validators)
          (distinct Bytes-discrete (validators_among validators (alice ∷ (9 ∷ []) ∷ bob ∷ []))))
update_counted =
    updated_counts listed listed_laws no_history validators 1 (alice ∷ (9 ∷ []) ∷ bob ∷ [])
      first_updated (omega arith) (omega arith)

update_accepted :
    check_validators_and_quorum_reached listed first_history 1 (alice ∷ bob ∷ []) ≡ ok true
unfolding contains Bytes-discrete
update_accepted =
    updated_accepts listed listed_laws world client 2 2 no_history 1 two_prove first_updated
      (omega arith) (omega arith) (refl, (refl, tt))
