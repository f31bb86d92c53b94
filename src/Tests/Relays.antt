-- ===== src/Tests/Relays.antt =====
-- Two epochs of the small world, relayed to the hub contract.
use bas_relay_hub.Prelude.{
  ℕ, ◌/◌, ◌%◌, ◌≡◌, refl, sym, ap, ◌∙◌, true, Bool, inl, inr, Bool-cases, List, [], ◌∷◌, Bytes,
  ◌==◌, arith, Bytes-discrete,
}
use bas_relay_hub.Prelude.Words.{ℤ, pos, negsuc, int64}
use bas_relay_hub.Prelude.Maps.{GoMap, contains, insert}
use bas_relay_hub.Prelude.Maps.Counts.{distinct_from}
use bas_relay_hub.Errors.{ok, ok-injective}
use bas_relay_hub.Slices.{slice_upto, slice_from}
use bas_relay_hub.Eth.{Address, Header}
use bas_relay_hub.Parlia.{
  signing_items, signing_header_items, or_panic, recover_parlia_block_signer, copy_address,
  extract_loop, extract_parlia_validators,
}
use bas_relay_hub.Proof.Run.{IsProven, end, next, signers, ProvesEpoch}
use bas_relay_hub.Contract.Quorum.{Records}
use bas_relay_hub.Contract.Update.{add_validator, add_loop, update_active_validator_set}
use bas_relay_hub.Contract.Update.Counted.{updated, update-eq, updated-Knows}
use bas_relay_hub.Contract.Chains.{RelayHubState}
use bas_relay_hub.Contract.Verifier.Relayed.{header_of, ParsesSealed, BeginsEpoch}
use bas_relay_hub.Contract.Verifier.Honest.{HonestEpoch, honest_relayed}
use bas_relay_hub.Contract.Chains.Epochs.{update_validator_set}
use bas_relay_hub.Proof.{create_block_proofs}
use bas_relay_hub.Contract.Verifier.Relays.{Relays, done, relay, update_all, Holds, relays_on}
use bas_relay_hub.Tests.World.{alice, bob, carol, validators, sealer, world, block, client}
use bas_relay_hub.Tests.Runs.{two_proofs, two_prove, first_too_few}
use bas_relay_hub.Tests.Quorums.{listed, listed_laws, no_history}
use bas_relay_hub.Tests.Verifier.{honest, verifying_with, genesis, verifies}

fetched_block : (z : ℤ) {h : Header} → client.block_by_number z ≡ ok h → (n : ℕ) × (h ≡ block n)
fetched_block (pos n) fetched = (n, sym (ok-injective fetched))
fetched_block (negsuc n) fetched = cc

block_validators :
    (n : ℕ)
    → extract_parlia_validators world (block n)
      ≡ ok (validators, (alice, true) ∷ (bob, true) ∷ (carol, true) ∷ [])
unfolding extract_parlia_validators slice_upto extract_loop copy_address insert Bytes-discrete
block_validators n = elim (Bool-cases ((n % 2) == 0)) [
  | inl even ↦ rw even refl
  | inr odd ↦ rw odd refl
]

parses_proven :
    {i : ℕ} {h : Header} {raw_block : Bytes}
    → IsProven world client 56 i h raw_block
    → honest 56 raw_block 2 ≡ ok (header_of world h, validators)
parses_proven {i} {h} {raw_block} proven =
    let (n, is) = fetched_block (int64 i) proven.fetched in
    let raw : raw_block ≡ n ∷ sealer n =
      sym (ok-injective proven.encoded) ∙ ap (λ (g : Header). g.number ∷ g.coinbase) is in
    ap (λ (p : Bytes). honest 56 p 2) raw
    ∙ ap (λ (g : Header). ok (header_of world g, validators)) (sym is)

pub honest-ParsesSealed : ParsesSealed honest world client 56 2
honest-ParsesSealed = record {
  parses = λ proven. (validators, parses_proven proven);
  parses_epoch = λ {i} {h} proven found mapping begins extracted.
      let (n, is) = fetched_block (int64 i) proven.fetched in
      let same : validators ≡ found =
        ap (λ (v : List Address × GoMap Address Bool). v.0)
          (ok-injective (
            sym (block_validators n)
            ∙ ap (extract_parlia_validators world) (sym is)
            ∙ extracted)) in
      parses_proven proven ∙ ap (λ (v : List Address). ok (header_of world h, v)) same;
}

zero_updated :
    update_active_validator_set listed no_history validators 0
    ≡ ok (updated listed listed_laws no_history validators 0)
unfolding update_active_validator_set add_loop add_validator Bytes-discrete
zero_updated = refl

pub genesis-Records : Records listed (genesis.validator_histories 56) 0 validators
unfolding Bytes-discrete
genesis-Records = record {
  knows =
      updated-Knows listed listed_laws no_history validators 0
        (update-eq listed listed_laws no_history validators 0 zero_updated).1 (omega arith);
  counted = refl;
}

-- the epoch of each even block is proved by it and the next one
begins_at :
    (n : ℕ) (next_block : Header)
    → next_block.parent_hash ≡ n ∷ []
    → n % 2 ≡ 0
    → BeginsEpoch world 2 (n / 2) (block n ∷ next_block ∷ []) validators
begins_at n next_block child begins = record {
  first = block n;
  rest = next_block ∷ [];
  is = refl;
  linked = (child, tt);
  begins = begins;
  epoch = refl;
  mapping = (alice, true) ∷ (bob, true) ∷ (carol, true) ∷ [];
  extracted = block_validators n;
}

abbrev four_proofs : List Bytes
four_proofs = (4 ∷ alice) ∷ (5 ∷ bob) ∷ []

sealed_by :
    (recover_parlia_block_signer world (block 4) 56 ≡ ok alice)
    × (recover_parlia_block_signer world (block 5) 56 ≡ ok bob)
    × (signers (block 4 ∷ block 5 ∷ []) ≡ 2)
unfolding recover_parlia_block_signer signing_header_items signing_items or_panic slice_from
    slice_upto distinct_from contains Bytes-discrete
sealed_by = (refl, refl, refl)

abbrev four_prove : ProvesEpoch world client 4 2 four_proofs
four_prove = record {
  chain_id = 56;
  chain_id_known = refl;
  prev = block 2;
  prev_fetched = refl;
  validators = validators;
  mapping = (alice, true) ∷ (bob, true) ∷ (carol, true) ∷ [];
  extracted = block_validators 2;
  headers = block 4 ∷ block 5 ∷ [];
  run =
      next (record { fetched = refl; sealed = sealed_by.0; encoded = refl })
        (next (record { fetched = refl; sealed = sealed_by.1; encoded = refl }) end);
  quorum_reached = omega (arith, sealed_by.2);
  shortest = first_too_few;
  within = omega arith;
  some_block = λ e. cc;
}

abbrev two_epochs :
    Relays honest world 56 2 validators 2 validators 0 validators (two_proofs ∷ four_proofs ∷ [])
unfolding contains Bytes-discrete
two_epochs =
    relay client 2 two_prove validators honest-ParsesSealed refl (begins_at 2 (block 3) refl refl)
      (refl, (refl, tt)) (omega arith, omega arith) (refl, (refl, (refl, tt)))
      (relay client 4 four_prove validators honest-ParsesSealed refl
        (begins_at 4 (block 5) refl refl) (refl, (refl, tt)) (omega arith, omega arith)
        (refl, (refl, (refl, tt))) done)

genesis-Holds :
    Holds listed listed_laws honest
      (λ receipt root siblings path. ok true)
      (verifying_with honest)
      56
      2
      validators
      genesis
      0
      validators
unfolding Bytes-discrete
genesis-Holds = record {
  chain = verifies honest;
  same_length = refl;
  latest = refl;
  records = genesis-Records;
  room = omega arith;
}

relays_on_example :
    (t : RelayHubState (List Address)) × (update_all listed
        (verifying_with honest)
        56
        (two_proofs ∷ four_proofs ∷ [])
        genesis
      ≡ ok t)
    × Holds listed listed_laws honest
        (λ receipt root siblings path. ok true)
        (verifying_with honest)
        56
        2
        validators
        t
        2
        validators
relays_on_example =
    relays_on listed listed_laws honest (λ receipt root siblings path. ok true)
      (verifying_with honest) 56 2 validators world genesis two_epochs genesis-Holds

abbrev block_two : HonestEpoch world client 56 2 2 1 validators validators
unfolding contains Bytes-discrete
block_two = record {
  chain_id_known = refl;
  prev = block 0;
  prev_fetched = refl;
  mapping = two_prove.mapping;
  extracted = two_prove.extracted;
  headers = block 2 ∷ block 3 ∷ [];
  all = two_proofs;
  run = two_prove.run;
  whole = refl;
  begins = begins_at 2 (block 3) refl refl;
  sealed = (refl, (refl, tt));
  enough = two_prove.quorum_reached;
}

honest_relayed_example :
    (proofs : List Bytes) × (t : RelayHubState (List Address)) × (create_block_proofs world client 2
        2
      ≡ ok proofs)
    × (update_validator_set listed (verifying_with honest) 56 proofs genesis ≡ ok t)
    × Holds listed listed_laws honest
        (λ receipt root siblings path. ok true)
        (verifying_with honest)
        56
        2
        validators
        t
        1
        validators
unfolding contains Bytes-discrete
honest_relayed_example =
    honest_relayed listed listed_laws honest (λ receipt root siblings path. ok true)
      (verifying_with honest) 56 2 validators world client 2 0 validators validators genesis
      honest-ParsesSealed block_two genesis-Holds (omega arith) (omega arith)
      (refl, (refl, (refl, tt)))
