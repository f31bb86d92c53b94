-- ===== src/Tests/Runs.antt =====
-- A run of two blocks that proves an epoch of the small world.
use bas_relay_hub.Prelude.{
  ◌<◌, ◌≡◌, ◌≢◌, ◌++◌, length, length-append, refl, ap, true, List, [], ◌∷◌, Bytes, arith,
  Bytes-discrete,
}
use bas_relay_hub.Prelude.Maps.{contains, insert}
use bas_relay_hub.Prelude.Maps.Counts.{distinct_from}
use bas_relay_hub.Errors.{ok}
use bas_relay_hub.Slices.{slice_upto, slice_from}
use bas_relay_hub.Eth.{Header}
use bas_relay_hub.Parlia.{
  signing_items, signing_header_items, or_panic, recover_parlia_block_signer, copy_address,
  extract_loop, extract_parlia_validators,
}
use bas_relay_hub.Proof.Run.{next, end, signers, ProvesEpoch}
use bas_relay_hub.Tests.World.{alice, bob, carol, validators, world, block, client}

-- the run that proves the epoch of block 2: two blocks, by two sealers
abbrev pub two_proofs : List Bytes
two_proofs = (2 ∷ alice) ∷ (3 ∷ bob) ∷ []

pub signer_found : recover_parlia_block_signer world (block 2) 56 ≡ ok alice
unfolding recover_parlia_block_signer signing_header_items signing_items or_panic slice_from
    slice_upto
signer_found = refl

pub two_signers : signers (block 2 ∷ block 3 ∷ []) ≡ 2
unfolding distinct_from contains Bytes-discrete
two_signers = refl

one_signer : (h : Header) → signers (h ∷ []) ≡ 1
unfolding distinct_from contains
one_signer h = refl

-- a run of two blocks is cut after the first one only
pub first_too_few :
    {g h : Header} (front back : List Header)
    → g ∷ h ∷ [] ≡ front ++ back
    → front ≢ []
    → back ≢ []
    → signers front < 2
first_too_few [] back e hf hb = absurd (hf refl)
first_too_few (h ∷ []) back e hf hb = omega (arith, one_signer h)
first_too_few (h ∷ k ∷ front) [] e hf hb = absurd (hb refl)
first_too_few (h ∷ k ∷ front) (l ∷ back) e hf hb =
    absurd (omega (arith, ap (λ (hs : List Header). length hs) e, length-append front (l ∷ back)))

pub validators_found :
    extract_parlia_validators world (block 0)
    ≡ ok (validators, (alice, true) ∷ (bob, true) ∷ (carol, true) ∷ [])
unfolding extract_parlia_validators slice_upto extract_loop copy_address insert Bytes-discrete
validators_found = refl

pub sealed_by_bob : recover_parlia_block_signer world (block 3) 56 ≡ ok bob
unfolding recover_parlia_block_signer signing_header_items signing_items or_panic slice_from
    slice_upto
sealed_by_bob = refl

abbrev pub two_prove : ProvesEpoch world client 2 2 two_proofs
two_prove = record {
  chain_id = 56;
  chain_id_known = refl;
  prev = block 0;
  prev_fetched = refl;
  validators = validators;
  mapping = (alice, true) ∷ (bob, true) ∷ (carol, true) ∷ [];
  extracted = validators_found;
  headers = block 2 ∷ block 3 ∷ [];
  run =
      next (record { fetched = refl; sealed = signer_found; encoded = refl })
        (next (record { fetched = refl; sealed = sealed_by_bob; encoded = refl }) end);
  quorum_reached = omega (arith, two_signers);
  shortest = first_too_few;
  within = omega arith;
  some_block = λ e. cc;
}
