-- ===== src/Tests/Chains.antt =====
-- A chain that is registered with the hub contract.
use bas_relay_hub.Prelude.{
  ◌*◌, ◌/◌, ◌%◌, ◌≡◌, refl, true, none, List, [], ◌∷◌, length, concat, leb, arith, Bytes-discrete,
}
use bas_relay_hub.Prelude.Words.{word}
use bas_relay_hub.Prelude.Maps.Counts.{distinct}
use bas_relay_hub.Errors.{ok, err, external}
use bas_relay_hub.Eth.{Address}
use bas_relay_hub.Contract.{check_validators_and_quorum_reached}
use bas_relay_hub.Contract.Quorum.{validators_among}
use bas_relay_hub.Contract.Update.{
  copy_buckets, write_epoch, add_validator, add_loop, update_active_validator_set,
}
use bas_relay_hub.Contract.Chains.{
  verifying, bas, ProofVerificationFunction, Staking, Crypto, RelayHubState, div_checked,
  register_chain, register_certified_bas, write_chain,
}
use bas_relay_hub.Contract.Chains.Calls.{
  Calls, LastGives, deployed, registers_certified_bas, none_yet, after,
}
use bas_relay_hub.Contract.Chains.Latest.{latest_counts}
use bas_relay_hub.Tests.World.{alice, bob, carol, validators}
use bas_relay_hub.Tests.Quorums.{listed, listed_laws}

-- each block is block 2 with the three validators
abbrev verifier : ProofVerificationFunction
verifier = record {
  verify_block_without_quorum = λ chain_id raw epoch_length. ok (2 ∷ [], validators, 2);
  verify_validator_transition = λ chain_id proofs epoch_length check. ok (validators, 2);
  verify_block_and_reached_quorum = λ chain_id proofs epoch_length check. err (external 9);
  check_receipt_proof = λ receipt root siblings path. ok true;
}

abbrev staking : Staking
staking = record { is_validator_active = λ a. true; get_validators = [] }

abbrev crypto : Crypto
crypto = record {
  recover = λ root signature. ok signature;
  hash_pair = λ g h. g;
  hash_validators = concat;
  calldata_from = λ proofs offset size. ok proofs;
}

abbrev pub zeros : RelayHubState (List Address)
zeros = deployed []

abbrev one_chain : RelayHubState (List Address)
one_chain =
    write_chain zeros 56
      (record (zeros.validator_histories 56) {
        all_validators = carol ∷ bob ∷ alice ∷ [];
        active_validators =
            write_epoch (zeros.validator_histories 56).active_validators 1 (
              copy_buckets 1 (2 ∷ 1 ∷ 0 ∷ []) ((zeros.validator_histories 56).active_validators 1));
        validator_count = write_epoch (zeros.validator_histories 56).validator_count 1 3;
        latest_known_epoch = 1;
      })
      (record {
        chain_status = verifying;
        chain_type = bas;
        verification_function = none;
        bridge_address = alice;
        epoch_length = 2;
      })

registered : register_certified_bas listed verifier 56 [] alice 2 zeros ≡ ok one_chain
unfolding register_certified_bas register_chain div_checked update_active_validator_set add_loop
    add_validator Bytes-discrete
registered = refl

abbrev one_call : Calls listed verifier staking crypto zeros one_chain
one_call = after none_yet (registers_certified_bas 56 [] alice 2 registered)

latest_counts_example :
    (known : List Address) × LastGives listed verifier staking crypto one_call 56 known 1
    × (3 ≡ length known % word)
    × ((signers : List Address)
        → check_validators_and_quorum_reached listed (one_chain.validator_histories 56) 1 signers
          ≡ ok (leb (3 * 2 / 3) (distinct Bytes-discrete (validators_among known signers))))
latest_counts_example =
    latest_counts listed listed_laws verifier staking crypto [] 56 one_call refl (omega arith)
