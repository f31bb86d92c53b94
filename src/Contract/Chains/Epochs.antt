-- ===== src/Contract/Chains/Epochs.antt =====
-- contracts/RelayHub.sol: the calls that bring a chain to a new epoch.
use bas_relay_hub.Prelude.{
  ℕ, ◌+◌, ◌/◌, true, false, not, Option, none, some, List, [], ◌∷◌, Bytes, length, leb, ◌==◌,
  if◌then◌else◌, Bytes-discrete,
}
use mathlib.Core.Logic.{ite}
use bas_relay_hub.Errors.{Result, ok, ◌>>=◌, ◌>>◌}
use bas_relay_hub.Eth.{Address, Hash}
use bas_relay_hub.Contract.{AddressSetOps}
use bas_relay_hub.Contract.Update.{write_epoch, update_active_validator_set}
use bas_relay_hub.Contract.Chains.{
  active, ChainType, bsc, bas, ProofVerificationFunction, Staking, Crypto, RelayHubState, require,
  div_checked, rem_checked, before, is_registered, verifier_of, write_chain, checker,
}

module _ {S : Type 0} (set : AddressSetOps S) (default : ProofVerificationFunction) where
  unfoldable pub update_validator_set : ℕ → List Bytes → RelayHubState S → Result (RelayHubState S)
  update_validator_set chain_id block_proofs s = do
    let chain = s.registered_chains chain_id
    require (is_registered chain.chain_status)
    (new_validator_set, epoch_number) ←
        (verifier_of default chain.verification_function).verify_validator_transition chain_id
          block_proofs chain.epoch_length (checker set s)
    history ←
        update_active_validator_set set (s.validator_histories chain_id) new_validator_set
          epoch_number
    ok (write_chain s chain_id history (record chain { chain_status = active }))

  module _ (staking : Staking) (crypto : Crypto) where
    -- The loop of `updateValidatorSetUsingEpochBlocks`, with the snapshot of the first block, behind it:
    -- the latest epoch, and the offset and the number of the blocks that were passed. A block that begins
    -- no epoch ends it.
    unfoldable pub pass_epoch_blocks :
        ProofVerificationFunction
        → ℕ
        → ℕ
        → List Bytes
        → Option Hash
        → ℕ × ℕ × ℕ
        → Result (ℕ × ℕ × ℕ)
    pass_epoch_blocks pvf chain_id epoch_length [] snapshot passed = ok passed
    pass_epoch_blocks pvf chain_id epoch_length (block_proof ∷ block_proofs) snapshot
          (latest, offset, size) =
        pvf.verify_block_without_quorum chain_id block_proof epoch_length
        >>= λ (block : Hash × List Address × ℕ). rem_checked block.2 epoch_length >>= λ (rest : ℕ).
            if not (rest == 0)
            then ok (latest, offset, size)
            else (let new_snapshot = crypto.hash_validators block.1 in
                let offset' = offset + length block_proof + 32 in
                elim snapshot [
                  | none ↦
                      require (block.2 / epoch_length == latest + 1)
                      >> pass_epoch_blocks pvf chain_id epoch_length block_proofs
                          (some new_snapshot) (latest + 1, offset', size + 1)
                  | some first ↦
                      require (ite (Bytes-discrete new_snapshot first) false true)
                      >> pass_epoch_blocks pvf chain_id epoch_length block_proofs (some first)
                          (latest, offset', size + 1)
                ])

    unfoldable pub update_validator_set_using_epoch_blocks :
        ℕ → List Bytes → RelayHubState S → Result (RelayHubState S)
    update_validator_set_using_epoch_blocks chain_id block_proofs s = do
      let chain = s.registered_chains chain_id
      let pvf = verifier_of default chain.verification_function
      require (is_registered chain.chain_status)
      passed ←
          pass_epoch_blocks pvf chain_id chain.epoch_length block_proofs none
            ((s.validator_histories chain_id).latest_known_epoch, 0, 0)
      let history = record (s.validator_histories chain_id) { latest_known_epoch = passed.0 }
      rest ← crypto.calldata_from block_proofs passed.1 passed.2
      verified ←
          pvf.verify_validator_transition chain_id rest chain.epoch_length
            (checker set (write_chain s chain_id history chain))
      history' ← update_active_validator_set set history verified.0 verified.1
      ok (write_chain s chain_id history' (record chain { chain_status = active }))

    -- the loops over the signatures: what is recovered of each, in their order
    unfoldable pub recover_signers : Hash → List Bytes → Result (List Address)
    recover_signers signing_root [] = ok []
    recover_signers signing_root (signature ∷ signatures) = do
      signer ← crypto.recover signing_root signature
      signers ← recover_signers signing_root signatures
      ok (signer ∷ signers)

    -- on BSC each signer is checked as soon as it is recovered
    unfoldable pub require_active : Hash → List Bytes → Result (Unit {0})
    require_active signing_root [] = ok tt
    require_active signing_root (signature ∷ signatures) = do
      signer ← crypto.recover signing_root signature
      require (staking.is_validator_active signer)
      require_active signing_root signatures

    unfoldable pub check_signatures :
        RelayHubState S → ℕ → ChainType → Hash → List Bytes → ℕ → Result (Unit {0})
    check_signatures s chain_id bsc signing_root signatures new_epoch_number = do
      require_active signing_root signatures
      require (leb (length staking.get_validators) (length signatures))
    check_signatures s chain_id bas signing_root signatures new_epoch_number = do
      signers ← recover_signers signing_root signatures
      epoch_number ← before new_epoch_number
      reached ← checker set s chain_id signers epoch_number
      require reached

    unfoldable pub checkpoint_transition :
        ℕ → Bytes → Hash → List Bytes → RelayHubState S → Result (RelayHubState S)
    checkpoint_transition chain_id raw_epoch_block checkpoint_hash signatures s = do
      let chain = s.registered_chains chain_id
      require (is_registered chain.chain_status)
      (block_hash, new_validator_set, block_number) ←
          (verifier_of default chain.verification_function).verify_block_without_quorum chain_id
            raw_epoch_block chain.epoch_length
      new_epoch_number ← div_checked block_number chain.epoch_length
      check_signatures s chain_id chain.chain_type (crypto.hash_pair block_hash checkpoint_hash)
          signatures new_epoch_number
      history ←
          update_active_validator_set set (s.validator_histories chain_id) new_validator_set
            new_epoch_number
      ok (
          write_chain s chain_id
            (record history {
              epoch_checkpoints =
                  write_epoch history.epoch_checkpoints new_epoch_number checkpoint_hash;
            })
            (record chain { chain_status = active }))
