-- ===== src/Contract/Chains/Calls.antt =====
-- contracts/RelayHub.sol: the contract after its deployment, and the calls that change it.
use bas_relay_hub.Prelude.{ℕ, false, Option, none, List, Bytes, replicate, ◌≡◌, ◌≢◌, ◌⊎◌}
use bas_relay_hub.Errors.{ok}
use bas_relay_hub.Eth.{Address, Hash}
use bas_relay_hub.Contract.{AddressSetOps}
use bas_relay_hub.Contract.Chains.{
  not_found, bsc, verifier_of, div_checked, checker, write_chain, ProofVerificationFunction,
  Staking, Crypto, RelayHubState, register_certified_bas, register_using_checkpoint, register_bas,
  register_bsc,
}
use bas_relay_hub.Contract.Chains.Epochs.{
  update_validator_set, update_validator_set_using_epoch_blocks, checkpoint_transition,
  check_signatures, pass_epoch_blocks,
}

-- after the constructor: every mapping gives zeros
abbrev pub deployed : {S : Type 0} → S → RelayHubState S
deployed empty = record {
  validator_histories = λ chain_id. record {
    all_validators = empty;
    active_validators = λ epoch_number index. false;
    validator_count = λ epoch_number. 0;
    epoch_checkpoints = λ epoch_number. replicate 32 0;
    latest_known_epoch = 0;
  };
  registered_chains = λ chain_id. record {
    chain_status = not_found;
    chain_type = bsc;
    verification_function = none;
    bridge_address = replicate 20 0;
    epoch_length = 0;
  };
}

module _ {S : Type 0} (set : AddressSetOps S) (default : ProofVerificationFunction)
    (staking : Staking) (crypto : Crypto) where
  -- one call that goes through
  pub data Call (s t : RelayHubState S) : Type 0 where
    registers_certified_bas :
        (chain_id : ℕ) (raw_block : Bytes) (bridge : Address) (epoch_length : ℕ)
        → register_certified_bas set default chain_id raw_block bridge epoch_length s ≡ ok t
        → Call s t
    registers_using_checkpoint :
        (chain_id : ℕ) (raw_block : Bytes) (checkpoint_hash : Option Hash) (bridge : Address)
        (epoch_length : ℕ)
        → register_using_checkpoint set default chain_id raw_block checkpoint_hash bridge
            epoch_length s
          ≡ ok t
        → Call s t
    registers_bas :
        (chain_id : ℕ) (verification_function : Option ProofVerificationFunction)
        (raw_block : Bytes) (bridge : Address) (epoch_length : ℕ)
        → register_bas set default chain_id verification_function raw_block bridge epoch_length s
          ≡ ok t
        → Call s t
    registers_bsc :
        (chain_id : ℕ) (raw_block : Bytes) (bridge : Address) (epoch_length : ℕ)
        → register_bsc set default chain_id raw_block bridge epoch_length s ≡ ok t
        → Call s t
    updates :
        (chain_id : ℕ) (block_proofs : List Bytes)
        → update_validator_set set default chain_id block_proofs s ≡ ok t
        → Call s t
    updates_using_epoch_blocks :
        (chain_id : ℕ) (block_proofs : List Bytes)
        → update_validator_set_using_epoch_blocks set default staking crypto chain_id block_proofs s
          ≡ ok t
        → Call s t
    transitions :
        (chain_id : ℕ) (raw_block : Bytes) (checkpoint_hash : Hash) (signatures : List Bytes)
        → checkpoint_transition set default staking crypto chain_id raw_block checkpoint_hash
            signatures s
          ≡ ok t
        → Call s t

  -- the validators of a block that registers a chain, or brings it to an epoch, as its function has verified it
  abbrev pub FromBlock : ProofVerificationFunction → ℕ → Bytes → ℕ → List Address → ℕ → Type 0
  FromBlock pvf chain_id raw_block epoch_length validators epoch_number =
      (block_hash : Hash) × (block_number : ℕ) × (pvf.verify_block_without_quorum chain_id raw_block
          epoch_length
        ≡ ok (block_hash, validators, block_number))
      × (div_checked block_number epoch_length ≡ ok epoch_number)

  -- what a call was given, and has verified: some validators, and the epoch that they are for
  abbrev pub Gives : {s t : RelayHubState S} → Call s t → List Address → ℕ → Type 0
  Gives (registers_certified_bas chain_id raw_block _ epoch_length _) =
      FromBlock default chain_id raw_block epoch_length
  Gives (registers_using_checkpoint chain_id raw_block _ _ epoch_length _) =
      FromBlock default chain_id raw_block epoch_length
  Gives (registers_bas chain_id f raw_block _ epoch_length _) =
      FromBlock (verifier_of default f) chain_id raw_block epoch_length
  Gives (registers_bsc chain_id raw_block _ epoch_length _) =
      FromBlock default chain_id raw_block epoch_length
  Gives {s} (updates chain_id block_proofs _) = λ validators epoch_number.
      let chain = s.registered_chains chain_id in
      (verifier_of default chain.verification_function).verify_validator_transition chain_id
        block_proofs chain.epoch_length (checker set s)
      ≡ ok (validators, epoch_number)
  Gives {s} (updates_using_epoch_blocks chain_id block_proofs _) = λ validators epoch_number.
      let chain = s.registered_chains chain_id in
      let history = s.validator_histories chain_id in
      let pvf = verifier_of default chain.verification_function in
      (passed : ℕ × ℕ × ℕ) × (rest : List Bytes) × (pass_epoch_blocks set default staking crypto pvf
          chain_id chain.epoch_length block_proofs none (history.latest_known_epoch, 0, 0)
        ≡ ok passed)
      × (crypto.calldata_from block_proofs passed.1 passed.2 ≡ ok rest)
      × (pvf.verify_validator_transition chain_id rest chain.epoch_length (
            checker set
              (write_chain s chain_id (record history { latest_known_epoch = passed.0 }) chain))
          ≡ ok (validators, epoch_number))
  Gives {s} (transitions chain_id raw_block checkpoint_hash signatures _) =
      λ validators epoch_number.
        let chain = s.registered_chains chain_id in
        (block_hash : Hash) × (block_number : ℕ) × ((verifier_of default
              chain.verification_function).verify_block_without_quorum
            chain_id raw_block chain.epoch_length
          ≡ ok (block_hash, validators, block_number))
        × (div_checked block_number chain.epoch_length ≡ ok epoch_number)
        × (check_signatures set default staking crypto s chain_id chain.chain_type
              (crypto.hash_pair block_hash checkpoint_hash) signatures epoch_number
            ≡ ok tt)

  -- the chain that a call is for
  abbrev pub chain_of : {s t : RelayHubState S} → Call s t → ℕ
  chain_of (registers_certified_bas chain_id _ _ _ _) = chain_id
  chain_of (registers_using_checkpoint chain_id _ _ _ _ _) = chain_id
  chain_of (registers_bas chain_id _ _ _ _ _) = chain_id
  chain_of (registers_bsc chain_id _ _ _ _) = chain_id
  chain_of (updates chain_id _ _) = chain_id
  chain_of (updates_using_epoch_blocks chain_id _ _) = chain_id
  chain_of (transitions chain_id _ _ _ _) = chain_id

  pub data Calls (s : RelayHubState S) : RelayHubState S → Type 0 where
    none_yet : Calls s s
    after : {t u : RelayHubState S} → Calls s t → Call t u → Calls s u

  -- what the last call for a chain was given
  abbrev pub LastGives : {s t : RelayHubState S} → Calls s t → ℕ → List Address → ℕ → Type 0
  LastGives none_yet chain_id validators epoch_number = ⊥
  LastGives (after earlier call) chain_id validators epoch_number =
      ((chain_of call ≡ chain_id) × Gives call validators epoch_number)
      ⊎ ((chain_of call ≢ chain_id) × LastGives earlier chain_id validators epoch_number)
