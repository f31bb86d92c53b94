-- ===== src/Contract/Chains.antt =====
-- contracts/RelayHub.sol: the chains that the hub contract knows, and the calls that change them. The
-- functions that verify blocks and the staking contract are called through their interfaces; events are
-- left out. A call that reverts is a panic, and changes nothing.
pub mod Epochs
pub mod Calls
pub mod Accepts
pub mod Recorded
pub mod Latest
use bas_relay_hub.Prelude.{
  ℕ, zero, suc, ◌+◌, ◌/◌, ◌%◌, Bool, true, false, ◌||◌, not, Option, none, some, List, [], ◌∷◌,
  Bytes, length, replicate, leb, ◌==◌, ◌≡◌, if◌then◌else◌, Bytes-discrete,
}
use mathlib.Core.Logic.{ite}
use bas_relay_hub.Errors.{Result, ok, panic, raised, divide_by_zero, ◌>>=◌, ◌>>◌}
use bas_relay_hub.Eth.{Address, Hash}
use bas_relay_hub.Contract.{AddressSetOps, ValidatorHistory, check_validators_and_quorum_reached}
use bas_relay_hub.Contract.Update.{write_epoch, update_active_validator_set}

pub data ChainStatus : Type 0 where
  not_found : ChainStatus
  verifying : ChainStatus
  active : ChainStatus

pub data ChainType : Type 0 where
  bsc : ChainType
  bas : ChainType

-- `IProofVerificationFunction.BlockHeader`
pub record BlockHeader : Type 0 where
  pub block_hash : Hash
  pub parent_hash : Hash
  pub block_number : ℕ
  pub coinbase : Address
  pub receipts_root : Hash
  pub txs_root : Hash
  pub state_root : Hash

-- `IValidatorChecker`, as far as it is called: `checkValidatorsAndQuorumReached`
abbrev pub Checker : Type 0
Checker = ℕ → List Address → ℕ → Result Bool

-- `IProofVerificationFunction`: the hash, validators and number of a block; the validators and the
-- epoch of a transition, and the first header of a list of blocks, which are verified by calls of the
-- checker; and whether a receipt is below a root
pub record ProofVerificationFunction : Type 0 where
  pub verify_block_without_quorum : ℕ → Bytes → ℕ → Result (Hash × List Address × ℕ)
  pub verify_validator_transition : ℕ → List Bytes → ℕ → Checker → Result (List Address × ℕ)
  pub verify_block_and_reached_quorum : ℕ → List Bytes → ℕ → Checker → Result BlockHeader
  pub check_receipt_proof : Bytes → Hash → Bytes → Bytes → Result Bool

-- `IStaking`
pub record Staking : Type 0 where
  pub is_validator_active : Address → Bool
  pub get_validators : List Address

-- `ECDSA.recover`, `keccak256(abi.encode(…))` of two hashes and of a list of validators, and the list that
-- the calldata of a list gives from an offset on, with a number of its elements less
pub record Crypto : Type 0 where
  pub recover : Hash → Bytes → Result Address
  pub hash_pair : Hash → Hash → Hash
  pub hash_validators : List Address → Hash
  pub calldata_from : List Bytes → ℕ → ℕ → Result (List Bytes)

-- `BAS`; the verification function is none where its address is 0
pub record Bas : Type 0 where
  pub chain_status : ChainStatus
  pub chain_type : ChainType
  pub verification_function : Option ProofVerificationFunction
  pub bridge_address : Address
  pub epoch_length : ℕ

-- the mappings of the contract, by the id of a chain
pub record RelayHubState (S : Type 0) : Type 0 where
  pub validator_histories : ℕ → ValidatorHistory S
  pub registered_chains : ℕ → Bas

-- `require`
abbrev pub require : Bool → Result (Unit {0})
require b = if b then ok tt else panic raised

-- division reverts for 0
unfoldable pub div_checked : ℕ → ℕ → Result ℕ
div_checked n d = if d == 0 then panic divide_by_zero else ok (n / d)

unfoldable pub rem_checked : ℕ → ℕ → Result ℕ
rem_checked n d = if d == 0 then panic divide_by_zero else ok (n % d)

-- subtraction of 1 reverts for 0
abbrev pub before : ℕ → Result ℕ
before zero = panic raised
before (suc n) = ok n

abbrev pub is_registering : ChainStatus → Bool
is_registering not_found = true
is_registering verifying = true
is_registering active = false

abbrev pub is_registered : ChainStatus → Bool
is_registered not_found = false
is_registered verifying = true
is_registered active = true

-- a checkpoint hash, where it is not 0, must be that of the block
abbrev pub is_expected : Option Hash → Hash → Bool
is_expected none block_hash = true
is_expected (some checkpoint_hash) block_hash =
    ite (Bytes-discrete checkpoint_hash block_hash) true false

abbrev pub verifier_of :
    ProofVerificationFunction → Option ProofVerificationFunction → ProofVerificationFunction
verifier_of default none = default
verifier_of default (some f) = f

-- `_validatorHistories[chainId]` and `_registeredChains[chainId]` are written
abbrev pub write_chain :
    {S : Type 0} → RelayHubState S → ℕ → ValidatorHistory S → Bas → RelayHubState S
write_chain s chain_id history chain = record {
  validator_histories = write_epoch s.validator_histories chain_id history;
  registered_chains = write_epoch s.registered_chains chain_id chain;
}

-- the validators of an epoch of a chain, as the contract answers while a call runs
abbrev pub checker : {S : Type 0} → AddressSetOps S → RelayHubState S → Checker
checker set s chain_id validator_set epoch_number =
    check_validators_and_quorum_reached set (s.validator_histories chain_id) epoch_number
      validator_set

module _ {S : Type 0} (set : AddressSetOps S) (default : ProofVerificationFunction) where
  -- `_registerChainWithVerificationFunction`; the hash of a checkpoint may be none
  unfoldable pub register_chain :
      ℕ
      → Option ProofVerificationFunction
      → Bytes
      → Option Hash
      → ChainStatus
      → ChainType
      → Address
      → ℕ
      → RelayHubState S
      → Result (RelayHubState S)
  register_chain chain_id verification_function raw_block checkpoint_hash status chain_type bridge
        epoch_length s =
      do
        require (is_registering (s.registered_chains chain_id).chain_status)
        (block_hash, initial_validator_set, block_number) ←
            (verifier_of default verification_function).verify_block_without_quorum chain_id
              raw_block epoch_length
        require (is_expected checkpoint_hash block_hash)
        epoch_number ← div_checked block_number epoch_length
        history ←
            update_active_validator_set set (s.validator_histories chain_id) initial_validator_set
              epoch_number
        ok (
            write_chain s chain_id history (record {
              chain_status = status;
              chain_type = chain_type;
              verification_function = verification_function;
              bridge_address = bridge;
              epoch_length = epoch_length;
            }))

  unfoldable pub register_certified_bas :
      ℕ → Bytes → Address → ℕ → RelayHubState S → Result (RelayHubState S)
  register_certified_bas chain_id raw_genesis_block bridge epoch_length =
      register_chain chain_id none raw_genesis_block none verifying bas bridge epoch_length

  unfoldable pub register_using_checkpoint :
      ℕ → Bytes → Option Hash → Address → ℕ → RelayHubState S → Result (RelayHubState S)
  register_using_checkpoint chain_id raw_checkpoint_block checkpoint_hash bridge epoch_length =
      register_chain chain_id none raw_checkpoint_block checkpoint_hash verifying bas bridge
        epoch_length

  unfoldable pub register_bas :
      ℕ
      → Option ProofVerificationFunction
      → Bytes
      → Address
      → ℕ
      → RelayHubState S
      → Result (RelayHubState S)
  register_bas chain_id verification_function raw_genesis_block bridge epoch_length =
      register_chain chain_id verification_function raw_genesis_block none verifying bas bridge
        epoch_length

  unfoldable pub register_bsc : ℕ → Bytes → Address → ℕ → RelayHubState S → Result (RelayHubState S)
  register_bsc chain_id raw_genesis_block bridge epoch_length =
      register_chain chain_id none raw_genesis_block none verifying bsc bridge epoch_length
