-- ===== src/Contract/Chains/Recorded.antt =====
-- Each call leaves a record of the validators that it was given.
use bas_relay_hub.Prelude.{ℕ, ◌≡◌, sym, Option, none, List, Bytes}
use bas_relay_hub.Errors.{ok, >>=-eq-ok, ok-injective}
use bas_relay_hub.Eth.{Address, Hash}
use bas_relay_hub.Contract.{AddressSetOps, AddressSetLaws, ValidatorHistory}
use bas_relay_hub.Contract.Update.{update_active_validator_set}
use bas_relay_hub.Contract.Update.Counted.{Recorded, update-latest, update-Recorded}
use bas_relay_hub.Contract.Chains.{
  ChainStatus, verifying, ChainType, bsc, bas, ProofVerificationFunction, Staking, Crypto, Bas,
  RelayHubState, require, is_registering, is_registered, is_expected, div_checked, verifier_of,
  write_chain, register_chain, register_certified_bas, register_using_checkpoint, register_bas,
  register_bsc, checker,
}
use bas_relay_hub.Contract.Chains.Epochs.{
  pass_epoch_blocks, update_validator_set, update_validator_set_using_epoch_blocks,
  check_signatures, checkpoint_transition,
}
use bas_relay_hub.Contract.Chains.Calls.{
  Call, registers_certified_bas, registers_using_checkpoint, registers_bas, registers_bsc, updates,
  updates_using_epoch_blocks, transitions, FromBlock, Gives, chain_of,
}

module _ {S : Type 0} (set : AddressSetOps S) (laws : AddressSetLaws set)
    (default : ProofVerificationFunction) (staking : Staking) (crypto : Crypto) where
  -- a call writes one chain, with a record of some validators and the epoch that they are for
  pub record Effect (s t : RelayHubState S) (chain_id : ℕ) (Given : List Address → ℕ → Type 0)
      : Type 0 where
    pub validators : List Address
    pub epoch_number : ℕ
    pub history : ValidatorHistory S
    pub chain : Bas
    pub given : Given validators epoch_number
    pub writes : t ≡ write_chain s chain_id history chain
    pub latest : history.latest_known_epoch ≡ epoch_number
    pub recorded : Recorded set history validators

  register_chain-Effect :
      (chain_id : ℕ) (f : Option ProofVerificationFunction) (raw_block : Bytes)
      (checkpoint_hash : Option Hash) (status : ChainStatus) (chain_type : ChainType)
      (bridge : Address) (epoch_length : ℕ) (s : RelayHubState S) {t : RelayHubState S}
      → register_chain set default chain_id f raw_block checkpoint_hash status chain_type bridge
          epoch_length s
        ≡ ok t
      → Effect s t chain_id (
          FromBlock set default staking crypto
            (verifier_of default f)
            chain_id
            raw_block
            epoch_length)
  unfolding register_chain
  register_chain-Effect chain_id f raw_block checkpoint_hash status chain_type bridge epoch_length s
        h =
      let (_, _, h₁) =
        >>=-eq-ok (require (is_registering (s.registered_chains chain_id).chain_status)) _ h in
      let (block, verified, h₂) =
        >>=-eq-ok
          ((verifier_of default f).verify_block_without_quorum chain_id raw_block epoch_length) _
          h₁ in
      let (_, _, h₃) = >>=-eq-ok (require (is_expected checkpoint_hash block.0)) _ h₂ in
      let (epoch_number, divided, h₄) = >>=-eq-ok (div_checked block.2 epoch_length) _ h₃ in
      let (history, updated, h₅) =
        >>=-eq-ok
          (update_active_validator_set set (s.validator_histories chain_id) block.1 epoch_number) _
          h₄ in
      record {
        validators = block.1;
        epoch_number = epoch_number;
        history = history;
        chain = _;
        given = (block.0, block.2, verified, divided);
        writes = sym (ok-injective h₅);
        latest =
            update-latest set laws (s.validator_histories chain_id) block.1 epoch_number updated;
        recorded =
            update-Recorded set laws (s.validator_histories chain_id) block.1 epoch_number updated;
      }

  update-Effect :
      (chain_id : ℕ) (block_proofs : List Bytes) (s : RelayHubState S) {t : RelayHubState S}
      (h : update_validator_set set default chain_id block_proofs s ≡ ok t)
      → Effect s t chain_id (Gives set default staking crypto (updates chain_id block_proofs h))
  unfolding update_validator_set
  update-Effect chain_id block_proofs s h =
      let chain = s.registered_chains chain_id in
      let (_, _, h₁) = >>=-eq-ok (require (is_registered chain.chain_status)) _ h in
      let (verified, is, h₂) =
        >>=-eq-ok
          ((verifier_of default chain.verification_function).verify_validator_transition chain_id
            block_proofs chain.epoch_length (checker set s))
          _ h₁ in
      let (history, updated, h₃) =
        >>=-eq-ok
          (update_active_validator_set set (s.validator_histories chain_id) verified.0 verified.1) _
          h₂ in
      record {
        validators = verified.0;
        epoch_number = verified.1;
        history = history;
        chain = _;
        given = is;
        writes = sym (ok-injective h₃);
        latest =
            update-latest set laws (s.validator_histories chain_id) verified.0 verified.1 updated;
        recorded =
            update-Recorded set laws (s.validator_histories chain_id) verified.0 verified.1 updated;
      }

  epoch_blocks-Effect :
      (chain_id : ℕ) (block_proofs : List Bytes) (s : RelayHubState S) {t : RelayHubState S}
      (h : update_validator_set_using_epoch_blocks set default staking crypto chain_id block_proofs
          s
        ≡ ok t)
      → Effect s t chain_id
          (Gives set default staking crypto (updates_using_epoch_blocks chain_id block_proofs h))
  unfolding update_validator_set_using_epoch_blocks
  epoch_blocks-Effect chain_id block_proofs s h =
      let chain = s.registered_chains chain_id in
      let pvf = verifier_of default chain.verification_function in
      let history = s.validator_histories chain_id in
      let (_, _, h₁) = >>=-eq-ok (require (is_registered chain.chain_status)) _ h in
      let (passed, passes, h₂) =
        >>=-eq-ok
          (pass_epoch_blocks set default staking crypto pvf chain_id chain.epoch_length block_proofs
            none (history.latest_known_epoch, 0, 0))
          _ h₁ in
      let history' : ValidatorHistory S = record history { latest_known_epoch = passed.0 } in
      let (rest, called, h₃) =
        >>=-eq-ok (crypto.calldata_from block_proofs passed.1 passed.2) _ h₂ in
      let (verified, is, h₄) =
        >>=-eq-ok
          (pvf.verify_validator_transition chain_id rest chain.epoch_length
            (checker set (write_chain s chain_id history' chain)))
          _ h₃ in
      let (history'', updated, h₅) =
        >>=-eq-ok (update_active_validator_set set history' verified.0 verified.1) _ h₄ in
      record {
        validators = verified.0;
        epoch_number = verified.1;
        history = history'';
        chain = _;
        given = (passed, rest, passes, called, is);
        writes = sym (ok-injective h₅);
        latest = update-latest set laws history' verified.0 verified.1 updated;
        recorded = update-Recorded set laws history' verified.0 verified.1 updated;
      }

  -- the record of a checkpoint does not change what is known of the epoch
  checkpointed-Recorded :
      (history : ValidatorHistory S) (checkpoints : ℕ → Hash) {validators : List Address}
      → Recorded set history validators
      → Recorded set (record history { epoch_checkpoints = checkpoints }) validators
  checkpointed-Recorded history checkpoints recorded = record {
    counted = recorded.counted;
    knows = λ room.
        let known = recorded.knows room in
        record {
          placed = known.placed;
          active = known.active;
          reached = known.reached;
          apart = known.apart;
          outside = known.outside;
        };
  }

  transition-Effect :
      (chain_id : ℕ) (raw_block : Bytes) (checkpoint_hash : Hash) (signatures : List Bytes)
      (s : RelayHubState S) {t : RelayHubState S}
      (h : checkpoint_transition set default staking crypto chain_id raw_block checkpoint_hash
          signatures s
        ≡ ok t)
      → Effect s t chain_id (
          Gives set default staking crypto
            (transitions chain_id raw_block checkpoint_hash signatures h))
  unfolding checkpoint_transition
  transition-Effect chain_id raw_block checkpoint_hash signatures s h =
      let chain = s.registered_chains chain_id in
      let (_, _, h₁) = >>=-eq-ok (require (is_registered chain.chain_status)) _ h in
      let (block, verified, h₂) =
        >>=-eq-ok
          ((verifier_of default chain.verification_function).verify_block_without_quorum chain_id
            raw_block chain.epoch_length)
          _ h₁ in
      let (epoch_number, divided, h₃) = >>=-eq-ok (div_checked block.2 chain.epoch_length) _ h₂ in
      let (_, signed, h₄) =
        >>=-eq-ok
          (check_signatures set default staking crypto s chain_id chain.chain_type
            (crypto.hash_pair block.0 checkpoint_hash) signatures epoch_number)
          _ h₃ in
      let (history, updated, h₅) =
        >>=-eq-ok
          (update_active_validator_set set (s.validator_histories chain_id) block.1 epoch_number) _
          h₄ in
      record {
        validators = block.1;
        epoch_number = epoch_number;
        history = _;
        chain = _;
        given = (block.0, block.2, verified, divided, signed);
        writes = sym (ok-injective h₅);
        latest =
            update-latest set laws (s.validator_histories chain_id) block.1 epoch_number updated;
        recorded = checkpointed-Recorded history _ (
            update-Recorded set laws (s.validator_histories chain_id) block.1 epoch_number updated);
      }

  pub Call-Effect :
      {s t : RelayHubState S} (call : Call set default staking crypto s t)
      → Effect s t
          (chain_of set default staking crypto call)
          (Gives set default staking crypto call)
  unfolding register_certified_bas register_using_checkpoint register_bas register_bsc
  Call-Effect {s} (registers_certified_bas c b a n h) =
      register_chain-Effect c none b none verifying bas a n s h
  Call-Effect {s} (registers_using_checkpoint c b k a n h) =
      register_chain-Effect c none b k verifying bas a n s h
  Call-Effect {s} (registers_bas c f b a n h) =
      register_chain-Effect c f b none verifying bas a n s h
  Call-Effect {s} (registers_bsc c b a n h) =
      register_chain-Effect c none b none verifying bsc a n s h
  Call-Effect {s} (updates c proofs h) = update-Effect c proofs s h
  Call-Effect {s} (updates_using_epoch_blocks c proofs h) = epoch_blocks-Effect c proofs s h
  Call-Effect {s} (transitions c b k signatures h) = transition-Effect c b k signatures s h
