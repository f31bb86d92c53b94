-- ===== src/Contract/Verifier/Honest.antt =====
-- The epoch of a node, relayed to the hub contract from the node's blocks on.
use bas_relay_hub.Prelude.{
  ℕ, suc, ◌<◌, ◌≤◌, ◌≡◌, ◌≢◌, sym, ap, ◌∙◌, subst, Bool, inl, inr, List, [], Bytes, length, All,
  arith,
}
use bas_relay_hub.Prelude.Words.{word, add64, sub64, int64}
use bas_relay_hub.Prelude.Maps.{GoMap}
use bas_relay_hub.Errors.{Result, ok, ok-injective}
use bas_relay_hub.Eth.{Address, Hash, Header, Eth, Client}
use bas_relay_hub.Parlia.{extract_parlia_validators}
use bas_relay_hub.Proof.{quorum_of, rounds, create_block_proofs}
use bas_relay_hub.Proof.Run.{Run, coinbases, signers, ProvesEpoch}
use bas_relay_hub.Proof.Sound.{blocks_sound}
use bas_relay_hub.Proof.Decide.{blocks_decide}
use bas_relay_hub.Contract.{AddressSetOps, AddressSetLaws}
use bas_relay_hub.Contract.Quorum.{IsAmong, Records}
use bas_relay_hub.Contract.Chains.{ProofVerificationFunction, RelayHubState}
use bas_relay_hub.Contract.Chains.Epochs.{update_validator_set}
use bas_relay_hub.Contract.Verifier.{ParseBlock}
use bas_relay_hub.Contract.Verifier.Updates.{after_update}
use bas_relay_hub.Contract.Verifier.Relayed.{ParsesSealed, BeginsEpoch, relayed-update}
use bas_relay_hub.Contract.Verifier.Relays.{Holds, updated-Holds}
use bas_relay_hub.Contract.Verifier.Prefix.{prefix_of_runs, prefix_sealed, prefix_begins}

-- what a node has of an epoch: all its blocks, each sealed by its own coinbase and with an RLP, a chain whose first
-- block begins the epoch and holds the new validators; all sealed by the validators that the epoch block before
-- holds, of whom at least two thirds have sealed one
pub record HonestEpoch (eth : Eth) (client : Client)
    (chain_id epoch_block epoch_length epoch_number : ℕ) (validators new_validators : List Address)
    : Type 0 where
  pub chain_id_known : client.chain_id ≡ ok chain_id
  pub prev : Header
  pub prev_fetched : client.block_by_number (int64 (sub64 epoch_block epoch_length)) ≡ ok prev
  pub mapping : GoMap Address Bool
  pub extracted : extract_parlia_validators eth prev ≡ ok (validators, mapping)
  pub headers : List Header
  pub all : List Bytes
  pub run : Run eth client chain_id epoch_block headers all
  pub whole : length headers ≡ rounds epoch_block (add64 epoch_block epoch_length)
  pub begins : BeginsEpoch eth epoch_length epoch_number headers new_validators
  pub sealed : All (IsAmong validators) (coinbases headers)
  pub enough : quorum_of validators ≤ signers headers

module _ (eth : Eth) (client : Client) (chain_id epoch_block epoch_length epoch_number : ℕ)
    (validators new_validators : List Address)
    (node : HonestEpoch eth client chain_id epoch_block epoch_length epoch_number validators
      new_validators) where
  -- the list is found, by the first of the two cases of `blocks_decide`
  found :
      (proofs : List Bytes) × (create_block_proofs eth client epoch_block epoch_length ≡ ok proofs)
  found =
      elim (blocks_decide eth client epoch_block epoch_length chain_id node.prev validators
        node.mapping node.chain_id_known node.prev_fetched node.extracted node.run node.whole) [
          | inl (enough, proofs, back, cut, made) ↦ (proofs, made)
          | inr (few, failed) ↦ absurd (omega (arith, few, node.enough))
        ]

  -- the blocks that it proves are a first part of those of the node
  record Proven (proofs : List Bytes) : Type 0 where
    proves : ProvesEpoch eth client epoch_block epoch_length proofs
    same_chain : proves.chain_id ≡ chain_id
    same_validators : validators ≡ proves.validators
    begins : BeginsEpoch eth epoch_length epoch_number proves.headers new_validators
    sealed : All (IsAmong validators) (coinbases proves.headers)

  proven :
      (proofs : List Bytes)
      → create_block_proofs eth client epoch_block epoch_length ≡ ok proofs
      → Proven proofs
  proven proofs made =
      let p : ProvesEpoch eth client epoch_block epoch_length proofs =
        blocks_sound eth client epoch_block epoch_length made in
      let same_chain : p.chain_id ≡ chain_id =
        ok-injective (sym p.chain_id_known ∙ node.chain_id_known) in
      let same_prev : node.prev ≡ p.prev = ok-injective (sym node.prev_fetched ∙ p.prev_fetched) in
      let same_extracted : ◌≡◌ {A = List Address × GoMap Address Bool} (validators, node.mapping)
          (p.validators, p.mapping) =
        ok-injective
          (sym node.extracted ∙ ap (extract_parlia_validators eth) same_prev ∙ p.extracted) in
      let (back, cut) =
        prefix_of_runs node.run
          (subst (λ (c : ℕ). Run eth client c epoch_block p.headers proofs) same_chain p.run)
          (omega (arith, p.within, node.whole)) in
      let some_ : p.headers ≢ [] = λ e.
        omega (
          arith,
          p.some_block e,
          node.whole,
          ap (λ (hs : List Header). length hs) node.begins.is,
        ) in
      record {
        proves = p;
        same_chain = same_chain;
        same_validators = ap (λ (v : List Address × GoMap Address Bool). v.0) same_extracted;
        begins = prefix_begins p.headers back node.begins cut some_;
        sealed =
            prefix_sealed (IsAmong validators) p.headers back (
              subst (λ (hs : List Header). All (IsAmong validators) (coinbases hs)) cut
                node.sealed);
      }

module _ {S : Type 0} (set : AddressSetOps S) (laws : AddressSetLaws set) (parse : ParseBlock)
    (verify_proof : Bytes → Hash → Bytes → Bytes → Result Bool)
    (default : ProofVerificationFunction) (chain_id epoch_length : ℕ)
    (everyone : List Address) where
  -- Over a set with the laws of OpenZeppelin's, and where the contract parses the blocks of the node that their
  -- coinbases have sealed: let the contract hold an epoch with its validators, and a node have the next epoch whole,
  -- as a chain of blocks that the validators of its previous epoch block, which are those, have sealed, two thirds of
  -- them at least one each. Then `createBlockProofs` returns a list, `updateValidatorSet` over
  -- `ParliaBlockVerifier` accepts it, and the contract holds the next epoch with the validators of its first block; if
  -- these are some, fewer than 2 ^ 64, and at most 256 validators ever were or come.
  pub honest_relayed :
      (eth : Eth) (client : Client) (epoch_block epoch_number : ℕ)
      (validators new_validators : List Address) (s : RelayHubState S)
      → ParsesSealed parse eth client chain_id epoch_length
      → HonestEpoch eth client chain_id epoch_block epoch_length
          (suc epoch_number)
          validators
          new_validators
      → Holds set laws parse verify_proof default chain_id epoch_length everyone s epoch_number
          validators
      → 0 < length new_validators
      → length new_validators < word
      → All (IsAmong everyone) new_validators
      → (proofs : List Bytes) × (t : RelayHubState S) × (create_block_proofs eth client epoch_block
            epoch_length
          ≡ ok proofs)
        × (update_validator_set set default chain_id proofs s ≡ ok t)
        × Holds set laws parse verify_proof default chain_id epoch_length everyone t
            (suc epoch_number)
            new_validators
  honest_relayed eth client epoch_block epoch_number validators new_validators s parses node holds
        some_ sized known =
      let (proofs, made) =
        found eth client chain_id epoch_block epoch_length (suc epoch_number) validators
          new_validators node in
      let by =
        proven eth client chain_id epoch_block epoch_length (suc epoch_number) validators
          new_validators node proofs made in
      let (fit, later) =
        updated-Holds set laws parse verify_proof default chain_id epoch_length everyone s
          (suc epoch_number) new_validators holds (some_, sized) known in
      (
        proofs,
        after_update set laws parse verify_proof default chain_id s new_validators
            (suc epoch_number),
        made,
        relayed-update set laws parse verify_proof default eth client epoch_block s chain_id
            epoch_length by.proves new_validators epoch_number parses holds.chain holds.same_length
            by.same_chain by.begins holds.latest
            (subst
              (λ (vs : List Address). Records set (s.validator_histories chain_id) epoch_number vs)
              by.same_validators holds.records)
            (subst (λ (vs : List Address). All (IsAmong vs) (coinbases by.proves.headers))
              by.same_validators by.sealed)
            fit,
        later,
      )
