-- ===== src/Contract/Views/Receipts.antt =====
-- Receipts of a block that the relayer's nodes have, as the hub contract checks them.
use bas_relay_hub.Prelude.{
  ℕ, suc, ◌+◌, ◌/◌, ◌≡◌, refl, ap, ◌∙◌, Bool, inl, inr, Bool-cases, List, [], ◌∷◌, Bytes, leb,
  if◌then◌else◌, Bytes-discrete,
}
use bas_relay_hub.Prelude.Maps.Counts.{distinct}
use bas_relay_hub.Errors.{Result, ok, panic, raised}
use bas_relay_hub.Eth.{Address, Hash, Header, Eth, Client}
use bas_relay_hub.Proof.{quorum_of}
use bas_relay_hub.Proof.Run.{Run, next, coinbases}
use bas_relay_hub.Contract.{AddressSetOps, AddressSetLaws}
use bas_relay_hub.Contract.Quorum.{Records, validators_among, contract_counts}
use bas_relay_hub.Contract.Chains.{active, ProofVerificationFunction, RelayHubState, div_checked}
use bas_relay_hub.Contract.Chains.Accepts.{div_checked-ok}
use bas_relay_hub.Contract.Verifier.{
  ParseBlock, check_quorum, verify_blocks, verify_blocks_and_reached_quorum,
}
use bas_relay_hub.Contract.Verifier.Updates.{VerifiesParlia}
use bas_relay_hub.Contract.Verifier.Relayed.{header_of, ParsesSealed, Linked, children-verified}
use bas_relay_hub.Contract.Views.{check_receipt_proof}

module _ (parse : ParseBlock) (eth : Eth) (client : Client) (chain_id epoch_length : ℕ)
    (parses : ParsesSealed parse eth client chain_id epoch_length) where
  -- the blocks of a run, whatever validators its first block holds
  any-verified :
      (i : ℕ) (first : Header) (rest : List Header) (proofs : List Bytes)
      → Run eth client chain_id i (first ∷ rest) proofs
      → Linked eth (eth.header_hash first) rest
      → (validators : List Address) × (verify_blocks parse chain_id epoch_length proofs
          ≡ ok (header_of eth first, validators, coinbases (first ∷ rest)))
  unfolding verify_blocks
  any-verified i first rest [] run linked = elim run [ ]
  any-verified i first rest (p ∷ ps) (next proven run) linked =
      let (validators, parsed) = parses.parses proven in
      let children =
        children-verified parse eth client chain_id epoch_length parses (i + 1)
          (eth.header_hash first) rest ps run linked in
      (validators, rw (parsed, children) refl)

module _ {S : Type 0} (set : AddressSetOps S) (laws : AddressSetLaws set) (parse : ParseBlock)
    (verify_proof : Bytes → Hash → Bytes → Bytes → Result Bool)
    (default : ProofVerificationFunction) (eth : Eth) (client : Client) (chain_id : ℕ)
    (s : RelayHubState S) where
  -- Where the contract parses the blocks of the node that their coinbases have sealed: for an active chain that
  -- `ParliaBlockVerifier` verifies, and a list of linked blocks, each sealed by its own coinbase, of which the first is
  -- of an epoch behind one whose validators the contract has recorded, `checkReceiptProof` says whether the receipt is
  -- proved against the receipts root of the first block, if the different validators of the epoch before among
  -- the coinbases are at least two thirds of them, rounded down; and otherwise it reverts.
  pub receipt_checked :
      (i : ℕ) (first : Header) (rest : List Header) {proofs : List Bytes}
      (validators : List Address) (epoch_before : ℕ) (raw_receipt proof_siblings proof_path : Bytes)
      → ParsesSealed parse eth client chain_id (s.registered_chains chain_id).epoch_length
      → VerifiesParlia set laws parse verify_proof default chain_id s
      → (s.registered_chains chain_id).chain_status ≡ active
      → Run eth client chain_id i (first ∷ rest) proofs
      → Linked eth (eth.header_hash first) rest
      → first.number / (s.registered_chains chain_id).epoch_length ≡ suc epoch_before
      → Records set (s.validator_histories chain_id) epoch_before validators
      → check_receipt_proof set default chain_id proofs raw_receipt proof_siblings proof_path s ≡ (
          if leb
            (quorum_of validators)
            (distinct Bytes-discrete (validators_among validators (coinbases (first ∷ rest))))
          then verify_proof raw_receipt first.receipt_hash proof_siblings proof_path
          else panic raised)
  unfolding check_receipt_proof verify_blocks_and_reached_quorum check_quorum
  receipt_checked i first rest {proofs} validators epoch_before raw_receipt proof_siblings
        proof_path parses chain is_active run linked epoch records =
      let epoch_length : ℕ = (s.registered_chains chain_id).epoch_length in
      let (held, verified) =
        any-verified parse eth client chain_id epoch_length parses i first rest proofs run linked in
      let divided : div_checked first.number epoch_length ≡ ok (suc epoch_before) =
        div_checked-ok first.number epoch_length chain.some_blocks ∙ ap ok epoch in
      let counts =
        contract_counts set (s.validator_histories chain_id) epoch_before validators records
          (coinbases (first ∷ rest)) in
      elim (Bool-cases (
        leb (quorum_of validators)
          (distinct Bytes-discrete (validators_among validators (coinbases (first ∷ rest)))))) [
            | inl enough ↦ rw (is_active, chain.verified_so, verified, divided, counts, enough) refl
            | inr too_few ↦
                rw (is_active, chain.verified_so, verified, divided, counts, too_few) refl
          ]
