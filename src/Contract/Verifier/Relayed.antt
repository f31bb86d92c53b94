-- ===== src/Contract/Verifier/Relayed.antt =====
-- The relayer's block proofs, as the hub contract takes them.
use mathlib.Core.Logic.{ite}
use bas_relay_hub.Prelude.{
  ℕ, suc, ◌+◌, ◌/◌, ◌%◌, ◌≡◌, refl, ap, ◌∙◌, subst, Bool, true, false, not, ◌&&◌, List, [], ◌∷◌,
  Bytes, All, arith, ltb, ◌==◌, Bytes-discrete,
}
use bas_relay_hub.Prelude.Maps.{GoMap}
use bas_relay_hub.Errors.{Result, ok}
use bas_relay_hub.Eth.{Address, Hash, Header, Eth, Client}
use bas_relay_hub.Parlia.{extract_parlia_validators}
use bas_relay_hub.Proof.Run.{IsProven, Run, end, next, coinbases, ProvesEpoch}
use bas_relay_hub.Contract.{AddressSetOps, AddressSetLaws, ValidatorHistory}
use bas_relay_hub.Contract.Quorum.{IsAmong, Records, contract_accepts}
use bas_relay_hub.Contract.Update.Succeeds.{BucketsFit}
use bas_relay_hub.Contract.Chains.{BlockHeader, ProofVerificationFunction, RelayHubState}
use bas_relay_hub.Contract.Chains.Epochs.{update_validator_set}
use bas_relay_hub.Contract.Verifier.{ParseBlock, check_quorum, verify_children, verify_blocks}
use bas_relay_hub.Contract.Verifier.Updates.{VerifiesParlia, after_update, verified_updates}

-- the contract's header of a block
abbrev pub header_of : Eth → Header → BlockHeader
header_of eth h = record {
  block_hash = eth.header_hash h;
  parent_hash = h.parent_hash;
  block_number = h.number;
  coinbase = h.coinbase;
  receipts_root = h.receipt_hash;
  txs_root = h.tx_hash;
  state_root = h.root;
}

-- the contract parses the RLP of every block that the node has and that its coinbase has sealed, and reads
-- the validators of an epoch block as the relayer does
pub record ParsesSealed (parse : ParseBlock) (eth : Eth) (client : Client)
    (chain_id epoch_length : ℕ) : Type 0 where
  pub parses :
      {i : ℕ} {h : Header} {raw_block : Bytes}
      → IsProven eth client chain_id i h raw_block
      → (validators : List Address) × (parse chain_id raw_block epoch_length
          ≡ ok (header_of eth h, validators))
  pub parses_epoch :
      {i : ℕ} {h : Header} {raw_block : Bytes}
      → IsProven eth client chain_id i h raw_block
      → (validators : List Address) (mapping : GoMap Address Bool) → h.number % epoch_length ≡ 0
      → extract_parlia_validators eth h ≡ ok (validators, mapping)
      → parse chain_id raw_block epoch_length ≡ ok (header_of eth h, validators)

-- each block is the child of the one before it
abbrev pub Linked : Eth → Hash → List Header → Type 0
Linked eth parent_hash [] = Unit
Linked eth parent_hash (h ∷ hs) = (h.parent_hash ≡ parent_hash) × Linked eth (eth.header_hash h) hs

-- the headers are a chain from a block on that begins an epoch and holds some validators
pub record BeginsEpoch (eth : Eth) (epoch_length epoch_number : ℕ) (headers : List Header)
    (validators : List Address) : Type 0 where
  pub first : Header
  pub rest : List Header
  pub is : headers ≡ first ∷ rest
  pub linked : Linked eth (eth.header_hash first) rest
  pub begins : first.number % epoch_length ≡ 0
  pub epoch : first.number / epoch_length ≡ epoch_number
  pub mapping : GoMap Address Bool
  pub extracted : extract_parlia_validators eth first ≡ ok (validators, mapping)

module _ (parse : ParseBlock) (eth : Eth) (client : Client) (chain_id epoch_length : ℕ)
    (parses : ParsesSealed parse eth client chain_id epoch_length) where
  pub children-verified :
      (i : ℕ) (parent_hash : Hash) (hs : List Header) (ps : List Bytes)
      → Run eth client chain_id i hs ps
      → Linked eth parent_hash hs
      → verify_children parse chain_id epoch_length parent_hash ps ≡ ok (coinbases hs)
  unfolding verify_children
  children-verified i parent_hash [] [] end linked = refl
  children-verified i parent_hash [] (p ∷ ps) run linked = elim run [ ]
  children-verified i parent_hash (h ∷ hs) [] run linked = elim run [ ]
  children-verified i parent_hash (h ∷ hs) (p ∷ ps) (next proven run) (child, linked) =
      let (validators, parsed) = parses.parses proven in
      let same : ite (Bytes-discrete h.parent_hash parent_hash) true false ≡ true = ground arith in
      rw (parsed, same, children-verified (i + 1) (eth.header_hash h) hs ps run linked) refl

  -- the blocks of a run whose first block begins an epoch
  blocks-verified :
      (i : ℕ) (first : Header) (hs : List Header) (ps : List Bytes) (validators : List Address)
      (mapping : GoMap Address Bool)
      → Run eth client chain_id i (first ∷ hs) ps
      → Linked eth (eth.header_hash first) hs
      → first.number % epoch_length ≡ 0
      → extract_parlia_validators eth first ≡ ok (validators, mapping)
      → verify_blocks parse chain_id epoch_length ps
        ≡ ok (header_of eth first, validators, coinbases (first ∷ hs))
  unfolding verify_blocks
  blocks-verified i first hs [] validators mapping run linked begins extracted = elim run [ ]
  blocks-verified i first hs (p ∷ ps) validators mapping (next proven run) linked begins extracted =
      rw
        (
          parses.parses_epoch proven validators mapping begins extracted,
          children-verified (i + 1) (eth.header_hash first) hs ps run linked,
        )
        refl

next_epoch :
    {latest epoch_before : ℕ}
    → latest ≡ epoch_before
    → (ltb 0 latest && ltb 0 (suc epoch_before) && not (suc epoch_before == latest + 1)) ≡ false
next_epoch e = ground arith

module _ {S : Type 0} (set : AddressSetOps S) (laws : AddressSetLaws set) (parse : ParseBlock)
    (verify_proof : Bytes → Hash → Bytes → Bytes → Result Bool)
    (default : ProofVerificationFunction) (eth : Eth) (client : Client) (epoch_block : ℕ)
    (s : RelayHubState S) (chain_id epoch_length : ℕ) where
  -- a list that proves the epoch behind the latest one goes through
  pub relayed-update :
      {proofs : List Bytes} (p : ProvesEpoch eth client epoch_block epoch_length proofs)
      (validators : List Address) (epoch_before : ℕ)
      → ParsesSealed parse eth client chain_id epoch_length
      → VerifiesParlia set laws parse verify_proof default chain_id s
      → (s.registered_chains chain_id).epoch_length ≡ epoch_length
      → p.chain_id ≡ chain_id
      → BeginsEpoch eth epoch_length (suc epoch_before) p.headers validators
      → (s.validator_histories chain_id).latest_known_epoch ≡ epoch_before
      → Records set (s.validator_histories chain_id) epoch_before p.validators
      → All (IsAmong p.validators) (coinbases p.headers)
      → BucketsFit set laws (s.validator_histories chain_id) validators
      → update_validator_set set default chain_id proofs s
        ≡ ok (
            after_update set laws parse verify_proof default chain_id s validators
              (suc epoch_before))
  unfolding check_quorum
  relayed-update {proofs} p validators epoch_before parses chain same_length same_chain starts
        latest records among room =
      let h : ValidatorHistory S = s.validator_histories chain_id in
      let run : Run eth client chain_id epoch_block (starts.first ∷ starts.rest) proofs =
        subst (λ (hs : List Header). Run eth client chain_id epoch_block hs proofs) starts.is
          (subst (λ (c : ℕ). Run eth client c epoch_block p.headers proofs) same_chain p.run) in
      let quorum =
        contract_accepts set eth client epoch_block epoch_length h epoch_before p records among in
      verified_updates set laws parse verify_proof default chain_id s proofs
        (header_of eth starts.first) validators (coinbases (starts.first ∷ starts.rest))
        (suc epoch_before) chain
        (ap (λ (n : ℕ). verify_blocks parse chain_id n proofs) same_length
          ∙ blocks-verified parse eth client chain_id epoch_length parses epoch_block starts.first
              starts.rest proofs validators starts.mapping run starts.linked starts.begins
              starts.extracted)
        (ap (λ (n : ℕ). starts.first.number % n) same_length ∙ starts.begins)
        (ap (λ (n : ℕ). starts.first.number / n) same_length ∙ starts.epoch)
        (rw (← ap coinbases starts.is, quorum) refl) (next_epoch latest) room
