-- ===== src/Proof/Run.antt =====
-- What a list of block proofs is a proof of: a run of consecutive blocks, each sealed by its own
-- coinbase, that the node has, and that is just long enough for the quorum of the epoch before.
use bas_relay_hub.Prelude.{
  ℕ, ◌+◌, ◌≤◌, ◌<◌, ◌≡◌, ◌≢◌, Bool, List, [], ◌∷◌, ◌++◌, map, Bytes, length, Bytes-discrete,
}
use bas_relay_hub.Prelude.Words.{add64, sub64, int64}
use bas_relay_hub.Prelude.Maps.{GoMap}
use bas_relay_hub.Prelude.Maps.Counts.{distinct}
use bas_relay_hub.Errors.{ok}
use bas_relay_hub.Eth.{Address, Header, Eth, Client}
use bas_relay_hub.Parlia.{recover_parlia_block_signer, extract_parlia_validators}
use bas_relay_hub.Proof.{quorum_of, rounds}

-- block `i` has the header `h`, sealed by its coinbase, and `p` is the RLP of the header
pub record IsProven (eth : Eth) (client : Client) (chain_id i : ℕ) (h : Header) (p : Bytes)
    : Type 0 where
  pub fetched : client.block_by_number (int64 i) ≡ ok h
  pub sealed : recover_parlia_block_signer eth h chain_id ≡ ok h.coinbase
  pub encoded : eth.rlp_encode_header h ≡ ok p

-- the proofs of consecutive blocks from a block on
pub data Run (eth : Eth) (client : Client) (chain_id : ℕ)
    : ℕ → List Header → List Bytes → Type 0 where
  end : {i : ℕ} → Run eth client chain_id i [] []
  next :
      {i : ℕ} {h : Header} {p : Bytes} {hs : List Header} {ps : List Bytes}
      → IsProven eth client chain_id i h p
      → Run eth client chain_id (i + 1) hs ps
      → Run eth client chain_id i (h ∷ hs) (p ∷ ps)

abbrev pub coinbases : List Header → List Address
coinbases = map (λ h. h.coinbase)

abbrev pub signers : List Header → ℕ
signers hs = distinct Bytes-discrete (coinbases hs)

pub record ProvesEpoch (eth : Eth) (client : Client) (epoch_block epoch_length : ℕ)
    (proofs : List Bytes) : Type 0 where
  pub chain_id : ℕ
  pub chain_id_known : client.chain_id ≡ ok chain_id
  pub prev : Header
  pub prev_fetched : client.block_by_number (int64 (sub64 epoch_block epoch_length)) ≡ ok prev
  pub validators : List Address
  pub mapping : GoMap Address Bool
  pub extracted : extract_parlia_validators eth prev ≡ ok (validators, mapping)
  pub headers : List Header
  pub run : Run eth client chain_id epoch_block headers proofs
  -- two thirds of the validators of the epoch before have sealed a block of the run
  pub quorum_reached : quorum_of validators ≤ signers headers
  -- and no shorter run that is not empty would do
  pub shortest :
      (front back : List Header)
      → headers ≡ front ++ back
      → front ≢ []
      → back ≢ []
      → signers front < quorum_of validators
  -- the run stays within the epoch, and is empty only where the loop makes no round
  pub within : length headers ≤ rounds epoch_block (add64 epoch_block epoch_length)
  pub some_block : headers ≡ [] → rounds epoch_block (add64 epoch_block epoch_length) ≡ 0
