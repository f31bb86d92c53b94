-- ===== src/Parlia.antt =====
-- relayer/parlia.go: the validators of an epoch block, the data that a block's seal signs, and the
-- signer of a block.
pub mod Validators
pub mod Signer
use bas_relay_hub.Prelude.{
  ℕ, zero, suc, ◌+◌, ◌-◌, ◌*◌, ◌/◌, ◌%◌, Bool, true, List, [], ◌∷◌, ◌++◌, Bytes, length, take, drop,
  replicate, copy_into, leb, ltb, ◌==◌, if◌then◌else◌, Bytes-discrete,
}
use bas_relay_hub.Prelude.Maps.{GoMap, insert}
use bas_relay_hub.Errors.{Result, ok, err, panic, bad_parlia_block, slice_bounds, raised, ◌>>=◌}
use bas_relay_hub.Slices.{slice_upto, slice_from}
use bas_relay_hub.Eth.{Address, address_length, Header, Item, num, bytes, Eth}

abbrev pub extra_vanity : ℕ
extra_vanity = 32

abbrev pub extra_seal : ℕ
extra_seal = 65

-- the list that `encodeSigHeader` gives `rlp.Encode`
unfoldable pub header_items : Header → ℕ → Bytes → List Item
header_items h chain_id unsealed =
    num chain_id
    ∷ bytes h.parent_hash
    ∷ bytes h.uncle_hash
    ∷ bytes h.coinbase
    ∷ bytes h.root
    ∷ bytes h.tx_hash
    ∷ bytes h.receipt_hash
    ∷ bytes h.bloom
    ∷ num h.difficulty
    ∷ num h.number
    ∷ num h.gas_limit
    ∷ num h.gas_used
    ∷ num h.time
    ∷ bytes unsealed
    ∷ bytes h.mix_digest
    ∷ bytes h.nonce
    ∷ []

-- the header with the seal cut off its extra data, `header.Extra[:len(header.Extra)-65]`
unfoldable pub sig_header_items : Header → ℕ → Result (List Item)
sig_header_items h chain_id = do
  unsealed ← slice_upto 0 65 h.extra
  ok (header_items h chain_id unsealed)

-- the list that `recoverParliaBlockSigner` gives `rlp.Encode`, which the source writes out again
unfoldable pub signing_items : Header → ℕ → Bytes → List Item
signing_items h chain_id unsealed =
    num chain_id
    ∷ bytes h.parent_hash
    ∷ bytes h.uncle_hash
    ∷ bytes h.coinbase
    ∷ bytes h.root
    ∷ bytes h.tx_hash
    ∷ bytes h.receipt_hash
    ∷ bytes h.bloom
    ∷ num h.difficulty
    ∷ num h.number
    ∷ num h.gas_limit
    ∷ num h.gas_used
    ∷ num h.time
    ∷ bytes unsealed
    ∷ bytes h.mix_digest
    ∷ bytes h.nonce
    ∷ []

unfoldable pub signing_header_items : Header → ℕ → Result (List Item)
signing_header_items h chain_id = do
  unsealed ← slice_upto 0 65 h.extra
  ok (signing_items h chain_id unsealed)

-- `if err != nil { panic(…) }`
unfoldable pub or_panic {ℓ} : {A : Type ℓ} → Result A → Result A
or_panic (ok a) = ok a
or_panic (err e) = panic raised
or_panic (panic p) = panic p

-- `copy(address, validatorBytes[i*common.AddressLength:(i+1)*common.AddressLength])` on a fresh array
unfoldable pub copy_address : Bytes → ℕ → Bytes
copy_address validator_bytes i =
    copy_into (replicate address_length 0)
      (take address_length (drop (i * address_length) validator_bytes))

module _ (eth : Eth) where
  -- what the writer `w` holds afterwards
  unfoldable pub encode_sig_header : Bytes → Header → ℕ → Result Bytes
  encode_sig_header w h chain_id = do
    items ← sig_header_items h chain_id
    encoded ← or_panic (eth.rlp_encode items)
    ok (w ++ encoded)

  unfoldable pub parlia_rlp : Header → ℕ → Result Bytes
  unfolding encode_sig_header
  parlia_rlp h chain_id = encode_sig_header [] h chain_id

  unfoldable pub recover_parlia_block_signer : Header → ℕ → Result Address
  recover_parlia_block_signer h chain_id =
      if ltb (length h.extra) extra_seal then err bad_parlia_block else do
        signature ← slice_from (length h.extra - extra_seal) h.extra
        items ← signing_header_items h chain_id
        signing_data ← or_panic (eth.rlp_encode items)
        public_key ← eth.ecrecover (eth.keccak256 signing_data) signature
        point ← slice_from 1 public_key
        digest ← slice_from 12 (eth.keccak256 point)
        ok (copy_into (replicate address_length 0) digest)

  -- the loop over the validators: `i` counts up, `n` is the number of rounds left, and `result[i]`
  -- is written at the end of what the earlier rounds have written
  unfoldable pub extract_loop :
      ℕ → ℕ → Bytes → List Address → GoMap Address Bool → List Address × GoMap Address Bool
  extract_loop zero i validator_bytes result mapping = (result, mapping)
  extract_loop (suc n) i validator_bytes result mapping =
      let address = eth.bytes_to_address (copy_address validator_bytes i) in
      extract_loop n (i + 1) validator_bytes (result ++ address ∷ [])
        (insert Bytes-discrete address true mapping)

  unfoldable pub extract_parlia_validators : Header → Result (List Address × GoMap Address Bool)
  extract_parlia_validators h = do
    validator_bytes ← slice_upto extra_vanity extra_seal h.extra
    if length validator_bytes % address_length == 0
        then ok (extract_loop (length validator_bytes / address_length) 0 validator_bytes [] [])
        else err bad_parlia_block
