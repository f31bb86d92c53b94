-- ===== src/Parlia/Signer.antt =====
-- `parliaRlp` and `recoverParliaBlockSigner` of relayer/parlia.go.
use bas_relay_hub.Prelude.{
  ℕ, ◌≡◌, refl, false, [], ◌++◌, Bytes, length, replicate, copy_into, length-append, arith, not-ltb,
  ltb,
}
use bas_relay_hub.Errors.{Result, ok, err, panic, ◌>>=◌}
use bas_relay_hub.Slices.{slice_upto-append, slice_from, slice_from-append}
use bas_relay_hub.Eth.{Address, address_length, Header, Eth}
use bas_relay_hub.Parlia.{
  extra_seal, header_items, sig_header_items, signing_items, signing_header_items, or_panic,
  parlia_rlp, recover_parlia_block_signer,
}

-- the address behind a public key, from the signature and the data that it signs
pub signer_of : Eth → Bytes → Bytes → Result Address
signer_of eth signing_data signature = do
  public_key ← eth.ecrecover (eth.keccak256 signing_data) signature
  point ← slice_from 1 public_key
  digest ← slice_from 12 (eth.keccak256 point)
  ok (copy_into (replicate address_length 0) digest)

bind_encoded :
    (m : Result Bytes) (f : Bytes → Result Address)
    → (m >>= f) ≡ (m >>= (λ encoded. ok encoded) >>= f)
bind_encoded (ok b) f = refl
bind_encoded (err e) f = refl
bind_encoded (panic p) f = refl

sig_header_items-append :
    (h : Header) (chain_id : ℕ) (body seal : Bytes)
    → length seal ≡ extra_seal
    → sig_header_items (record h { extra = body ++ seal }) chain_id
      ≡ ok (header_items h chain_id body)
unfolding sig_header_items header_items
sig_header_items-append h chain_id body seal hs =
    rw (slice_upto-append [] body seal 0 extra_seal refl hs)

-- `recoverParliaBlockSigner` encodes the same list
signing_header_items-append :
    (h : Header) (chain_id : ℕ) (body seal : Bytes)
    → length seal ≡ extra_seal
    → signing_header_items (record h { extra = body ++ seal }) chain_id
      ≡ ok (header_items h chain_id body)
unfolding signing_header_items signing_items header_items
signing_header_items-append h chain_id body seal hs =
    rw (slice_upto-append [] body seal 0 extra_seal refl hs)

module _ (eth : Eth) (h : Header) (chain_id : ℕ) where
  -- Of a header whose extra data ends in a seal of 65 bytes, the signer is recovered from the
  -- seal, as the signature of what `parliaRlp` gives for the header; with any other seal of 65
  -- bytes in the header that would be the same.
  pub recover_seal :
      (body seal other : Bytes)
      → length seal ≡ extra_seal
      → length other ≡ extra_seal
      → recover_parlia_block_signer eth (record h { extra = body ++ seal }) chain_id ≡ (
          parlia_rlp eth (record h { extra = body ++ other }) chain_id >>= λ signing_data.
          signer_of eth signing_data seal)
  unfolding recover_parlia_block_signer parlia_rlp signer_of
  recover_seal body seal other hs ho =
      let long : ltb (length (body ++ seal)) extra_seal ≡ false =
        not-ltb (length (body ++ seal)) extra_seal (omega (arith, length-append body seal)) in
      rw
        (
          long,
          slice_from-append body seal extra_seal hs,
          signing_header_items-append h chain_id body seal hs,
          sig_header_items-append h chain_id body other ho,
        )
        (bind_encoded (or_panic (eth.rlp_encode (header_items h chain_id body)))
          (λ signing_data. signer_of eth signing_data seal))
