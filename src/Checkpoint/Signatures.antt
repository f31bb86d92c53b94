-- ===== src/Checkpoint/Signatures.antt =====
-- The signatures of a checkpoint proof: `signCheckpointProof`, `addSignature`, `hasSignature` and
-- `getSignatureOrNil` of relayer/checkpoint.go.
use mathlib.Core.Logic.{ite}
use bas_relay_hub.Prelude.{
  ◌+◌, ◌≤◌, ◌≡◌, refl, true, not, Option, none, some, Bytes, arith, if◌then◌else◌, Bytes-discrete,
}
use bas_relay_hub.Prelude.Maps.{lookup-insert}
use bas_relay_hub.Prelude.Maps.Counts.{length-insert, contains-keys}
use bas_relay_hub.Errors.{Result, ok, err, panic}
use bas_relay_hub.Eth.{Address, PrivateKey, Eth}
use bas_relay_hub.Checkpoint.{
  CheckpointProof, entries, signature_count, get_signature_or_nil, has_signature, store_signature,
  sign_checkpoint_proof, add_signature,
}

-- what a signer's entry is after signing: the signature that was there, or the new one
abbrev pub kept_or : Option Bytes → Bytes → Bytes
kept_or none signature = signature
kept_or (some old) signature = old

-- the parts of a proof that no signature changes
abbrev pub SameBlock : CheckpointProof → CheckpointProof → Type 0
SameBlock p q =
    (p.epoch_number ≡ q.epoch_number)
    × (p.raw_epoch_block ≡ q.raw_epoch_block)
    × (p.block_hash ≡ q.block_hash)
    × (p.checkpoint_hash ≡ q.checkpoint_hash)

module _ (proof : CheckpointProof) (signer : Address) (signature : Bytes) where
  get-store_signature :
      (a : Address)
      → get_signature_or_nil (store_signature proof signer signature) a
        ≡ ite
            (Bytes-discrete signer a)
            (some (kept_or (get_signature_or_nil proof signer) signature))
            (get_signature_or_nil proof a)
  unfolding store_signature get_signature_or_nil has_signature
  get-store_signature a =
      ground (arith, lookup-insert Bytes-discrete signer a signature (entries proof.signatures))

  has-store_signature : has_signature (store_signature proof signer signature) signer ≡ true
  unfolding store_signature has_signature
  has-store_signature =
      ground
        (arith, lookup-insert Bytes-discrete signer signer signature (entries proof.signatures))

  store_signature-SameBlock : SameBlock (store_signature proof signer signature) proof
  unfolding store_signature
  store_signature-SameBlock = (ground arith, ground arith, ground arith, ground arith)

module _ (eth : Eth) (proof : CheckpointProof) (private_key : PrivateKey) where
  signs :
      (signature : Bytes)
      → eth.sign proof.checkpoint_hash private_key ≡ ok signature
      → sign_checkpoint_proof eth proof private_key
        ≡ (store_signature proof (eth.pubkey_to_address private_key) signature, ok tt)
  unfolding sign_checkpoint_proof
  signs signature e = ground arith

  -- one more signature at most
  pub count-sign :
      signature_count (sign_checkpoint_proof eth proof private_key).0 ≤ signature_count proof + 1
  unfolding sign_checkpoint_proof store_signature has_signature
  count-sign =
      let signer = eth.pubkey_to_address private_key in
      elim (eth.sign proof.checkpoint_hash private_key)
        as (λ r.
          signature_count
            (elim r as (λ _. CheckpointProof × Result (Unit {0})) [
              | ok signature ↦ (store_signature proof signer signature, ok tt)
              | err e ↦ (proof, err e)
              | panic p ↦ (proof, panic p)
            ]).0
          ≤ signature_count proof + 1) [
            | ok signature ↦
                ground
                  (arith, length-insert Bytes-discrete signer signature (entries proof.signatures))
            | err e ↦ omega arith
            | panic p ↦ omega arith
          ]

  -- Signing succeeds where the library signs: the signer has a signature afterwards, the old one
  -- if there was one, every other signer keeps what it had, and the block data stays as it was.
  pub sign_keeps_first :
      (signature : Bytes)
      → eth.sign proof.checkpoint_hash private_key ≡ ok signature
      → let (proof', r) = sign_checkpoint_proof eth proof private_key in
        let signer = eth.pubkey_to_address private_key in
        (r ≡ ok tt)
        × SameBlock proof' proof
        × (has_signature proof' signer ≡ true)
        × ((a : Address)
            → get_signature_or_nil proof' a
              ≡ ite
                  (Bytes-discrete signer a)
                  (some (kept_or (get_signature_or_nil proof signer) signature))
                  (get_signature_or_nil proof a))
  sign_keeps_first signature e =
      let signer = eth.pubkey_to_address private_key in
      rw (signs signature e) (
        refl,
        store_signature-SameBlock proof signer signature,
        has-store_signature proof signer signature,
        get-store_signature proof signer signature,
      )

module _ (proof : CheckpointProof) (signer : Address) (signature : Bytes) where
  -- Adding a signature replaces the signer's old one, leaves every other signer's and the block
  -- data alone, tells whether the signer is new, and counts one more exactly then.
  pub add_replaces :
      let (proof', added) = add_signature proof signer signature in
      SameBlock proof' proof
      × ((a : Address)
          → get_signature_or_nil proof' a
            ≡ ite (Bytes-discrete signer a) (some signature) (get_signature_or_nil proof a))
      × (added ≡ not (has_signature proof signer))
      × (signature_count proof' ≡ signature_count proof + (if added then 1 else 0))
  unfolding add_signature get_signature_or_nil has_signature
  add_replaces = (
    (refl, refl, refl, refl),
    λ a. lookup-insert Bytes-discrete signer a signature (entries proof.signatures),
    refl,
    ground (
      arith,
      length-insert Bytes-discrete signer signature (entries proof.signatures),
      contains-keys Bytes-discrete signer (entries proof.signatures),
    ),
  )
