-- ===== src/Proof.antt =====
-- relayer/proof.go: the quorum of an epoch, and the run of block headers that proves its transition.
-- The warning about a signer outside the validator set is a log line, and nothing else.
pub mod Run
mod Steps
pub mod Sound
pub mod Complete
pub mod Decide
use mathlib.Core.Logic.{ite}
use bas_relay_hub.Prelude.{
  ℕ, zero, suc, ◌+◌, ◌-◌, ◌*◌, ◌/◌, Bool, true, List, [], ◌∷◌, ◌++◌, Bytes, length, leb, ltb,
  if◌then◌else◌, Bytes-discrete,
}
use bas_relay_hub.Prelude.Words.{add64, sub64, int64}
use bas_relay_hub.Prelude.Maps.{GoMap, insert}
use bas_relay_hub.Errors.{
  Result, ok, err, wrapped, bad_block_signer, quorum_not_reached, fetch_prev_epoch_block,
  fetch_block, extract_validators, encode_header, ◌>>=◌, ◌>>◌,
}
use bas_relay_hub.Eth.{Address, Header, Eth, Client}
use bas_relay_hub.Parlia.{recover_parlia_block_signer, extract_parlia_validators}
use bas_relay_hub.Node.{NodeConfig}

-- `len(validators) * 2 / 3`
abbrev pub quorum_of : List Address → ℕ
quorum_of validators = length validators * 2 / 3

-- the rounds of `for i := lo; i < hi; i++`
abbrev pub rounds : ℕ → ℕ → ℕ
rounds lo hi = hi - lo

module _ (eth : Eth) where
  unfoldable pub calc_required_quorum_for_next_epoch : NodeConfig → ℕ → Result ℕ
  calc_required_quorum_for_next_epoch nc epoch_block = do
    let prev = sub64 epoch_block nc.chain_config.epoch_length
    header ← wrapped (fetch_prev_epoch_block prev) (nc.client.block_by_number (int64 prev))
    (validators, _) ← wrapped extract_validators (extract_parlia_validators eth header)
    ok (quorum_of validators)

  -- `else if coinbase != signer { return nil, fmt.Errorf(…) }`
  unfoldable pub check_signer : Address → Address → Result (Unit {0})
  check_signer coinbase signer =
      ite (Bytes-discrete coinbase signer) (ok tt) (err (bad_block_signer coinbase signer))

  -- one block: its header, which its own coinbase must have sealed, and the RLP of the header
  unfoldable pub prove_block : Client → ℕ → ℕ → Result (Header × Bytes)
  prove_block client chain_id i = do
    header ← wrapped (fetch_block i) (client.block_by_number (int64 i))
    signer ← recover_parlia_block_signer eth header chain_id
    check_signer header.coinbase signer
    block_rlp ← wrapped encode_header (eth.rlp_encode_header header)
    ok (header, block_rlp)

  -- the loop over the blocks, `n` rounds from block `i` on
  unfoldable pub block_loop :
      Client
      → ℕ
      → ℕ
      → ℕ
      → ℕ
      → GoMap Address Bool
      → List Bytes
      → Result (GoMap Address Bool × List Bytes)
  block_loop client chain_id quorum zero i signers proofs = ok (signers, proofs)
  block_loop client chain_id quorum (suc n) i signers proofs = do
    (header, block_rlp) ← prove_block client chain_id i
    let signers' = insert Bytes-discrete header.coinbase true signers
    let proofs' = proofs ++ block_rlp ∷ []
    let rest = block_loop client chain_id quorum n (i + 1) signers' proofs'
    if leb quorum (length signers') then ok (signers', proofs') else rest

  unfoldable pub create_block_proofs : Client → ℕ → ℕ → Result (List Bytes)
  create_block_proofs client epoch_block epoch_length = do
    chain_id ← client.chain_id
    let prev = sub64 epoch_block epoch_length
    prev_header ← wrapped (fetch_prev_epoch_block prev) (client.block_by_number (int64 prev))
    (validators, _) ← wrapped extract_validators (extract_parlia_validators eth prev_header)
    let quorum = quorum_of validators
    (signers, proofs) ←
        block_loop client chain_id quorum (rounds epoch_block (add64 epoch_block epoch_length))
          epoch_block [] []
    if ltb (length signers) quorum
        then err (quorum_not_reached epoch_block (length signers) quorum)
        else ok proofs
