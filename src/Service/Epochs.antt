-- ===== src/Service/Epochs.antt =====
-- `createEpochTransition` of relayer/service.go: the proofs of one epoch, or of a batch of epochs that
-- fits the target's gas limit and the size of a transaction, are sent to the target chain.
pub mod Size
pub mod Batch
pub mod Sent
pub mod Single
use bas_relay_hub.Prelude.{
  ℕ, zero, suc, ◌+◌, ◌*◌, Bool, true, false, none, List, [], ◌∷◌, ◌++◌, Bytes, length, ltb, ◌==◌,
  if◌then◌else◌,
}
use bas_relay_hub.Prelude.Words.{ℤ, add64, sub64, mul64, int64, div_int, rounds_to}
use bas_relay_hub.Errors.{
  Result, ok, err, panic, wrapped, divide_by_zero, update_validator_set, do_multicall, ◌>>=◌,
}
use bas_relay_hub.Eth.{Eth, Client}
use bas_relay_hub.Hub.{Tx, TransactOpts, inject_signer}
use bas_relay_hub.Common.{wait_tx_to_be_mined}
use bas_relay_hub.Node.{NodeConfig}
use bas_relay_hub.Proof.{create_block_proofs}

abbrev pub tx_gas_reserve : ℕ
tx_gas_reserve = 100000

abbrev pub tx_max_input : ℕ
tx_max_input = 102400

-- `int(target.chainConfig.GasLimit-txGasReserve) / int(estimateGasUsage)`
unfoldable pub batch_size : ℕ → ℕ → Result ℤ
batch_size gas_limit estimate =
    if estimate == 0
    then panic divide_by_zero
    else ok (div_int (int64 (sub64 gas_limit tx_gas_reserve)) (int64 estimate))

-- `batchEpochBlock` of round `bs`
abbrev pub batch_epoch_block : ℕ → ℕ → ℕ → ℕ
batch_epoch_block epoch_block epoch_length bs = add64 epoch_block (mul64 bs epoch_length)

-- `encode` is `encodeFunctionCall` for `updateValidatorSet(uint256,bytes[])`; `clients` is what the
-- source node answers to each call of `createBlockProofs`, by the order of the calls.
module _ (eth : Eth) (encode : ℕ → List Bytes → Result Bytes) (clients : ℕ → Client) where
  -- the loop that fills the batch, `n` rounds from round `bs` on
  unfoldable pub batch_loop : NodeConfig → ℕ → ℕ → ℕ → ℕ → ℕ → List Bytes → Result (List Bytes)
  batch_loop source epoch_block latest_known_block zero bs input_size inputs = ok inputs
  batch_loop source epoch_block latest_known_block (suc n) bs input_size inputs =
      let epoch_length = source.chain_config.epoch_length in
      let block = batch_epoch_block epoch_block epoch_length bs in
      let rest = λ (input : Bytes).
        batch_loop source epoch_block latest_known_block n (bs + 1) (input_size + length input)
          (inputs ++ input ∷ []) in
      if ltb latest_known_block block then ok inputs else (do
        proofs ← create_block_proofs eth (clients (bs + 1)) block epoch_length
        input ← encode source.chain_id proofs
        if ltb tx_max_input (length input + input_size) then ok inputs else rest input)

  -- the transaction that is sent; the batch size that is logged is not modelled
  unfoldable pub send_transition : NodeConfig → NodeConfig → ℕ → ℕ → Result Tx
  send_transition source target epoch_block latest_known_block =
      let epoch_length = source.chain_config.epoch_length in
      let opts = inject_signer eth target.chain_id source.config.relayer.private_key none in
      if ltb 0 target.chain_config.gas_limit
      then (do
        proofs ← create_block_proofs eth (clients 0) epoch_block epoch_length
        estimated ← wrapped update_validator_set (
            target.relay_hub.update_validator_set (record opts { no_send = true }) source.chain_id
              proofs)
        size ← batch_size target.chain_config.gas_limit estimated.gas
        inputs ← batch_loop source epoch_block latest_known_block (rounds_to size) 0 0 []
        wrapped do_multicall (target.relay_hub.multicall (record opts { no_send = false }) inputs))
      else (do
        proofs ← create_block_proofs eth (clients 0) epoch_block epoch_length
        wrapped update_validator_set (
            target.relay_hub.update_validator_set (record opts { gas_limit = 1000000 })
              source.chain_id proofs))

  unfoldable pub create_epoch_transition :
      (ℕ → Bool) → NodeConfig → NodeConfig → ℕ → ℕ → Result (Unit {0})
  create_epoch_transition mined source target epoch_block latest_known_block = do
    tx ← send_transition source target epoch_block latest_known_block
    wait_tx_to_be_mined mined tx.hash
