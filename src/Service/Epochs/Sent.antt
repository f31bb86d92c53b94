-- ===== src/Service/Epochs/Sent.antt =====
-- What `createEpochTransition` sends in one transaction.
use bas_relay_hub.Prelude.{
  ℕ, ◌+◌, ◌*◌, ◌≤◌, ◌<◌, ◌^◌, ◌≡◌, refl, sym, ap, subst, true, false, none, List, [], ◌∷◌, Bytes,
  length, arith, lt→ltb,
}
use bas_relay_hub.Prelude.Words.{ℤ, rounds_to}
use bas_relay_hub.Errors.{Result, ok, wrapped, update_validator_set, >>=-eq-ok, wrapped-eq-ok}
use bas_relay_hub.Eth.{Eth, Client}
use bas_relay_hub.Hub.{Tx, TransactOpts, inject_signer}
use bas_relay_hub.Node.{NodeConfig}
use bas_relay_hub.Proof.{create_block_proofs}
use bas_relay_hub.Service.Epochs.{
  tx_gas_reserve, tx_max_input, batch_size, batch_loop, send_transition,
}
use bas_relay_hub.Service.Epochs.Size.{batch_size_fits, batch_size_low}
use bas_relay_hub.Service.Epochs.Batch.{total_length, Batch, loop_batches}

nil_of_length : (l : List Bytes) → length l ≡ 0 → l ≡ []
nil_of_length [] h = refl
nil_of_length (x ∷ l) h = absurd (omega arith)

-- what a node estimates is gas that an `int` can count
abbrev pub EstimatesGas : NodeConfig → Type 0
EstimatesGas target =
    (opts : TransactOpts) (chain_id : ℕ) (proofs : List Bytes) (tx : Tx)
    → target.relay_hub.update_validator_set opts chain_id proofs ≡ ok tx
    → tx.gas < 2 ^ 63

module _ (eth : Eth) (encode : ℕ → List Bytes → Result Bytes) (clients : ℕ → Client)
    (source target : NodeConfig) (epoch_block latest_known_block : ℕ) where
  abbrev pub sender : TransactOpts
  sender = inject_signer eth target.chain_id source.config.relayer.private_key none

  -- one transaction for a batch of epochs
  pub record BatchSent (tx : Tx) : Type 0 where
    pub proofs : List Bytes
    pub proven :
        create_block_proofs eth (clients 0) epoch_block source.chain_config.epoch_length ≡ ok proofs
    pub estimated : Tx
    pub estimate :
        target.relay_hub.update_validator_set
          (record sender { no_send = true })
          source.chain_id
          proofs
        ≡ ok estimated
    pub size : ℤ
    pub sized : batch_size target.chain_config.gas_limit estimated.gas ≡ ok size
    pub inputs : List Bytes
    pub batch : Batch eth encode clients source epoch_block latest_known_block 0 inputs
    pub short : total_length inputs ≤ tx_max_input
    pub within : length inputs ≤ rounds_to size
    pub sent : target.relay_hub.multicall (record sender { no_send = false }) inputs ≡ ok tx

  send_batch :
      {tx : Tx}
      → 0 < target.chain_config.gas_limit
      → send_transition eth encode clients source target epoch_block latest_known_block ≡ ok tx
      → BatchSent tx
  unfolding send_transition
  send_batch {tx} limited e =
      let epoch_length : ℕ = source.chain_config.epoch_length in
      let (proofs, proven, e₁) =
        >>=-eq-ok (create_block_proofs eth (clients 0) epoch_block epoch_length) _
          (rw (lt→ltb 0 target.chain_config.gas_limit limited) at e) in
      let (estimated, estimate, e₂) =
        >>=-eq-ok
          (wrapped update_validator_set (
            target.relay_hub.update_validator_set (record sender { no_send = true }) source.chain_id
              proofs))
          _ e₁ in
      let (size, sized, e₃) =
        >>=-eq-ok (batch_size target.chain_config.gas_limit estimated.gas) _ e₂ in
      let (inputs, looped, e₄) =
        >>=-eq-ok
          (batch_loop eth encode clients source epoch_block latest_known_block (rounds_to size) 0 0
            [])
          _ e₃ in
      let done =
        loop_batches eth encode clients source epoch_block latest_known_block (rounds_to size) 0 0
          [] inputs (omega arith) looped in
      let batch =
        subst (Batch eth encode clients source epoch_block latest_known_block 0) (sym done.appended)
          done.batch in
      record {
        proofs = proofs;
        proven = proven;
        estimated = estimated;
        estimate = wrapped-eq-ok _ _ estimate;
        size = size;
        sized = sized;
        inputs = inputs;
        batch = batch;
        short = omega (arith, ap total_length done.appended, done.fits);
        within = omega (arith, ap length done.appended, done.within);
        sent = wrapped-eq-ok _ _ e₄;
      }

  -- Under a gas limit of at least the reserve and below 2 ^ 63, with estimates of gas below 2 ^
  -- 63, a transition that is sent holds the `updateValidatorSet` calls of consecutive epochs from
  -- the epoch block on, none past the latest block; the calls fit the maximal size of a
  -- transaction, and at the estimated gas for each they fit the gas limit less the reserve.
  pub batch_fits :
      {tx : Tx}
      → EstimatesGas target
      → tx_gas_reserve ≤ target.chain_config.gas_limit
      → target.chain_config.gas_limit < 2 ^ 63
      → send_transition eth encode clients source target epoch_block latest_known_block ≡ ok tx
      → (b : BatchSent tx) × (length b.inputs * b.estimated.gas + tx_gas_reserve
          ≤ target.chain_config.gas_limit)
  batch_fits {tx} estimates enough small e =
      let b = send_batch (omega arith) e in
      let bound =
        batch_size_fits target.chain_config.gas_limit b.estimated.gas b.size enough small
          (estimates _ _ _ _ b.estimate) b.sized in
      (b, product_fits (length b.inputs) (rounds_to b.size) b.estimated.gas b.within bound)
    where
      product_fits :
          (k n gas : ℕ)
          → k ≤ n
          → n * gas + tx_gas_reserve ≤ target.chain_config.gas_limit
          → k * gas + tx_gas_reserve ≤ target.chain_config.gas_limit
      product_fits k n gas h bound = grind arith

  -- Under a gas limit that is positive but below the reserve, with estimates of gas below 2 ^ 63,
  -- the subtraction wraps around, the batch is empty, and a transition that is sent is a
  -- multicall of no call at all.
  pub low_limit_sends_nothing :
      {tx : Tx}
      → EstimatesGas target
      → 0 < target.chain_config.gas_limit
      → target.chain_config.gas_limit < tx_gas_reserve
      → send_transition eth encode clients source target epoch_block latest_known_block ≡ ok tx
      → target.relay_hub.multicall (record sender { no_send = false }) [] ≡ ok tx
  low_limit_sends_nothing {tx} estimates limited low e =
      let b = send_batch limited e in
      let none_fits : rounds_to b.size ≡ 0 =
        batch_size_low target.chain_config.gas_limit b.estimated.gas b.size low
          (estimates _ _ _ _ b.estimate) b.sized in
      let empty : b.inputs ≡ [] = nil_of_length b.inputs (omega (arith, b.within)) in
      rw empty at b.sent
