-- ===== src/Service/Epochs/Single.antt =====
-- What `createEpochTransition` sends where the target chain has no gas limit in the settings.
use bas_relay_hub.Prelude.{ℕ, ◌<◌, ◌≡◌, Bool, true, none, List, Bytes, arith, not-ltb}
use bas_relay_hub.Errors.{Result, ok, >>=-eq-ok, wrapped-eq-ok}
use bas_relay_hub.Eth.{Eth, Client}
use bas_relay_hub.Hub.{Tx, TransactOpts, inject_signer}
use bas_relay_hub.Common.Mining.{mined_in_time}
use bas_relay_hub.Node.{NodeConfig}
use bas_relay_hub.Proof.{create_block_proofs}
use bas_relay_hub.Proof.Run.{ProvesEpoch}
use bas_relay_hub.Proof.Sound.{blocks_sound}
use bas_relay_hub.Service.Epochs.{send_transition, create_epoch_transition}

module _ (eth : Eth) (encode : ℕ → List Bytes → Result Bytes) (clients : ℕ → Client)
    (source target : NodeConfig) (epoch_block latest_known_block : ℕ) where
  abbrev pub signed_opts : TransactOpts
  signed_opts = inject_signer eth target.chain_id source.config.relayer.private_key none

  -- one transaction for one epoch, and when it was mined
  pub record SingleSent (mined : ℕ → Bool) : Type 0 where
    pub tx : Tx
    pub proofs : List Bytes
    pub proves : ProvesEpoch eth (clients 0) epoch_block source.chain_config.epoch_length proofs
    pub sent :
        target.relay_hub.update_validator_set
          (record signed_opts { gas_limit = 1000000 })
          source.chain_id
          proofs
        ≡ ok tx
    pub try : ℕ
    pub in_time : try < 30
    pub receipt : mined try ≡ true

  send_single :
      {tx : Tx}
      → target.chain_config.gas_limit ≡ 0
      → send_transition eth encode clients source target epoch_block latest_known_block ≡ ok tx
      → (proofs : List Bytes) × (create_block_proofs eth
            (clients 0)
            epoch_block
            source.chain_config.epoch_length
          ≡ ok proofs)
        × (target.relay_hub.update_validator_set
              (record signed_opts { gas_limit = 1000000 })
              source.chain_id
              proofs
            ≡ ok tx)
  unfolding send_transition
  send_single {tx} unlimited e =
      let (proofs, proven, e₁) =
        >>=-eq-ok (create_block_proofs eth (clients 0) epoch_block source.chain_config.epoch_length)
          _ (rw (not-ltb 0 target.chain_config.gas_limit (omega arith)) at e) in
      (proofs, proven, wrapped-eq-ok _ _ e₁)

  -- Where the target chain has no gas limit, an epoch transition that succeeds has sent the hub a list
  -- that proves the epoch, at the gas limit of 1,000,000, and its transaction was mined at one of the
  -- thirty times that the node was asked.
  pub single_proves :
      (mined : ℕ → Bool)
      → target.chain_config.gas_limit ≡ 0
      → create_epoch_transition eth encode clients mined source target epoch_block
          latest_known_block
        ≡ ok tt
      → SingleSent mined
  unfolding create_epoch_transition
  single_proves mined unlimited e =
      let (tx, sent, waited) =
        >>=-eq-ok (send_transition eth encode clients source target epoch_block latest_known_block)
          _ e in
      let (proofs, proven, done) = send_single unlimited sent in
      let (try, in_time, receipt) = mined_in_time mined tx.hash waited in
      record {
        tx = tx;
        proofs = proofs;
        proves = blocks_sound eth (clients 0) epoch_block source.chain_config.epoch_length proven;
        sent = done;
        try = try;
        in_time = in_time;
        receipt = receipt;
      }
