-- ===== src/Service/Epochs/Batch.antt =====
-- What the loop of `createEpochTransition` packs into one transaction.
use mathlib.Core.List.{append-nil, append_assoc}
use bas_relay_hub.Prelude.{
  ℕ, zero, suc, ◌+◌, ◌≤◌, ◌≡◌, sym, ◌∙◌, inl, inr, List, [], ◌∷◌, ◌++◌, Bytes, length, arith, ltb,
  not-ltb→le, Bool-cases,
}
use bas_relay_hub.Errors.{Result, ok, >>=-eq-ok, ok-injective}
use bas_relay_hub.Eth.{Eth, Client}
use bas_relay_hub.Node.{NodeConfig}
use bas_relay_hub.Proof.{create_block_proofs}
use bas_relay_hub.Service.Epochs.{tx_max_input, batch_epoch_block, batch_loop}

-- the bytes of all inputs
abbrev pub total_length : List Bytes → ℕ
total_length [] = 0
total_length (input ∷ inputs) = length input + total_length inputs

module _ (eth : Eth) (encode : ℕ → List Bytes → Result Bytes) (clients : ℕ → Client)
    (source : NodeConfig) (epoch_block latest_known_block : ℕ) where
  -- the calls of consecutive epochs from round `bs` on, none past the latest block
  pub data Batch : ℕ → List Bytes → Type 0 where
    end : {bs : ℕ} → Batch bs []
    next :
        {bs : ℕ} {input : Bytes} {proofs rest : List Bytes}
        → batch_epoch_block epoch_block source.chain_config.epoch_length bs ≤ latest_known_block
        → create_block_proofs eth
            (clients (bs + 1))
            (batch_epoch_block epoch_block source.chain_config.epoch_length bs)
            source.chain_config.epoch_length
          ≡ ok proofs
        → encode source.chain_id proofs ≡ ok input
        → Batch (bs + 1) rest
        → Batch bs (input ∷ rest)

  pub record HasBatched (n bs size : ℕ) (inputs inputs' : List Bytes) : Type 0 where
    pub added : List Bytes
    pub batch : Batch bs added
    pub appended : inputs' ≡ inputs ++ added
    pub fits : size + total_length added ≤ tx_max_input
    pub within : length added ≤ n

  none_added :
      (n bs size : ℕ) (inputs inputs' : List Bytes)
      → size ≤ tx_max_input
      → ◌≡◌ {A = Result (List Bytes)} (ok inputs) (ok inputs')
      → HasBatched n bs size inputs inputs'
  none_added n bs size inputs inputs' fits e = record {
    added = [];
    batch = end;
    appended = sym (ok-injective e) ∙ sym (append-nil inputs);
    fits = omega arith;
    within = omega arith;
  }

  pub loop_batches :
      (n bs size : ℕ) (inputs inputs' : List Bytes)
      → size ≤ tx_max_input
      → batch_loop eth encode clients source epoch_block latest_known_block n bs size inputs
        ≡ ok inputs'
      → HasBatched n bs size inputs inputs'
  unfolding batch_loop
  loop_batches zero bs size inputs inputs' fits e = none_added zero bs size inputs inputs' fits e
  loop_batches (suc n) bs size inputs inputs' fits e =
      elim (Bool-cases (
        ltb latest_known_block
          (batch_epoch_block epoch_block source.chain_config.epoch_length bs))) [
            | inl past ↦ none_added (suc n) bs size inputs inputs' fits (rw past at e)
            | inr reached ↦
                let block = batch_epoch_block epoch_block source.chain_config.epoch_length bs in
                let (proofs, proven, e₁) =
                  >>=-eq-ok
                    (create_block_proofs eth (clients (bs + 1)) block
                      source.chain_config.epoch_length)
                    _ (rw reached at e) in
                let (input, encoded, e₂) = >>=-eq-ok (encode source.chain_id proofs) _ e₁ in
                elim (Bool-cases (ltb tx_max_input (length input + size))) [
                  | inl full ↦ none_added (suc n) bs size inputs inputs' fits (rw full at e₂)
                  | inr room ↦
                      let rest =
                        loop_batches n (bs + 1) (size + length input) (inputs ++ input ∷ []) inputs'
                          (omega (arith, not-ltb→le _ _ room)) (rw room at e₂) in
                      record {
                        added = input ∷ rest.added;
                        batch = next (not-ltb→le _ _ reached) proven encoded rest.batch;
                        appended = rest.appended ∙ append_assoc inputs (input ∷ []) rest.added;
                        fits = omega (arith, rest.fits);
                        within = omega (arith, rest.within);
                      }
                ]
          ]
