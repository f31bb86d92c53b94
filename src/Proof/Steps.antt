-- ===== src/Proof/Steps.antt =====
-- One round of the loop of `createBlockProofs`.
use bas_relay_hub.Prelude.{
  ℕ, zero, suc, ◌+◌, ◌≡◌, refl, Bool, true, false, List, [], ◌∷◌, ◌++◌, Bytes, length,
  Bytes-discrete, leb,
}
use bas_relay_hub.Prelude.Maps.{GoMap, insert}
use bas_relay_hub.Errors.{ok, >>=-eq-ok}
use bas_relay_hub.Eth.{Address, Header, Eth, Client}
use bas_relay_hub.Proof.{prove_block, block_loop}

abbrev pub mark : Header → GoMap Address Bool → GoMap Address Bool
mark h m = insert Bytes-discrete h.coinbase true m

module _ (eth : Eth) (client : Client) (chain_id quorum n i : ℕ) (m : GoMap Address Bool)
    (proofs : List Bytes) where
  pub round_stops :
      (h : Header) (p : Bytes)
      → prove_block eth client chain_id i ≡ ok (h, p)
      → leb quorum (length (mark h m)) ≡ true
      → block_loop eth client chain_id quorum (suc n) i m proofs ≡ ok (mark h m, proofs ++ p ∷ [])
  unfolding block_loop
  round_stops h p e stop = rw (e, stop)

  pub round_goes_on :
      (h : Header) (p : Bytes)
      → prove_block eth client chain_id i ≡ ok (h, p)
      → leb quorum (length (mark h m)) ≡ false
      → block_loop eth client chain_id quorum (suc n) i m proofs
        ≡ block_loop eth client chain_id quorum n (i + 1) (mark h m) (proofs ++ p ∷ [])
  unfolding block_loop
  round_goes_on h p e more = rw (e, more)

  pub round_proves :
      {r : GoMap Address Bool × List Bytes}
      → block_loop eth client chain_id quorum (suc n) i m proofs ≡ ok r
      → (h : Header) × (p : Bytes) × (prove_block eth client chain_id i ≡ ok (h, p))
  unfolding block_loop
  round_proves e =
      let ((h, p), proven, _) = >>=-eq-ok (prove_block eth client chain_id i) _ e in (h, p, proven)

pub rounds_end :
    (eth : Eth) (client : Client) (chain_id quorum i : ℕ) (m : GoMap Address Bool)
    (proofs : List Bytes)
    → block_loop eth client chain_id quorum zero i m proofs ≡ ok (m, proofs)
unfolding block_loop
rounds_end eth client chain_id quorum i m proofs = refl
