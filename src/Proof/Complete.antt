-- ===== src/Proof/Complete.antt =====
-- `createBlockProofs` finds every list that proves the epoch.
use mathlib.Core.List.{append-nil, append_assoc}
use bas_relay_hub.Prelude.{
  ℕ, zero, suc, ◌+◌, ◌≤◌, ◌<◌, ◌≡◌, ◌≢◌, refl, ap, ◌∙◌, Bool, false, List, [], ◌∷◌, ◌++◌, Bytes,
  length, Bytes-discrete, arith, ltb, le→leb, not-ltb, not-leb,
}
use bas_relay_hub.Prelude.Words.{add64}
use bas_relay_hub.Prelude.Maps.{GoMap, mark_all}
use bas_relay_hub.Errors.{ok}
use bas_relay_hub.Eth.{Address, Header, Eth, Client}
use bas_relay_hub.Proof.{
  quorum_of, rounds, check_signer, prove_block, block_loop, create_block_proofs,
}
use bas_relay_hub.Proof.Steps.{mark, round_stops, round_goes_on, rounds_end}
use bas_relay_hub.Proof.Run.{IsProven, Run, end, next, coinbases, ProvesEpoch}
use bas_relay_hub.Proof.Sound.{marks-signers}

module _ (eth : Eth) (client : Client) (chain_id : ℕ) where
  pub prove_block_complete :
      (i : ℕ) (h : Header) (p : Bytes)
      → IsProven eth client chain_id i h p
      → prove_block eth client chain_id i ≡ ok (h, p)
  unfolding prove_block check_signer
  prove_block_complete i h p proven = ground arith

  module _ (quorum : ℕ) where
    -- the run from block `i` on, from the marks `m`, stops the loop at its end and not before
    record Stops (n : ℕ) (m : GoMap Address Bool) (headers : List Header) : Type 0 where
      reached : quorum ≤ length (mark_all Bytes-discrete (coinbases headers) m)
      shortest :
          (front back : List Header)
          → headers ≡ front ++ back
          → front ≢ []
          → back ≢ []
          → length (mark_all Bytes-discrete (coinbases front) m) < quorum
      within : length headers ≤ n
      some_block : headers ≡ [] → n ≡ 0

    Stops-tail :
        (n : ℕ) (m : GoMap Address Bool) (h x : Header) (hs : List Header)
        → Stops (suc n) m (h ∷ x ∷ hs)
        → Stops n (mark h m) (x ∷ hs)
    unfolding mark_all
    Stops-tail n m h x hs s = record {
      reached = s.reached;
      shortest = λ front back e hf hb. s.shortest (h ∷ front) back (ap (◌∷◌ h) e) (λ e'. cc) hb;
      within = omega (arith, s.within);
      some_block = λ e. cc;
    }

    loop_finds :
        (n i : ℕ) (m : GoMap Address Bool) (proofs : List Bytes) {headers : List Header}
        {added : List Bytes}
        → Run eth client chain_id i headers added
        → Stops n m headers
        → block_loop eth client chain_id quorum n i m proofs
          ≡ ok (mark_all Bytes-discrete (coinbases headers) m, proofs ++ added)
    unfolding mark_all
    loop_finds zero i m proofs end s =
        rw append-nil (rounds_end eth client chain_id quorum i m proofs)
    loop_finds (suc n) i m proofs end s = absurd (omega (arith, s.some_block refl))
    loop_finds zero i m proofs (next proven run) s = absurd (omega (arith, s.within))
    loop_finds (suc n) i m proofs (next {h} {p} proven end) s =
        round_stops eth client chain_id quorum n i m proofs h p (prove_block_complete i h p proven)
          (le→leb quorum (length (mark h m)) s.reached)
    loop_finds (suc n) i m proofs (next {h} {p} proven (next {h = x} {p = q} {hs} {ps} proven' run))
          s =
        round_goes_on eth client chain_id quorum n i m proofs h p
          (prove_block_complete i h p proven)
          (not-leb quorum (length (mark h m)) (s.shortest (h ∷ []) (x ∷ hs) refl (cc) (cc)))
        ∙ loop_finds n (i + 1) (mark h m) (proofs ++ p ∷ []) (next proven' run)
            (Stops-tail n m h x hs s)
        ∙ rw append_assoc

module _ (eth : Eth) (client : Client) (epoch_block epoch_length : ℕ) where
  -- Any list that proves the epoch, as a shortest run of consecutive sealed blocks with two thirds
  -- of the validators of the previous epoch block, is the list that `createBlockProofs` returns.
  pub blocks_complete :
      {proofs : List Bytes}
      → ProvesEpoch eth client epoch_block epoch_length proofs
      → create_block_proofs eth client epoch_block epoch_length ≡ ok proofs
  unfolding create_block_proofs
  blocks_complete {proofs} p =
      let n : ℕ = rounds epoch_block (add64 epoch_block epoch_length) in
      let quorum : ℕ = quorum_of p.validators in
      let marks : GoMap Address Bool = mark_all Bytes-discrete (coinbases p.headers) [] in
      let found : block_loop eth client p.chain_id quorum n epoch_block [] [] ≡ ok (marks, proofs) =
        loop_finds eth client p.chain_id quorum n epoch_block [] [] p.run (record {
          reached = omega (arith, p.quorum_reached, marks-signers p.headers);
          shortest = λ front back e hf hb.
              omega (arith, p.shortest front back e hf hb, marks-signers front);
          within = p.within;
          some_block = p.some_block;
        }) in
      let passed : ltb (length marks) quorum ≡ false =
        not-ltb (length marks) quorum (omega (arith, p.quorum_reached, marks-signers p.headers)) in
      cc (p.chain_id_known, p.prev_fetched, p.extracted, found, passed)
