-- ===== src/Proof/Decide.antt =====
-- What `createBlockProofs` returns where the node has every block of an epoch.
use mathlib.Core.List.{append-nil, append_assoc}
use bas_relay_hub.Prelude.{
  ℕ, zero, suc, ◌+◌, ◌≤◌, ◌<◌, ◌≡◌, ◌⊎◌, inl, inr, refl, ap, ◌∙◌, Bool, Bool-cases, List, [], ◌∷◌,
  ◌++◌, Bytes, length, Bytes-discrete, arith, ltb, leb, leb→le, ltb→lt, not-ltb→le,
}
use bas_relay_hub.Prelude.Words.{add64, sub64, int64}
use bas_relay_hub.Prelude.Maps.{GoMap, mark_all}
use bas_relay_hub.Prelude.Maps.Counts.{length-mark_all}
use bas_relay_hub.Errors.{ok, err, quorum_not_reached}
use bas_relay_hub.Eth.{Address, Header, Eth, Client}
use bas_relay_hub.Parlia.{extract_parlia_validators}
use bas_relay_hub.Proof.{quorum_of, rounds, block_loop, create_block_proofs}
use bas_relay_hub.Proof.Steps.{mark, round_stops, round_goes_on, rounds_end}
use bas_relay_hub.Proof.Run.{Run, end, next, coinbases, signers}
use bas_relay_hub.Proof.Sound.{marks-signers}
use bas_relay_hub.Proof.Complete.{prove_block_complete}

module _ (eth : Eth) (client : Client) (chain_id quorum : ℕ) where
  -- how the loop ends over a run of blocks: with the marks and proofs of a part, or of all if they are too few
  record Ends (n i : ℕ) (m : GoMap Address Bool) (proofs : List Bytes) (headers : List Header)
      (all : List Bytes) : Type 0 where
    marks : GoMap Address Bool
    front : List Bytes
    back : List Bytes
    cut : all ≡ front ++ back
    ended : block_loop eth client chain_id quorum n i m proofs ≡ ok (marks, proofs ++ front)
    at_most : length marks ≤ length (mark_all Bytes-discrete (coinbases headers) m)
    too_few :
        length marks < quorum
        → length marks ≡ length (mark_all Bytes-discrete (coinbases headers) m)

  loop-Ends :
      (n i : ℕ) (m : GoMap Address Bool) (proofs : List Bytes) {headers : List Header}
      {all : List Bytes}
      → Run eth client chain_id i headers all
      → length headers ≡ n
      → Ends n i m proofs headers all
  unfolding mark_all
  loop-Ends zero i m proofs end sized = record {
    marks = m;
    front = [];
    back = [];
    cut = refl;
    ended = rw append-nil (rounds_end eth client chain_id quorum i m proofs);
    at_most = omega arith;
    too_few = λ few. refl;
  }
  loop-Ends (suc n) i m proofs end sized = absurd (omega (arith, sized))
  loop-Ends zero i m proofs (next proven run) sized = absurd (omega (arith, sized))
  loop-Ends (suc n) i m proofs (next {h} {p} {hs} {ps} proven run) sized =
      let one = prove_block_complete eth client chain_id i h p proven in
      elim (Bool-cases (leb quorum (length (mark h m)))) [
        | inl stops ↦ record {
          marks = mark h m;
          front = p ∷ [];
          back = ps;
          cut = refl;
          ended = round_stops eth client chain_id quorum n i m proofs h p one stops;
          at_most = omega (arith, length-mark_all Bytes-discrete (coinbases hs) (mark h m));
          too_few = λ few. absurd (omega (arith, few, leb→le quorum (length (mark h m)) stops));
        }
        | inr more ↦
            let rest =
              loop-Ends n (i + 1) (mark h m) (proofs ++ p ∷ []) run (omega (arith, sized)) in
            record {
              marks = rest.marks;
              front = p ∷ rest.front;
              back = rest.back;
              cut = ap (◌∷◌ p) rest.cut;
              ended =
                  round_goes_on eth client chain_id quorum n i m proofs h p one more
                  ∙ rest.ended
                  ∙ rw append_assoc;
              at_most = rest.at_most;
              too_few = rest.too_few;
            }
      ]

module _ (eth : Eth) (client : Client) (epoch_block epoch_length : ℕ) where
  -- Where the node answers with its chain id, with an epoch block before that holds some
  -- validators, and with every block of the epoch, each sealed by its own coinbase and with an
  -- RLP: either the distinct coinbases of the epoch are at least two thirds, rounded down, of
  -- the validators, and `createBlockProofs` returns the RLPs of a first part of these blocks; or
  -- they are fewer, and it returns the error that counts them against the quorum.
  pub blocks_decide :
      (chain_id : ℕ) (prev : Header) (validators : List Address) (mapping : GoMap Address Bool)
      {headers : List Header} {all : List Bytes}
      → client.chain_id ≡ ok chain_id
      → client.block_by_number (int64 (sub64 epoch_block epoch_length)) ≡ ok prev
      → extract_parlia_validators eth prev ≡ ok (validators, mapping)
      → Run eth client chain_id epoch_block headers all
      → length headers ≡ rounds epoch_block (add64 epoch_block epoch_length)
      → ((quorum_of validators ≤ signers headers)
          × (proofs : List Bytes) × (back : List Bytes) × (all ≡ proofs ++ back)
          × (create_block_proofs eth client epoch_block epoch_length ≡ ok proofs))
        ⊎ ((signers headers < quorum_of validators)
            × (create_block_proofs eth client epoch_block epoch_length
                ≡ err (quorum_not_reached epoch_block (signers headers) (quorum_of validators))))
  unfolding create_block_proofs
  blocks_decide chain_id prev validators mapping {headers} {all} known fetched extracted run sized =
      let quorum : ℕ = quorum_of validators in
      let n : ℕ = rounds epoch_block (add64 epoch_block epoch_length) in
      let ends = loop-Ends eth client chain_id quorum n epoch_block [] [] run sized in
      let counted = marks-signers headers in
      elim (Bool-cases (ltb (length ends.marks) quorum)) [
        | inr passed ↦ inl (
          omega (arith, counted, ends.at_most, not-ltb→le _ _ passed),
          ends.front,
          ends.back,
          ends.cut,
          cc (known, fetched, extracted, ends.ended, passed),
        )
        | inl failed ↦
            let same : length ends.marks ≡ signers headers =
              ends.too_few (ltb→lt _ _ failed) ∙ counted in
            inr (
              omega (arith, same, ltb→lt _ _ failed),
              cc (known, fetched, extracted, ends.ended, failed, same),
            )
      ]
