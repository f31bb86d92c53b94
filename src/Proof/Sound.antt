-- ===== src/Proof/Sound.antt =====
-- `createBlockProofs` returns only lists that prove the epoch.
use Prim.Native.Nat.{suc-le-suc}
use mathlib.Core.List.{append-nil, append_assoc}
use bas_relay_hub.Prelude.{
  ℕ, zero, suc, ◌+◌, ◌≤◌, ◌<◌, ◌≡◌, ◌≢◌, refl, sym, ap, ◌∙◌, subst, Bool, inl, inr, List, [], ◌∷◌,
  ◌++◌, Bytes, length, Bytes-discrete, arith, leb, ltb, Bool-cases, not-leb→lt, if◌then◌else◌,
}
use bas_relay_hub.Prelude.Words.{add64, sub64, int64}
use bas_relay_hub.Prelude.Maps.{GoMap, mark_all}
use bas_relay_hub.Prelude.Maps.Counts.{length-mark_all}
use bas_relay_hub.Errors.{
  Error, ok, err, fetch_prev_epoch_block, extract_validators, wrapped, >>=-eq-ok, wrapped-eq-ok,
  ok-injective,
}
use bas_relay_hub.Eth.{Address, Header, Eth, Client}
use bas_relay_hub.Parlia.{extract_parlia_validators}
use bas_relay_hub.Proof.{
  quorum_of, rounds, check_signer, prove_block, block_loop, create_block_proofs,
}
use bas_relay_hub.Proof.Steps.{mark, round_stops, round_goes_on, round_proves, rounds_end}
use bas_relay_hub.Proof.Run.{IsProven, Run, end, next, coinbases, signers, ProvesEpoch}

module _ (eth : Eth) (client : Client) (chain_id : ℕ) where
  prove_block_sound :
      (i : ℕ) (h : Header) (p : Bytes)
      → prove_block eth client chain_id i ≡ ok (h, p)
      → IsProven eth client chain_id i h p
  unfolding prove_block check_signer
  prove_block_sound i h p e = record {
    fetched = ground arith;
    sealed = ground arith;
    encoded = ground arith;
  }

  module _ (quorum : ℕ) where
    -- what the loop has done when it ends, from `m` and `proofs` on
    record HasRun (n i : ℕ) (m m' : GoMap Address Bool) (proofs proofs' : List Bytes) : Type 0 where
      headers : List Header
      added : List Bytes
      run : Run eth client chain_id i headers added
      appended : proofs' ≡ proofs ++ added
      marked : m' ≡ mark_all Bytes-discrete (coinbases headers) m
      within : length headers ≤ n
      shortest :
          (front back : List Header)
          → headers ≡ front ++ back
          → front ≢ []
          → back ≢ []
          → length (mark_all Bytes-discrete (coinbases front) m) < quorum
      some_block : headers ≡ [] → n ≡ 0

    one_block :
        (h : Header) (front back : List Header)
        → h ∷ [] ≡ front ++ back
        → front ≢ []
        → back ≢ []
        → ⊥
    one_block h [] back e hf hb = hf refl
    one_block h (x ∷ []) [] e hf hb = hb refl
    one_block h (x ∷ []) (y ∷ back) e hf hb = cc
    one_block h (x ∷ x' ∷ front) back e hf hb = cc

    shortest_next :
        (h : Header) (m : GoMap Address Bool) (headers : List Header)
        → length (mark h m) < quorum
        → ((front back : List Header)
            → headers ≡ front ++ back
            → front ≢ []
            → back ≢ []
            → length (mark_all Bytes-discrete (coinbases front) (mark h m)) < quorum)
        → (front back : List Header) → h ∷ headers ≡ front ++ back
        → front ≢ []
        → back ≢ []
        → length (mark_all Bytes-discrete (coinbases front) m) < quorum
    unfolding mark_all
    shortest_next h m headers few rest [] back e hf hb = absurd (hf refl)
    shortest_next h m headers few rest (x ∷ []) back e hf hb =
        let same : h ≡ x = cc in rw (← same) few
    shortest_next h m headers few rest (x ∷ y ∷ front) back e hf hb =
        let same : h ≡ x = cc in
        let tails : headers ≡ y ∷ front ++ back = cc in
        rw (← same) (rest (y ∷ front) back tails (cc) hb)

    no_block : (front back : List Header) → [] ≡ front ++ back → front ≢ [] → ⊥
    no_block [] back e hf = hf refl
    no_block (x ∷ front) back e hf = cc

    ended : (i : ℕ) (m : GoMap Address Bool) (proofs : List Bytes) → HasRun zero i m m proofs proofs
    unfolding mark_all
    ended i m proofs = record {
      headers = [];
      added = [];
      run = end;
      appended = sym (append-nil proofs);
      marked = refl;
      within = omega arith;
      shortest = λ front back e hf hb. absurd (no_block front back e hf);
      some_block = λ _. refl;
    }

    stopped :
        (n i : ℕ) (m : GoMap Address Bool) (proofs : List Bytes) (h : Header) (p : Bytes)
        → IsProven eth client chain_id i h p
        → HasRun (suc n) i m (mark h m) proofs (proofs ++ p ∷ [])
    unfolding mark_all
    stopped n i m proofs h p proven = record {
      headers = h ∷ [];
      added = p ∷ [];
      run = next proven end;
      appended = refl;
      marked = refl;
      within = omega arith;
      shortest = λ front back e hf hb. absurd (one_block h front back e hf hb);
      some_block = λ e. cc;
    }

    gone_on :
        (n i : ℕ) (m m' : GoMap Address Bool) (proofs proofs' : List Bytes) (h : Header) (p : Bytes)
        → IsProven eth client chain_id i h p
        → length (mark h m) < quorum
        → HasRun n (i + 1) (mark h m) m' (proofs ++ p ∷ []) proofs'
        → HasRun (suc n) i m m' proofs proofs'
    unfolding mark_all
    gone_on n i m m' proofs proofs' h p proven few rest = record {
      headers = h ∷ rest.headers;
      added = p ∷ rest.added;
      run = next proven rest.run;
      appended = rest.appended ∙ append_assoc proofs (p ∷ []) rest.added;
      marked = rest.marked;
      within = suc-le-suc rest.within;
      shortest = shortest_next h m rest.headers few rest.shortest;
      some_block = λ e. cc;
    }

    loop_runs :
        (n i : ℕ) (m : GoMap Address Bool) (proofs : List Bytes)
        (r : GoMap Address Bool × List Bytes)
        → block_loop eth client chain_id quorum n i m proofs ≡ ok r
        → HasRun n i m r.0 proofs r.1
    loop_runs zero i m proofs r e =
        subst (λ (r' : GoMap Address Bool × List Bytes). HasRun zero i m r'.0 proofs r'.1)
          (ok-injective (sym (rounds_end eth client chain_id quorum i m proofs) ∙ e))
          (ended i m proofs)
    loop_runs (suc n) i m proofs r e =
        let (h, p, proven) = round_proves eth client chain_id quorum n i m proofs e in
        elim (Bool-cases (leb quorum (length (mark h m)))) [
          | inl stop ↦
              subst (λ (r' : GoMap Address Bool × List Bytes). HasRun (suc n) i m r'.0 proofs r'.1)
                (ok-injective
                  (sym (round_stops eth client chain_id quorum n i m proofs h p proven stop) ∙ e))
                (stopped n i m proofs h p (prove_block_sound i h p proven))
          | inr more ↦
              gone_on n i m r.0 proofs r.1 h p (prove_block_sound i h p proven)
                (not-leb→lt quorum (length (mark h m)) more)
                (loop_runs n (i + 1) (mark h m) (proofs ++ p ∷ []) r
                  (sym (round_goes_on eth client chain_id quorum n i m proofs h p proven more) ∙ e))
        ]

pub marks-signers :
    (hs : List Header) → length (mark_all Bytes-discrete (coinbases hs) []) ≡ signers hs
marks-signers hs = omega (arith, length-mark_all Bytes-discrete (coinbases hs) [])

-- the check behind the loop
passed_check :
    (marks quorum : ℕ) (failed : Error) (built proofs : List Bytes)
    → (if ltb marks quorum then err failed else ok built) ≡ ok proofs
    → (quorum ≤ marks) × (built ≡ proofs)
passed_check marks quorum failed built proofs e = (ground arith, ground arith)

module _ (eth : Eth) (client : Client) (epoch_block epoch_length : ℕ) where
  -- A list that `createBlockProofs` returns is the RLP of the headers of consecutive blocks from
  -- the epoch block on, each sealed by its own coinbase; the number of their distinct coinbases
  -- is at least two thirds, rounded down, of that of the validators of the previous epoch block,
  -- and no shorter run that is not empty has so many.
  pub blocks_sound :
      {proofs : List Bytes}
      → create_block_proofs eth client epoch_block epoch_length ≡ ok proofs
      → ProvesEpoch eth client epoch_block epoch_length proofs
  unfolding create_block_proofs
  blocks_sound {proofs} e =
      let prev_block : ℕ = sub64 epoch_block epoch_length in
      let n : ℕ = rounds epoch_block (add64 epoch_block epoch_length) in
      let (chain_id, known, e₁) = >>=-eq-ok client.chain_id _ e in
      let (prev, fetched, e₂) =
        >>=-eq-ok
          (wrapped (fetch_prev_epoch_block prev_block) (client.block_by_number (int64 prev_block)))
          _ e₁ in
      let ((validators, mapping), extracted, e₃) =
        >>=-eq-ok (wrapped extract_validators (extract_parlia_validators eth prev)) _ e₂ in
      let quorum : ℕ = quorum_of validators in
      let (r, looped, e₄) =
        >>=-eq-ok (block_loop eth client chain_id quorum n epoch_block [] []) _ e₃ in
      let (reached, built) = passed_check (length r.0) quorum _ r.1 proofs e₄ in
      let done = loop_runs eth client chain_id quorum n epoch_block [] [] r looped in
      record {
        chain_id = chain_id;
        chain_id_known = known;
        prev = prev;
        prev_fetched = wrapped-eq-ok _ _ fetched;
        validators = validators;
        mapping = mapping;
        extracted = wrapped-eq-ok _ _ extracted;
        headers = done.headers;
        run =
            subst (Run eth client chain_id epoch_block done.headers) (sym done.appended ∙ built)
              done.run;
        quorum_reached = omega (arith, reached, ap length done.marked, marks-signers done.headers);
        shortest = λ front back split hf hb.
            omega (arith, done.shortest front back split hf hb, marks-signers front);
        within = done.within;
        some_block = done.some_block;
      }
