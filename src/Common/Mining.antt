-- ===== src/Common/Mining.antt =====
-- `waitTxToBeMined` of relayer/common.go.
use bas_relay_hub.Prelude.{
  ℕ, zero, suc, ◌<◌, ◌≡◌, refl, Bool, true, false, inl, inr, Bool-cases, arith,
}
use bas_relay_hub.Errors.{ok, err, not_mined}
use bas_relay_hub.Eth.{Hash}
use bas_relay_hub.Common.{wait_loop, tries, wait_tx_to_be_mined}

loop_waits :
    (n : ℕ) (mined : ℕ → Bool) (tx_hash : Hash)
    → ((k : ℕ) → k < n → mined k ≡ true → wait_loop n mined tx_hash ≡ ok tt)
      × (((k : ℕ) → k < n → mined k ≡ false) → wait_loop n mined tx_hash ≡ err (not_mined tx_hash))
unfolding wait_loop
loop_waits zero mined tx_hash = (λ k h m. absurd (omega arith), λ h. refl)
loop_waits (suc n) mined tx_hash =
    let later = loop_waits n (λ k. mined (suc k)) tx_hash in
    (
      λ k h m. found k h m later.0,
      λ h. rw (h zero (omega arith)) (later.1 (λ k lt. h (suc k) (omega arith))),
    )
  where
    found :
        (k : ℕ)
        → k < suc n
        → mined k ≡ true
        → ((j : ℕ)
            → j < n
            → mined (suc j) ≡ true
            → wait_loop n (λ i. mined (suc i)) tx_hash ≡ ok tt)
        → wait_loop (suc n) mined tx_hash ≡ ok tt
    found zero h m later = rw m
    found (suc k) h m later = elim (Bool-cases (mined 0)) [
      | inl now ↦ rw now
      | inr not_yet ↦ rw not_yet (later k (omega arith) m)
    ]

loop_mined :
    (n : ℕ) (mined : ℕ → Bool) (tx_hash : Hash)
    → wait_loop n mined tx_hash ≡ ok tt
    → (k : ℕ) × (k < n) × (mined k ≡ true)
unfolding wait_loop
loop_mined zero mined tx_hash e = cc
loop_mined (suc n) mined tx_hash e = elim (Bool-cases (mined 0)) [
  | inl now ↦ (0, omega arith, now)
  | inr not_yet ↦
      let (k, early, found) = loop_mined n (λ j. mined (suc j)) tx_hash (rw not_yet at e) in
      (suc k, omega (arith, early), found)
]

-- a wait that succeeds has seen a receipt
pub mined_in_time :
    (mined : ℕ → Bool) (tx_hash : Hash)
    → wait_tx_to_be_mined mined tx_hash ≡ ok tt
    → (k : ℕ) × (k < 30) × (mined k ≡ true)
unfolding wait_tx_to_be_mined
mined_in_time mined tx_hash e = loop_mined tries mined tx_hash e

-- The wait succeeds if a receipt is there at one of the first thirty times that the node is asked,
-- and reports the transaction as not mined if at none of them.
pub wait_lem :
    (mined : ℕ → Bool) (tx_hash : Hash)
    → ((k : ℕ) → k < 30 → mined k ≡ true → wait_tx_to_be_mined mined tx_hash ≡ ok tt)
      × (((k : ℕ) → k < 30 → mined k ≡ false)
          → wait_tx_to_be_mined mined tx_hash ≡ err (not_mined tx_hash))
unfolding wait_tx_to_be_mined
wait_lem mined tx_hash = loop_waits tries mined tx_hash
