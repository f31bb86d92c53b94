-- ===== src/Service/Epochs/Size.antt =====
-- The size that `createEpochTransition` gives a batch.
use bas_relay_hub.Prelude.{ℕ, ◌+◌, ◌-◌, ◌*◌, ◌/◌, ◌≤◌, ◌<◌, ◌^◌, ◌≡◌, ap, ◌∙◌, arith}
use bas_relay_hub.Prelude.Words.{
  ℤ, pos, word, sub64, int64, div_int-pos, div_int-negsuc, rounds_to-neg, div_int, rounds_to,
}
use bas_relay_hub.Errors.{ok}
use bas_relay_hub.Service.Epochs.{tx_gas_reserve, batch_size}

-- the result of `batch_size`, where it has one
sized :
    (gas_limit estimate : ℕ) (z : ℤ)
    → batch_size gas_limit estimate ≡ ok z
    → (0 < estimate) × (z ≡ div_int (int64 (sub64 gas_limit tx_gas_reserve)) (int64 estimate))
unfolding batch_size
sized gas_limit estimate z e = (ground arith, ground arith)

quotient_fits : (a b : ℕ) → a / b * b ≤ a
quotient_fits a b = omega arith

-- a division of `int64` gives no more rounds than the whole quotient
pub batch_size_fits :
    (gas_limit estimate : ℕ) (z : ℤ)
    → tx_gas_reserve ≤ gas_limit
    → gas_limit < 2 ^ 63
    → estimate < 2 ^ 63
    → batch_size gas_limit estimate ≡ ok z
    → rounds_to z * estimate + tx_gas_reserve ≤ gas_limit
batch_size_fits gas_limit estimate z enough small small' e =
    let (positive, quotient) = sized gas_limit estimate z e in
    let free : sub64 gas_limit tx_gas_reserve ≡ gas_limit - tx_gas_reserve = omega arith in
    let whole : z ≡ pos ((gas_limit - tx_gas_reserve) / estimate) =
      quotient
      ∙ ap (λ (n : ℕ). div_int (int64 n) (int64 estimate)) free
      ∙ div_int-pos (gas_limit - tx_gas_reserve) estimate (omega arith) small' in
    omega (
      arith,
      ap (λ (x : ℤ). rounds_to x * estimate) whole,
      quotient_fits (gas_limit - tx_gas_reserve) estimate,
    )

-- a gas limit below the reserve wraps around, and the batch has no round
pub batch_size_low :
    (gas_limit estimate : ℕ) (z : ℤ)
    → gas_limit < tx_gas_reserve
    → estimate < 2 ^ 63
    → batch_size gas_limit estimate ≡ ok z
    → rounds_to z ≡ 0
batch_size_low gas_limit estimate z low small e =
    let (positive, quotient) = sized gas_limit estimate z e in
    let big : 2 ^ 63 ≤ sub64 gas_limit tx_gas_reserve = omega arith in
    ap rounds_to (quotient ∙ div_int-negsuc (sub64 gas_limit tx_gas_reserve) estimate big small)
    ∙ rounds_to-neg ((word - sub64 gas_limit tx_gas_reserve - 1 + 1) / estimate)
