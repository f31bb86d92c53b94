-- ===== src/Common/Time/Rounding.antt =====
-- How far a double is from the number that it is rounded from.
use Prim.Native.Nat.{◌^◌}
use native.Mathlib.Nat.{
  div-add-mod', mod-lt, mul-le-mul_left, lt_of_mul-lt-mul_left, div-le_of_le-mul, le-div_iff_mul-le,
}
use bas_relay_hub.Prelude.{
  ℕ, zero, suc, ◌+◌, ◌*◌, ◌/◌, ◌%◌, ◌<◌, ◌≤◌, ◌≡◌, ◌⊎◌, inl, inr, Bool-cases, refl, ap, Bool, arith,
  ltb, leb, lt→ltb, leb→le,
}
use bas_relay_hub.Common.Time.{nearest, scale_up, round_double}

-- it is the quotient, or the next number where the rest is at least half
nearest-cases :
    (a b : ℕ)
    → 0 < b
    → ((nearest a b ≡ a / b) × (2 * (a % b) ≤ b)) ⊎ ((nearest a b ≡ a / b + 1) × (b ≤ 2 * (a % b)))
unfolding nearest
nearest-cases a b some_ = ground arith

nearest_above : (a b : ℕ) → 0 < b → a / b ≤ nearest a b
nearest_above a b some_ = elim (nearest-cases a b some_) [
  | inl (is, _) ↦ omega arith
  | inr (is, _) ↦ omega arith
]

nearest_below : (a b : ℕ) → 0 < b → 2 * (nearest a b * b) ≤ 2 * a + b
nearest_below a b some_ = elim (nearest-cases a b some_) [
  | inl (is, half) ↦ rw is (omega (arith, div-add-mod' a b))
  | inr (is, half) ↦ rw is (omega (arith, div-add-mod' a b, half))
]

nearest_half : (a b : ℕ) → 0 < b → 2 * a ≤ 2 * (nearest a b * b) + b
nearest_half a b some_ = elim (nearest-cases a b some_) [
  | inl (is, half) ↦ rw is (omega (arith, div-add-mod' a b, half))
  | inr (is, half) ↦ rw is (omega (arith, div-add-mod' a b, mod-lt a some_))
]

-- a number that is not above k is not rounded to one above k
nearest_le : (a b k : ℕ) → 0 < b → a ≤ k * b → nearest a b ≤ k
nearest_le a b k some_ above = elim (nearest-cases a b some_) [
  | inl (is, _) ↦ rw is (div-le_of_le-mul b (omega (arith, above)))
  | inr (is, half) ↦
      let rest = div-add-mod' a b in
      let below : b * (a / b) < b * k = omega (arith, above, rest, half, some_) in
      rw is (omega (arith, lt_of_mul-lt-mul_left b below))
]

doubled : (n : ℕ) → 2 ^ suc n ≡ 2 * 2 ^ n
doubled n = omega arith

twice : (n a : ℕ) → 2 ^ suc n * a ≡ 2 ^ n * (2 * a)
twice n a = omega (arith, ap (λ (p : ℕ). p * a) (doubled n))

scale_up-positive : (n a b : ℕ) → 0 < scale_up n a b
unfolding scale_up
scale_up-positive zero a b = omega arith
scale_up-positive (suc n) a b = ground (arith, scale_up-positive n (2 * a) b)

scale_up-reaches : (n a b : ℕ) → 2 ^ 52 * b ≤ 2 ^ n * a → 2 ^ 52 * b ≤ scale_up n a b * a
unfolding scale_up
scale_up-reaches zero a b enough = omega arith
scale_up-reaches (suc n) a b enough = elim (Bool-cases (leb (2 ^ 52 * b) a)) [
  | inl reached ↦ rw reached (omega (arith, leb→le _ _ reached))
  | inr below ↦ rw below (omega (arith, scale_up-reaches n (2 * a) b (rw (← twice n a) enough)))
]

-- the fraction num / den is a / b, rounded: it lies on the side of each natural number on
-- which a / b is, it is larger by at most
-- one part in 2 ^ 53, and it is at least half as large
pub record Rounds (a b num den : ℕ) : Type 0 where
  pub positive : 0 < den
  pub low : (k : ℕ) → k * b ≤ a → k * den ≤ num
  pub high : 2 ^ 53 * (num * b) ≤ (2 ^ 53 + 1) * (a * den)
  pub top : (k : ℕ) → a ≤ k * b → num ≤ k * den
  pub half : a * den ≤ 2 * (num * b)

-- below 2 ^ 53, and so large that it has 53 bits
pub round_double-Rounds :
    (negative : Bool) (a b : ℕ)
    → 0 < b
    → a < 2 ^ 53 * b
    → 2 ^ 52 * b ≤ 2 ^ 1074 * a
    → let f = round_double negative a b in Rounds a b f.num f.den
unfolding round_double
round_double-Rounds negative a b some_ small large =
    let up = scale_up 1074 a b in
    let reached = scale_up-reaches 1074 a b large in
    rw (lt→ltb a (2 ^ 53 * b) small) (record {
      positive = scale_up-positive 1074 a b;
      low = λ k below.
          let scaled : k * up * b ≤ a * up = omega (arith, mul-le-mul_left up below) in
          omega (arith, (le-div_iff_mul-le some_).1 scaled, nearest_above (a * up) b some_);
      high = omega (arith, nearest_below (a * up) b some_, reached);
      top = λ k above.
          let scaled : a * up ≤ k * up * b = omega (arith, mul-le-mul_left up above) in
          nearest_le (a * up) b (k * up) some_ scaled;
      half = omega (arith, nearest_half (a * up) b some_, reached);
    })

pub round_double-zero :
    (negative : Bool) (b : ℕ)
    → 0 < b
    → let f = round_double negative 0 b in (f.num ≡ 0) × (0 < f.den)
unfolding round_double
round_double-zero negative b some_ =
    let none = nearest_le (0 * scale_up 1074 0 b) b 0 some_ (omega arith) in
    rw (lt→ltb 0 (2 ^ 53 * b) (omega (arith, some_)))
      (omega (arith, none), scale_up-positive 1074 0 b)

pub round_double-negative :
    (negative : Bool) (a b : ℕ) → (round_double negative a b).negative ≡ negative
unfolding round_double
round_double-negative negative a b = elim (Bool-cases (ltb a (2 ^ 53 * b))) [
  | inl small ↦ rw small refl
  | inr large ↦ rw large refl
]
