-- ===== src/Common/Time/Divided.antt =====
-- A number of seconds, divided by one number after the other.
use Prim.Native.Nat.{◌^◌}
use native.Mathlib.Nat.{
  mul-le-mul_left, le_of_mul-le-mul_left, lt_of_mul-lt-mul_left, lt-div-mul-add, div-mul-le_self,
  div-eq_of_lt-le, zero-div,
}
use bas_relay_hub.Prelude.{
  ℕ, zero, suc, ◌+◌, ◌-◌, ◌*◌, ◌/◌, ◌<◌, ◌≤◌, ◌≡◌, inl, inr, Bool-cases, refl, sym, ◌∙◌, Bool, true,
  false, ◌&&◌, arith, List, [], ◌∷◌, ltb, leb,
}
use bas_relay_hub.Prelude.Words.{pos}
use bas_relay_hub.Common.Time.{Float, round_double, float64, divide_all, floor}
use bas_relay_hub.Common.Time.Rounding.{
  round_double-Rounds, round_double-zero, round_double-negative,
}

-- f is n / d up to rounding: it lies on the same side of each natural number, unless it is one, is larger at most by
-- the factor e / c, and is not so small that it has fewer than 53 bits
pub record Close (n d c e g : ℕ) (f : Float) : Type 0 where
  pub sign : f.negative ≡ false
  pub positive : 0 < f.den
  pub low : (k : ℕ) → k * d ≤ n → k * f.den ≤ f.num
  pub high : f.num * d * c ≤ n * f.den * e
  pub small : f.num ≤ 2 ^ 52 * f.den
  pub large : f.den ≤ g * f.num

factor_positive : (g m : ℕ) → 0 < g * m → 0 < m
factor_positive g zero h = absurd (omega (arith, h))
factor_positive g (suc m) h = omega arith

-- one more division
rounded-Close :
    {n d c e g : ℕ} {f : Float} (a : ℕ)
    → 0 < a
    → 2 ^ 52 * (g * a) ≤ 2 ^ 1074
    → Close n d c e g f
    → Close n
        (d * a)
        (c * 2 ^ 53)
        (e * (2 ^ 53 + 1))
        (g * (2 * a))
        (round_double f.negative f.num (f.den * a))
rounded-Close {n} {d} {c} {e} {g} {f} a some_ scaled close =
    let bigger : f.den ≤ f.den * a = omega (arith, mul-le-mul_left f.den some_) in
    let divisor : 0 < f.den * a = omega (arith, bigger, close.positive) in
    let some_value : 0 < f.num =
      factor_positive g f.num (omega (arith, close.large, close.positive)) in
    let rounds =
      round_double-Rounds f.negative f.num (f.den * a) divisor
        (omega (arith, close.small, close.positive, bigger))
        (omega (arith, mul-le-mul_left (2 ^ 52 * a) close.large, mul-le-mul_left f.num scaled)) in
    let f' = round_double f.negative f.num (f.den * a) in
    record {
      sign = round_double-negative f.negative f.num (f.den * a) ∙ close.sign;
      positive = rounds.positive;
      low = λ k below. rounds.low k (omega (arith, close.low (k * a) (omega (arith, below))));
      high =
          le_of_mul-le-mul_left {k = f.den}
            (omega (
              arith,
              mul-le-mul_left (d * c) rounds.high,
              mul-le-mul_left ((2 ^ 53 + 1) * f'.den) close.high,
            ))
            close.positive;
      small = rounds.top (2 ^ 52) (omega (arith, close.small, bigger));
      large =
          le_of_mul-le-mul_left {k = f.num}
            (omega (arith, rounds.half, mul-le-mul_left (2 * a * f'.num) close.large)) some_value;
    }

-- the product of the divisors, and how the other numbers grow with them
abbrev pub times : ℕ → List ℕ → ℕ
times d [] = d
times d (a ∷ divisors) = times (d * a) divisors

abbrev scales : ℕ → List ℕ → ℕ
scales c [] = c
scales c (a ∷ divisors) = scales (c * 2 ^ 53) divisors

abbrev errors : ℕ → List ℕ → ℕ
errors e [] = e
errors e (a ∷ divisors) = errors (e * (2 ^ 53 + 1)) divisors

abbrev bounds : ℕ → List ℕ → ℕ
bounds g [] = g
bounds g (a ∷ divisors) = bounds (g * (2 * a)) divisors

-- the divisors are some, and do not bring the number below the smallest double with 53 bits
abbrev fit : ℕ → List ℕ → Bool
fit g [] = true
fit g (a ∷ divisors) = ltb 0 a && leb (2 ^ 52 * (g * a)) (2 ^ 1074) && fit (g * (2 * a)) divisors

fit-parts :
    (g a : ℕ) (divisors : List ℕ)
    → fit g (a ∷ divisors) ≡ true
    → (0 < a) × (2 ^ 52 * (g * a) ≤ 2 ^ 1074) × (fit (g * (2 * a)) divisors ≡ true)
fit-parts g a divisors fits = ground arith

divided-Close :
    (divisors : List ℕ) {n d c e g : ℕ} {f : Float}
    → fit g divisors ≡ true
    → Close n d c e g f
    → Close n
        (times d divisors)
        (scales c divisors)
        (errors e divisors)
        (bounds g divisors)
        (divide_all f divisors)
unfolding divide_all
divided-Close [] fits close = close
divided-Close (a ∷ divisors) {g = g} fits close =
    let (some_, scaled, more) = fit-parts g a divisors fits in
    divided-Close divisors more (rounded-Close a some_ scaled close)

divided-zero :
    (divisors : List ℕ) (g : ℕ) (f : Float)
    → fit g divisors ≡ true
    → f.num ≡ 0
    → 0 < f.den
    → (divide_all f divisors).num ≡ 0
unfolding divide_all
divided-zero [] g f fits none some_ = none
divided-zero (a ∷ divisors) g f fits none some_ =
    let (positive, scaled, more) = fit-parts g a divisors fits in
    let bigger : f.den ≤ f.den * a = omega (arith, mul-le-mul_left f.den positive) in
    let (none', some_') = round_double-zero f.negative (f.den * a) (omega (arith, bigger, some_)) in
    divided-zero divisors (g * (2 * a)) (round_double f.negative f.num (f.den * a)) more
      (rw none none') (rw none some_')

floor-Close :
    {n d c e g : ℕ} {f : Float} → 0 < d → n * e < (n + 1) * c → Close n d c e g f → floor f ≡ n / d
unfolding floor
floor-Close {n} {d} {c} {e} {g} {f} some_ near close =
    let above : n < n / d * d + d = lt-div-mul-add some_ in
    let high : d * c * f.num < d * c * ((n / d + 1) * f.den) = omega (
      arith,
      close.high,
      close.positive,
      mul-le-mul_left f.den near,
      mul-le-mul_left (c * f.den) above,
    ) in
    rw close.sign (
      div-eq_of_lt-le f.den (close.low (n / d) (div-mul-le_self n d))
        (lt_of_mul-lt-mul_left (d * c) high))

floor-zero : (f : Float) → f.num ≡ 0 → floor f ≡ 0
unfolding floor
floor-zero f none = elim (Bool-cases f.negative) [
  | inl below ↦ rw below refl
  | inr above ↦ rw (above, none) (zero-div f.den)
]

abbrev exact : ℕ → Float
exact n = record { negative = false; num = n; den = 1 }

exact-Close : (n : ℕ) → 0 < n → n ≤ 2 ^ 52 → Close n 1 1 1 1 (exact n)
exact-Close n some_ below = record {
  sign = refl;
  positive = omega arith;
  low = λ k h. h;
  high = omega arith;
  small = omega (arith, below);
  large = omega (arith, some_);
}

-- the floor of a double that is divided by these is the quotient, up to 2 ^ 50
abbrev pub exact_by : List ℕ → Bool
exact_by divisors =
    fit 1 (1 ∷ divisors)
    && ltb 0 (times 1 divisors)
    && leb (scales 1 (1 ∷ divisors)) (errors 1 (1 ∷ divisors))
    && ltb (2 ^ 50 * errors 1 (1 ∷ divisors)) ((2 ^ 50 + 1) * scales 1 (1 ∷ divisors))

exact_by-parts :
    (divisors : List ℕ)
    → exact_by divisors ≡ true
    → (fit 1 (1 ∷ divisors) ≡ true)
      × (0 < times 1 divisors)
      × (scales 1 (1 ∷ divisors) ≤ errors 1 (1 ∷ divisors))
      × (2 ^ 50 * errors 1 (1 ∷ divisors) < (2 ^ 50 + 1) * scales 1 (1 ∷ divisors))
exact_by-parts divisors holds = ground arith

below-near : (n top c e : ℕ) → n ≤ top → c ≤ e → top * e < (top + 1) * c → n * e < (n + 1) * c
below-near n top c e below more near =
    let all : n + (top - n) ≡ top = omega (arith, below) in
    let near' : (n + (top - n)) * e < (n + (top - n) + 1) * c = rw all near in
    omega (arith, near', mul-le-mul_left (top - n) more)

pub floor_divided :
    (n : ℕ) (divisors : List ℕ)
    → n ≤ 2 ^ 50
    → exact_by divisors ≡ true
    → floor (divide_all (float64 (pos n)) divisors) ≡ n / times 1 divisors
unfolding float64 divide_all floor
floor_divided zero divisors below holds =
    let (fits, some_, more, near) = exact_by-parts divisors holds in
    floor-zero (divide_all (exact 0) (1 ∷ divisors))
      (divided-zero (1 ∷ divisors) 1 (exact 0) fits refl (omega arith))
    ∙ sym (zero-div (times 1 divisors))
floor_divided (suc n) divisors below holds =
    let (fits, some_, more, near) = exact_by-parts divisors holds in
    floor-Close some_
      (below-near (suc n) (2 ^ 50) (scales 1 (1 ∷ divisors)) (errors 1 (1 ∷ divisors)) below more
        near)
      (divided-Close (1 ∷ divisors) fits (exact-Close (suc n) (omega arith) (omega (arith, below))))
