-- ===== src/Common/Time/Format.antt =====
-- What `prettyFormatTime` prints.
use Prim.Native.Nat.{◌^◌}
use native.Mathlib.Nat.{mod-le, zero-div}
use mathlib.Core.List.{append-nil}
use bas_relay_hub.Prelude.{
  ℕ, zero, suc, ◌+◌, ◌-◌, ◌*◌, ◌/◌, ◌%◌, ◌<◌, ◌≡◌, refl, ap, ◌∙◌, true, arith, List, [], ◌∷◌, ◌++◌,
  Bytes, ltb, Bool-cases, inl, inr, lt→ltb,
}
use bas_relay_hub.Prelude.Words.{pos, negsuc, neg}
use bas_relay_hub.Common.Time.{
  Float, round_double, float64, divide_all, floor, rem_int, amount, digits, decimal, part,
  pretty_format_time,
}
use bas_relay_hub.Common.Time.Rounding.{round_double-negative}
use bas_relay_hub.Common.Time.Divided.{times, exact_by, floor_divided}

-- the number that decimal digits stand for, behind one that has been read
abbrev pub read_decimal : ℕ → Bytes → ℕ
read_decimal k [] = k
read_decimal k (c ∷ text) = read_decimal (k * 10 + (c - b'0')) text

read-digits :
    (n k : ℕ) (rest : Bytes) → k < 10 ^ n → read_decimal 0 (digits n k rest) ≡ read_decimal k rest
unfolding digits
read-digits zero k rest below = ap (λ (j : ℕ). read_decimal j rest) (omega (arith, below))
read-digits (suc n) k rest below = elim (Bool-cases (ltb k 10)) [
  | inl one ↦ rw one (ap (λ (j : ℕ). read_decimal j rest) (omega arith))
  | inr more ↦ rw more (
      read-digits n (k / 10) ((b'0' + k % 10) ∷ rest) (omega (arith, below))
      ∙ ap (λ (j : ℕ). read_decimal j rest) (omega arith))
]

-- the digits of an `int` are read back as its value
pub read-decimal : (k : ℕ) → k < 2 ^ 63 → read_decimal 0 (decimal k) ≡ k
unfolding decimal
read-decimal k below = read-digits 19 k [] (omega (arith, below))

quotient :
    (n d k : ℕ) (divisors : List ℕ)
    → n < 2 ^ 50
    → 0 < d
    → exact_by divisors ≡ true
    → n % d / times 1 divisors ≡ k
    → floor (divide_all (float64 (rem_int (pos n) d)) divisors) ≡ k
unfolding rem_int
quotient n d k divisors below some_ holds is =
    floor_divided (n % d) divisors (omega (arith, below, mod-le n d)) holds ∙ is

-- a time in seconds, by its parts
abbrev pub time_of : ℕ → ℕ → ℕ → ℕ → ℕ → ℕ → ℕ → ℕ
time_of years months weeks days hours minutes seconds =
    (((((years * 12 + months) * 30 + weeks) * 7 + days) * 24 + hours) * 60 + minutes) * 60 + seconds

-- Below 2 ^ 50 seconds, the time of any number of years of twelve months, months of thirty weeks, and weeks,
-- days, hours, minutes and seconds is printed as these parts with their units, from the years on, less
-- those that are 0; the rounding of the floating-point divisions does not show.
pub format_reads :
    (years months weeks days hours minutes seconds : ℕ)
    → months < 12
    → weeks < 30
    → days < 7
    → hours < 24
    → minutes < 60
    → seconds < 60
    → time_of years months weeks days hours minutes seconds < 2 ^ 50
    → pretty_format_time (pos (time_of years months weeks days hours minutes seconds))
      ≡ part years b'y'
        ++ (part months b'm'
            ++ (part weeks b'w'
                ++ (part days b'd'
                    ++ (part hours b'h' ++ (part minutes b'm' ++ part seconds b's')))))
unfolding pretty_format_time rem_int
format_reads years months weeks days hours minutes seconds hm hw hd hh hi hs below =
    let n = time_of years months weeks days hours minutes seconds in
    let whole_years : n / 217728000 ≡ years = omega (arith, hm, hw, hd, hh, hi, hs) in
    let rest : n % 60 ≡ seconds = omega (arith, hs) in
    rw
      (
        floor_divided n (60 ∷ 60 ∷ 24 ∷ 7 ∷ 30 ∷ 12 ∷ []) (omega (arith, below)) refl,
        whole_years,
        quotient n 217728000 months (60 ∷ 60 ∷ 24 ∷ 7 ∷ 30 ∷ []) below (omega arith) refl
            (omega (arith, hm, hw, hd, hh, hi, hs)),
        quotient n 18144000 weeks (60 ∷ 60 ∷ 24 ∷ 7 ∷ []) below (omega arith) refl
            (omega (arith, hm, hw, hd, hh, hi, hs)),
        quotient n 604800 days (60 ∷ 60 ∷ 24 ∷ []) below (omega arith) refl
            (omega (arith, hm, hw, hd, hh, hi, hs)),
        quotient n 86400 hours (60 ∷ 60 ∷ []) below (omega arith) refl
            (omega (arith, hm, hw, hd, hh, hi, hs)),
        quotient n 3600 minutes (60 ∷ []) below (omega arith) refl
            (omega (arith, hm, hw, hd, hh, hi, hs)),
        rest,
      )
      refl

-- From one to eleven, so many minutes are printed as the same text as so many months, of 210 days each.
pub minutes_or_months :
    (k : ℕ)
    → 0 < k
    → k < 12
    → (pretty_format_time (pos (60 * k)) ≡ decimal k ++ b'm' ∷ [])
      × (pretty_format_time (pos (210 * 24 * 60 * 60 * k)) ≡ decimal k ++ b'm' ∷ [])
unfolding part
minutes_or_months k some_ few =
    let is_minutes : 60 * k ≡ time_of 0 0 0 0 0 k 0 = omega arith in
    let is_months : 18144000 * k ≡ time_of 0 k 0 0 0 0 0 = omega arith in
    let printed = lt→ltb 0 k some_ in
    (
      ap (λ (n : ℕ). pretty_format_time (pos n)) is_minutes
          ∙ format_reads 0 0 0 0 0 k 0 (omega arith) (omega arith) (omega arith) (omega arith)
              (omega (arith, few)) (omega arith) (omega (arith, few))
          ∙ rw printed (append-nil (decimal k ++ b'm' ∷ [])),
      ap (λ (n : ℕ). pretty_format_time (pos n)) is_months
          ∙ format_reads 0 k 0 0 0 0 0 few (omega arith) (omega arith) (omega arith) (omega arith)
              (omega arith) (omega (arith, few))
          ∙ rw printed (append-nil (decimal k ++ b'm' ∷ [])),
    )

divide_all-negative :
    (divisors : List ℕ) (f : Float) → f.negative ≡ true → (divide_all f divisors).negative ≡ true
unfolding divide_all
divide_all-negative [] f below = below
divide_all-negative (a ∷ divisors) f below =
    divide_all-negative divisors (round_double f.negative f.num (f.den * a))
      (round_double-negative f.negative f.num (f.den * a) ∙ below)

floor-negative : (n : ℕ) (divisors : List ℕ) → floor (divide_all (float64 (negsuc n)) divisors) ≡ 0
unfolding floor float64
floor-negative n divisors =
    let below =
      divide_all-negative divisors (round_double true (n + 1) 1)
        (round_double-negative true (n + 1) 1) in
    rw below refl

floor-neg :
    (m : ℕ) (divisors : List ℕ)
    → exact_by divisors ≡ true
    → floor (divide_all (float64 (neg m)) divisors) ≡ 0
floor-neg zero divisors holds =
    floor_divided 0 divisors (omega arith) holds ∙ zero-div (times 1 divisors)
floor-neg (suc m) divisors holds = floor-negative m divisors

amount-neg : (m : ℕ) → amount (neg m) ≡ 0
amount-neg zero = refl
amount-neg (suc m) = refl

-- a time below 0 is printed as nothing
pub format-negative : (n : ℕ) → pretty_format_time (negsuc n) ≡ []
unfolding pretty_format_time rem_int part
format-negative n =
    rw
      (
        floor-negative n (60 ∷ 60 ∷ 24 ∷ 7 ∷ 30 ∷ 12 ∷ []),
        floor-neg ((n + 1) % 217728000) (60 ∷ 60 ∷ 24 ∷ 7 ∷ 30 ∷ []) refl,
        floor-neg ((n + 1) % 18144000) (60 ∷ 60 ∷ 24 ∷ 7 ∷ []) refl,
        floor-neg ((n + 1) % 604800) (60 ∷ 60 ∷ 24 ∷ []) refl,
        floor-neg ((n + 1) % 86400) (60 ∷ 60 ∷ []) refl,
        floor-neg ((n + 1) % 3600) (60 ∷ []) refl,
        amount-neg ((n + 1) % 60),
      )
      refl
