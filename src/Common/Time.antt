-- ===== src/Common/Time.antt =====
-- relayer/common.go: `prettyFormatTime`, with the double-precision numbers that it divides: a double is
-- a fraction of natural numbers with a sign, and a division is rounded as IEEE 754 has it.
pub mod Rounding
pub mod Divided
pub mod Format
use Prim.Native.Nat.{◌^◌}
use bas_relay_hub.Prelude.{
  ℕ, zero, suc, ◌+◌, ◌-◌, ◌*◌, ◌/◌, ◌%◌, ◌≡◌, refl, Bool, true, false, List, [], ◌∷◌, ◌++◌, Bytes,
  ltb, leb, ◌==◌, if◌then◌else◌,
}
use bas_relay_hub.Prelude.Words.{ℤ, pos, negsuc, neg}

-- the absolute value of a double, `num / den`, and its sign
pub record Float : Type 0 where
  pub negative : Bool
  pub num : ℕ
  pub den : ℕ

-- the natural number next to a / b, the even one of two
unfoldable pub nearest : ℕ → ℕ → ℕ
nearest a b =
    let q = a / b in
    let twice = 2 * (a % b) in if ltb twice b then q else if ltb b twice then q + 1 else q + q % 2

-- the power of 2, at most 2 ^ n, that brings a / b up to 53 bits
unfoldable pub scale_up : ℕ → ℕ → ℕ → ℕ
scale_up zero a b = 1
scale_up (suc n) a b = let more = scale_up n (2 * a) b in if leb (2 ^ 52 * b) a then 1 else 2 * more

-- the power of 2, at most 2 ^ n, that brings a / b down to 53 bits
unfoldable pub scale_down : ℕ → ℕ → ℕ → ℕ
scale_down zero a b = 1
scale_down (suc n) a b =
    let more = scale_down n a (2 * b) in if ltb a (2 ^ 53 * b) then 1 else 2 * more

-- the double next to a / b; the last place of a double is between 2 ^ -1074 and 2 ^ 971
unfoldable pub round_double : Bool → ℕ → ℕ → Float
round_double negative a b =
    let up = scale_up 1074 a b in
    let down = scale_down 971 a b in
    if ltb a (2 ^ 53 * b)
    then record { negative = negative; num = nearest (a * up) b; den = up }
    else record { negative = negative; num = nearest a (b * down) * down; den = 1 }

-- `float64(z)`
unfoldable pub float64 : ℤ → Float
float64 (pos n) = round_double false n 1
float64 (negsuc n) = round_double true (n + 1) 1

-- `f / a / …` for the divisors of a list
unfoldable pub divide_all : Float → List ℕ → Float
divide_all f [] = f
divide_all f (a ∷ divisors) = divide_all (round_double f.negative f.num (f.den * a)) divisors

-- `math.Floor(f)`, as the code uses it: 0 stands for all that is not above 0
unfoldable pub floor : Float → ℕ
floor f = if f.negative then 0 else f.num / f.den

-- `z % d`
unfoldable pub rem_int : ℤ → ℕ → ℤ
rem_int (pos n) d = pos (n % d)
rem_int (negsuc n) d = neg ((n + 1) % d)

-- `int(z)`, or 0 where it is not above 0
abbrev pub amount : ℤ → ℕ
amount (pos n) = n
amount (negsuc n) = 0

-- the digits of a number of at most `n` digits, in front of what follows them
unfoldable pub digits : ℕ → ℕ → Bytes → Bytes
digits zero k rest = rest
digits (suc n) k rest =
    let more = digits n (k / 10) ((b'0' + k % 10) ∷ rest) in
    if ltb k 10 then (b'0' + k) ∷ rest else more

-- `%d` of an `int`, which has at most 19 digits
unfoldable pub decimal : ℕ → Bytes
decimal k = digits 19 k []

-- `if n > 0 { result += fmt.Sprintf("%d…", int(n)) }`
unfoldable pub part : ℕ → ℕ → Bytes
part n unit = if ltb 0 n then decimal n ++ unit ∷ [] else []

unfoldable pub pretty_format_time : ℤ → Bytes
pretty_format_time input =
    let years = floor (divide_all (float64 input) (60 ∷ 60 ∷ 24 ∷ 7 ∷ 30 ∷ 12 ∷ [])) in
    let in_year = rem_int input (60 * 60 * 24 * 7 * 30 * 12) in
    let months = floor (divide_all (float64 in_year) (60 ∷ 60 ∷ 24 ∷ 7 ∷ 30 ∷ [])) in
    let in_month = rem_int input (60 * 60 * 24 * 7 * 30) in
    let weeks = floor (divide_all (float64 in_month) (60 ∷ 60 ∷ 24 ∷ 7 ∷ [])) in
    let in_week = rem_int input (60 * 60 * 24 * 7) in
    let days = floor (divide_all (float64 in_week) (60 ∷ 60 ∷ 24 ∷ [])) in
    let in_day = rem_int input (60 * 60 * 24) in
    let hours = floor (divide_all (float64 in_day) (60 ∷ 60 ∷ [])) in
    let in_hour = rem_int input (60 * 60) in
    let minutes = floor (divide_all (float64 in_hour) (60 ∷ [])) in
    let seconds = rem_int input 60 in
    part years b'y'
    ++ (part months b'm'
        ++ (part weeks b'w'
            ++ (part days b'd'
                ++ (part hours b'h' ++ (part minutes b'm' ++ part (amount seconds) b's')))))
