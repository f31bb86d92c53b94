-- ===== src/Tests/Times.antt =====
-- Times as `prettyFormatTime` prints them, and doubles.
use Prim.Native.Nat.{◌^◌}
use bas_relay_hub.Prelude.{◌+◌, ◌≡◌, refl, false, ◌++◌, [], ◌∷◌, arith}
use bas_relay_hub.Prelude.Words.{pos}
use bas_relay_hub.Common.Time.{
  nearest, scale_up, scale_down, round_double, float64, divide_all, floor, rem_int, digits, decimal,
  part, pretty_format_time,
}
use bas_relay_hub.Common.Time.Format.{format_reads, minutes_or_months}

-- the nearest double to 1/3
third_rounded :
    round_double false 1 3 ≡ record { negative = false; num = 6004799503160661; den = 2 ^ 54 }
unfolding round_double nearest scale_up scale_down
third_rounded = refl

-- halfway between two doubles, the even one
tie_rounded :
    (round_double false (2 ^ 53 + 1) 1 ≡ record { negative = false; num = 2 ^ 53; den = 1 })
    × (round_double false (2 ^ 53 + 3) 1 ≡ record { negative = false; num = 2 ^ 53 + 4; den = 1 })
unfolding round_double nearest scale_up scale_down
tie_rounded = (refl, refl)

-- 100,000,000 seconds
format_reads_example :
    pretty_format_time (pos 100000000)
    ≡ part 0 b'y'
      ++ (part 5 b'm'
          ++ (part 15 b'w' ++ (part 2 b'd' ++ (part 9 b'h' ++ (part 46 b'm' ++ part 40 b's')))))
format_reads_example =
    format_reads 0 5 15 2 9 46 40 (omega arith) (omega arith) (omega arith) (omega arith)
      (omega arith) (omega arith) (omega arith)

five_months :
    pretty_format_time (pos 100000000)
    ≡ b'5' ∷ b'm' ∷ b'1' ∷ b'5' ∷ b'w' ∷ b'2' ∷ b'd' ∷ b'9' ∷ b'h' ∷ b'4' ∷ b'6' ∷ b'm' ∷ b'4'
      ∷ b'0' ∷ b's' ∷ []
unfolding pretty_format_time rem_int floor divide_all float64 round_double nearest scale_up
    scale_down part decimal digits
five_months = refl

minutes_or_months_example :
    (pretty_format_time (pos 180) ≡ decimal 3 ++ b'm' ∷ [])
    × (pretty_format_time (pos 54432000) ≡ decimal 3 ++ b'm' ∷ [])
minutes_or_months_example = minutes_or_months 3 (omega arith) (omega arith)
