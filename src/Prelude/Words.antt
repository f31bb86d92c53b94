-- ===== src/Prelude/Words.antt =====
-- Go's `uint64` and `int64`: a word is a native number below 2 ^ 64, and an `int64` is an integer.
use Prim.Native.Nat.{ℕ, zero, suc, ◌+◌, ◌-◌, ◌*◌, ◌/◌, ◌%◌, ◌^◌, ◌≤◌, ◌<◌}
use mathlib.Core.Path.{◌≡◌, refl}
use bas_relay_hub.Prelude.Tests.{ltb, lt→ltb, not-ltb, if◌then◌else◌}

-- `negsuc n` is -(n + 1).
pub data ℤ : Type 0 where
  pos : ℕ → ℤ
  negsuc : ℕ → ℤ

abbrev pub word : ℕ
word = 2 ^ 64

-- a + b, a - b and a * b on `uint64`
abbrev pub add64 : ℕ → ℕ → ℕ
add64 a b = (a + b) % word

abbrev pub sub64 : ℕ → ℕ → ℕ
sub64 a b = (a + word - b) % word

abbrev pub mul64 : ℕ → ℕ → ℕ
mul64 a b = (a * b) % word

-- `int64(n)` of a `uint64`: the same bits
abbrev pub int64 : ℕ → ℤ
int64 n = if ltb n (2 ^ 63) then pos n else negsuc (word - n - 1)

-- `uint64(z)` of an `int64`: the same bits
abbrev pub uint64 : ℤ → ℕ
uint64 (pos n) = n % word
uint64 (negsuc n) = word - 1 - n % word

-- `a / b` of `int`, which rounds towards zero; only the smallest number by -1 wraps
abbrev pub neg : ℕ → ℤ
neg zero = pos 0
neg (suc n) = negsuc n

unfoldable pub div_int : ℤ → ℤ → ℤ
div_int (pos a) (pos b) = pos (a / b)
div_int (pos a) (negsuc b) = neg (a / (b + 1))
div_int (negsuc a) (pos b) = neg ((a + 1) / b)
div_int (negsuc a) (negsuc b) = int64 ((a + 1) / (b + 1))

-- the rounds of `for i := 0; i < z; i++`
abbrev pub rounds_to : ℤ → ℕ
rounds_to (pos n) = n
rounds_to (negsuc n) = 0

pub int64-pos : (n : ℕ) → n < 2 ^ 63 → int64 n ≡ pos n
int64-pos n h = rw (lt→ltb n (2 ^ 63) h)

pub int64-negsuc : (n : ℕ) → 2 ^ 63 ≤ n → int64 n ≡ negsuc (word - n - 1)
int64-negsuc n h = rw (not-ltb n (2 ^ 63) h)

pub rounds_to-neg : (n : ℕ) → rounds_to (neg n) ≡ 0
rounds_to-neg zero = refl
rounds_to-neg (suc n) = refl

-- a division of `int64` values that are not negative, and of a negative one by one that is not
pub div_int-pos : (a b : ℕ) → a < 2 ^ 63 → b < 2 ^ 63 → div_int (int64 a) (int64 b) ≡ pos (a / b)
unfolding div_int
div_int-pos a b ha hb = rw (lt→ltb a (2 ^ 63) ha, lt→ltb b (2 ^ 63) hb)

pub div_int-negsuc :
    (a b : ℕ) → 2 ^ 63 ≤ a → b < 2 ^ 63 → div_int (int64 a) (int64 b) ≡ neg ((word - a - 1 + 1) / b)
unfolding div_int
div_int-negsuc a b ha hb = rw (not-ltb a (2 ^ 63) ha, lt→ltb b (2 ^ 63) hb)
