-- ===== src/Arithmetic.antt =====
-- lib/arithmetic.c: division of 64-bit numbers by way of the x86 instruction divl.
-- A number of w bits is a natural number below 2 ^ w; an int64_t is its bit pattern.
use pintos_nightmare.Base.{
  ltb, leb, ◌==◌, eq_bool, if◌then◌else◌, ◌>>=◌, ◌>>◌, ℕ, ◌+◌, ◌-◌, ◌*◌, ◌/◌, ◌%◌, ◌^◌, Bool, ◌||◌,
  Option, none, some,
}
pub mod Leading
pub mod Quotient

-- `divl`: the quotient, or a trap (#DE) where this does not fit in 32 bits
unfoldable pub divl : ℕ → ℕ → Option ℕ
divl n d = if (d == 0) || leb (2 ^ 32) (n / d) then none else some (n / d)

-- `if (x <= limit) { n += k; x <<= k; }`
unfoldable pub shift_up : ℕ → ℕ → ℕ × ℕ → ℕ × ℕ
shift_up limit k (x, n) = if leb x limit then (x * 2 ^ k % 2 ^ 32, n + k) else (x, n)

-- `if (x <= 0x7FFFFFFF) n++;`
unfoldable pub count_last : ℕ × ℕ → ℕ
count_last (x, n) = if leb x 0x7fff_ffff then n + 1 else n

unfoldable pub nlz : ℕ → ℕ
nlz x = count_last (
    shift_up 0x3fff_ffff 2
      (shift_up 0x0fff_ffff 4 (shift_up 0x00ff_ffff 8 (shift_up 0x0000_ffff 16 (x, 0)))))

-- unsigned 64-bit arithmetic
abbrev pub sub64 : ℕ → ℕ → ℕ
sub64 a b = (a + 2 ^ 64 - b) % 2 ^ 64

abbrev pub mul64 : ℕ → ℕ → ℕ
mul64 a b = a * b % 2 ^ 64

-- the branch for a divisor of 32 bits
unfoldable pub divide_short : ℕ → ℕ → Option ℕ
divide_short n d =
    let b = 2 ^ 32 in
    let n1 = n / 2 ^ 32 % 2 ^ 32 in
    let n0 = n % 2 ^ 32 in
    let d0 = d % 2 ^ 32 in
    do q ← divl ((mul64 b (n1 % d0) + n0) % 2 ^ 64) d0; some ((q + mul64 b (n1 / d0)) % 2 ^ 64)

-- `n - (q - 1) * d < d ? q - 1 : q`
unfoldable pub correct : ℕ → ℕ → ℕ → ℕ
correct n d q = if ltb (sub64 n (mul64 (sub64 q 1) d)) d then sub64 q 1 else q

-- the branch for a longer divisor that is not above `n`
unfoldable pub divide_long : ℕ → ℕ → Option ℕ
divide_long n d =
    let s = nlz (d / 2 ^ 32 % 2 ^ 32) in
    do
      t ← divl (n / 2) (d * 2 ^ s % 2 ^ 64 / 2 ^ 32 % 2 ^ 32)
      some (correct n d (t / 2 ^ (31 - s)))

unfoldable pub udiv64 : ℕ → ℕ → Option ℕ
udiv64 n d =
    if (d / 2 ^ 32) == 0 then divide_short n d else if ltb n d then some 0 else divide_long n d

-- The result is a uint32_t.
unfoldable pub umod64 : ℕ → ℕ → Option ℕ
umod64 n d = do q ← udiv64 n d; some (sub64 n (mul64 d q) % 2 ^ 32)

unfoldable pub is_negative : ℕ → Bool
is_negative n = leb (2 ^ 63) n

unfoldable pub magnitude : ℕ → ℕ
magnitude n = if is_negative n then sub64 0 n else n

unfoldable pub sdiv64 : ℕ → ℕ → Option ℕ
sdiv64 n d = do
  q_abs ← udiv64 (magnitude n) (magnitude d)
  some (if eq_bool (is_negative n) (is_negative d) then q_abs else sub64 0 q_abs)

-- The result is an int32_t.
unfoldable pub smod64 : ℕ → ℕ → Option ℕ
smod64 n d = do q ← sdiv64 n d; some (sub64 n (mul64 d q) % 2 ^ 32)
