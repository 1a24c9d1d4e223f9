-- ===== src/Arithmetic/Leading.antt =====
-- The count of leading zero bits of lib/arithmetic.c.
use pintos_nightmare.Base.{
  leb, Bool-cases, ℕ, zero, suc, ◌+◌, ◌*◌, ◌%◌, ◌^◌, ◌≤◌, ◌<◌, ◌≡◌, refl, sym, ap, ◌∙◌, inl, inr,
  true, arith,
}
use pintos_nightmare.Arithmetic.{shift_up, count_last, nlz}
use native.Mathlib.Nat.{
  pow-suc, one-le-pow, mul_assoc, mod-eq_of_lt, mul-lt-mul_of_pos_right, mul-le-mul_right,
}

pub pow-sum : (a b : ℕ) → 2 ^ (a + b) ≡ 2 ^ a * 2 ^ b
pow-sum a zero = grind arith
pow-sum a (suc b) =
    ap (λ (t : ℕ). 2 ^ t) shape ∙ pow-suc 2 (a + b) ∙ omega (arith, pow-sum a b, scaled)
  where
    shape : a + suc b ≡ suc (a + b)
    shape = omega arith

    scaled : 2 ^ a * 2 ^ suc b ≡ 2 ^ a * 2 ^ b * 2
    scaled = ap (λ (t : ℕ). 2 ^ a * t) (pow-suc 2 b) ∙ sym (mul_assoc (2 ^ a) (2 ^ b) 2)

-- `x` was shifted up by `n` from `x0`, and has come to at least `lo`
record IsShifted (x0 lo most : ℕ) (s : ℕ × ℕ) : Type 0 where
  pub shifted : s.0 ≡ x0 * 2 ^ s.1
  pub small : s.0 < 2 ^ 32
  pub least : lo ≤ s.0
  pub few : s.1 ≤ most

shift_up-IsShifted :
    (k limit lo most : ℕ) {x0 : ℕ} (s : ℕ × ℕ)
    → lo * 2 ^ k ≡ suc limit
    → suc limit * 2 ^ k ≡ 2 ^ 32
    → IsShifted x0 lo most s
    → IsShifted x0 (suc limit) (most + k) (shift_up limit k s)
unfolding shift_up
shift_up-IsShifted k limit lo most {x0} (x, n) e f v = elim (Bool-cases (leb x limit)) [
  | inl t ↦
      rw (t, exact t)
        (record {
          shifted =
              ap (λ (y : ℕ). y * 2 ^ k) v.shifted
              ∙ mul_assoc x0 (2 ^ n) (2 ^ k)
              ∙ sym (ap (λ (y : ℕ). x0 * y) (pow-sum n k));
          small = below t;
          least = omega (arith, e, mul-le-mul_right (2 ^ k) v.least);
          few = omega (arith, v.few);
        })
  | inr t ↦ rw t (record {
    shifted = v.shifted;
    small = v.small;
    least = ground (arith, t);
    few = omega (arith, v.few);
  })
]
  where
    fits : leb x limit ≡ true → x < suc limit
    fits t = ground (arith, t)

    below : leb x limit ≡ true → x * 2 ^ k < 2 ^ 32
    below t =
        omega
          (arith, f, mul-lt-mul_of_pos_right {k = 2 ^ k} (fits t) (one-le-pow k 2 (omega arith)))

    exact : leb x limit ≡ true → x * 2 ^ k % 2 ^ 32 ≡ x * 2 ^ k
    exact t = mod-eq_of_lt (below t)

count_last-top :
    {x0 : ℕ} (s : ℕ × ℕ)
    → IsShifted x0 (2 ^ 30) 30 s
    → (count_last s ≤ 31) × (2 ^ 31 ≤ x0 * 2 ^ count_last s) × (x0 * 2 ^ count_last s < 2 ^ 32)
unfolding count_last
count_last-top {x0} (x, n) v = elim (Bool-cases (leb x 0x7fff_ffff)) [
  | inl t ↦
      rw t (
        omega (arith, v.few),
        ground (arith, t, next, v.shifted),
        ground (arith, t, next, v.shifted),
      )
  | inr t ↦
      rw t (omega (arith, v.few), ground (arith, t, v.shifted), omega (arith, v.small, v.shifted))
]
  where
    next : x0 * 2 ^ (n + 1) ≡ 2 * (x0 * 2 ^ n)
    next = ap (λ (y : ℕ). x0 * y) (pow-sum n 1) ∙ omega arith

-- The count shifts a number that is not 0 up to the highest of its 32 bits.
pub nlz-top :
    (x : ℕ)
    → 0 < x
    → x < 2 ^ 32
    → (nlz x ≤ 31) × (2 ^ 31 ≤ x * 2 ^ nlz x) × (x * 2 ^ nlz x < 2 ^ 32)
unfolding nlz
nlz-top x p l = count_last-top _ (
    shift_up-IsShifted 2 0x3fff_ffff (2 ^ 28) 28 _ refl refl (
      shift_up-IsShifted 4 0x0fff_ffff (2 ^ 24) 24 _ refl refl (
        shift_up-IsShifted 8 0x00ff_ffff (2 ^ 16) 16 _ refl refl
          (shift_up-IsShifted 16 0x0000_ffff 1 0 (x, 0) refl refl start))))
  where
    start : IsShifted x 1 0 (x, 0)
    start = record { shifted = omega arith; small = l; least = p; few = omega arith }
