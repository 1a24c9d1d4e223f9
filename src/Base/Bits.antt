-- ===== src/Base/Bits.antt =====
-- Laws of the bitwise operations on the native numbers.
use Prim.Native.Nat.{
  ℕ, zero, suc, ◌+◌, ◌-◌, ◌*◌, ◌/◌, ◌%◌, ◌^◌, ◌≤◌, ◌<◌, min, digits, bit_and, bit_and-bitwise,
}
use mathlib.Core.Path.{◌≡◌, refl, sym, ap, ◌∙◌}
use mathlib.Core.Logic.{◌≢◌, ◌⊎◌, inl, inr}
use native.Mathlib.Omega.{arith}
use native.Mathlib.Nat.{
  pow-suc, one-le-pow, add-mul-mod_self_right, mod-eq_of_lt, mod-lt, div-add-mod',
}

-- bit_and of `a` and `b` on `n` digits
abbrev and_digits : ℕ → ℕ → ℕ → ℕ
and_digits = digits (λ b. zero) min

parity : (n : ℕ) → (n % 2 ≡ 0) ⊎ (n % 2 ≡ 1)
parity n = ground arith

and_self : (n a : ℕ) → a ≤ n → and_digits n a a ≡ a
and_self zero a h = omega (arith, h)
and_self (suc n) zero h = refl
and_self (suc n) (suc a) h = rw (and_self n (suc a / 2) (omega (arith, h))) (omega arith)

-- The lowest digit of `x & (x - 1)`, for `x` odd and for `x` even
and-pred_step :
    (n a b : ℕ)
    → suc b ≡ suc a
    → suc a ≤ suc n
    → ((suc a % 2 ≡ 1) × (and_digits (suc n) (suc a) b ≡ b))
      ⊎ (suc a % 2 ≡ 0)
        × (suc (b / 2) ≡ suc a / 2)
        × (and_digits (suc n) (suc a) b ≡ and_digits n (suc a / 2) (b / 2) * 2)
and-pred_step n a b p h = elim (parity (suc a)) [
  | inl e ↦ inr (e, omega (arith, e, p), omega (arith, e, p))
  | inr e ↦ inl (e, rw (half e, and_self n (suc a / 2) (omega (arith, h))) (omega (arith, e, p)))
]
  where
    half : suc a % 2 ≡ 1 → b / 2 ≡ suc a / 2
    half e = omega (arith, e, p)

and_digits-zero : (n b : ℕ) → and_digits n 0 b ≡ 0
and_digits-zero zero b = refl
and_digits-zero (suc n) b = refl

and_pred-lt : (n a b : ℕ) → suc b ≡ a → a ≤ n → and_digits n a b < a
and_pred-lt n zero b p h = absurd (omega (arith, p))
and_pred-lt zero (suc a) b p h = absurd (omega (arith, h))
and_pred-lt (suc n) (suc a) b p h = elim (and-pred_step n a b p h) [
  | inl (o, e) ↦ omega (arith, e, p)
  | inr (o, q, e) ↦ omega (arith, e, o, and_pred-lt n (suc a / 2) (b / 2) q (omega (arith, h)))
]

-- `x & (x - 1)` is 0 for a power of 2 only
and_pred-pow : (n a b : ℕ) → suc b ≡ a → a ≤ n → and_digits n a b ≡ 0 → (k : ℕ) × (a ≡ 2 ^ k)
and_pred-pow n zero b p h z = absurd (omega (arith, p))
and_pred-pow zero (suc a) b p h z = absurd (omega (arith, h))
and_pred-pow (suc n) (suc a) b p h z = elim (and-pred_step n a b p h) [
  | inl (o, e) ↦ (0, omega (arith, e, z, p))
  | inr (o, q, e) ↦
      let (k, e') = and_pred-pow n (suc a / 2) (b / 2) q (omega (arith, h)) (omega (arith, e, z)) in
      (suc k, omega (arith, e', o, pow-suc 2 k))
]

-- A power of 2 that is at most `x` is at most `x & (x - 1)` if that is not 0.
and_pred-ge :
    (k n a b : ℕ) → suc b ≡ a → a ≤ n → 2 ^ k ≤ a → and_digits n a b ≢ 0 → 2 ^ k ≤ and_digits n a b
and_pred-ge zero n a b p h l z = omega (arith, z)
and_pred-ge (suc k) n zero b p h l z = absurd (z (and_digits-zero n _))
and_pred-ge (suc k) zero (suc a) b p h l z = absurd (omega (arith, h))
and_pred-ge (suc k) (suc n) (suc a) b p h l z = elim (and-pred_step n a b p h) [
  | inl (o, e) ↦ omega (arith, o, e, l, p, pow-suc 2 k)
  | inr (o, q, e) ↦ omega (
    arith,
    e,
    pow-suc 2 k,
    and_pred-ge k n (suc a / 2) (b / 2) q (omega (arith, h)) (omega (arith, l, pow-suc 2 k))
        (λ e'. z (omega (arith, e, e'))),
  )
]

and_zero : (n a : ℕ) → and_digits n a 0 ≡ 0
and_zero zero a = refl
and_zero (suc n) zero = refl
and_zero (suc n) (suc a) = omega (arith, and_zero n (suc a / 2))

mask_half : (k : ℕ) → (2 ^ suc k - 1) / 2 ≡ 2 ^ k - 1
mask_half k = omega (arith, pow-suc 2 k, one-le-pow k 2)

mod_split : (a k : ℕ) → a % 2 ^ suc k ≡ a / 2 % 2 ^ k * 2 + a % 2
mod_split a k =
    ap (λ (t : ℕ). t % 2 ^ suc k) whole
    ∙ add-mul-mod_self_right (r * 2 + a % 2) q (2 ^ suc k)
    ∙ mod-eq_of_lt small
  where
    q : ℕ
    q = a / 2 / 2 ^ k

    r : ℕ
    r = a / 2 % 2 ^ k

    half : q * 2 ^ k + r ≡ a / 2
    half = div-add-mod' (a / 2) (2 ^ k)

    whole : a ≡ r * 2 + a % 2 + q * 2 ^ suc k
    whole = omega (arith, half, ap (λ (t : ℕ). q * t) (pow-suc 2 k))

    small : r * 2 + a % 2 < 2 ^ suc k
    small = omega (arith, pow-suc 2 k, mod-lt (a / 2) {m = 2 ^ k} (one-le-pow k 2 (omega arith)))

and_mask : (k n a : ℕ) → a ≤ n → and_digits n a (2 ^ k - 1) ≡ a % 2 ^ k
and_mask k n zero h = rw (and_digits-zero n) (omega (arith, one-le-pow k 2))
and_mask k zero (suc a) h = absurd (omega (arith, h))
and_mask zero (suc n) (suc a) h = omega (arith, and_zero n (suc a / 2))
and_mask (suc k) (suc n) (suc a) h =
    rw (mask_half k, and_mask k n (suc a / 2) (omega (arith, h)), mod_split (suc a) k)
      (omega (arith, pow-suc 2 k, one-le-pow k 2))

pub bit_and-pred-lt : (a : ℕ) → 0 < a → bit_and a (a - 1) < a
bit_and-pred-lt a p =
    simp bit_and-bitwise (and_pred-lt a a (a - 1) (omega (arith, p)) (omega arith))

pub bit_and-pred-pow : (a : ℕ) → 0 < a → bit_and a (a - 1) ≡ 0 → (k : ℕ) × (a ≡ 2 ^ k)
bit_and-pred-pow a p z =
    and_pred-pow a a (a - 1) (omega (arith, p)) (omega arith) (sym (bit_and-bitwise a (a - 1)) ∙ z)

pub bit_and-pred-ge :
    (k a : ℕ) → 0 < a → 2 ^ k ≤ a → bit_and a (a - 1) ≢ 0 → 2 ^ k ≤ bit_and a (a - 1)
bit_and-pred-ge k a p h z = simp bit_and-bitwise (
    and_pred-ge k a a (a - 1) (omega (arith, p)) (omega arith) h
      (λ e. z (bit_and-bitwise a (a - 1) ∙ e)))

-- A mask of `k` low bits is the remainder by `2 ^ k`.
pub bit_and-mask : (k a : ℕ) → bit_and a (2 ^ k - 1) ≡ a % 2 ^ k
bit_and-mask k a = simp bit_and-bitwise (and_mask k a a (omega arith))
