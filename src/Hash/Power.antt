-- ===== src/Hash/Power.antt =====
-- The number of buckets that rehash computes.
use pintos_nightmare.Base.{
  ltb, ltb→lt, Bool-cases, bit_and-pred-lt, bit_and-pred-pow, bit_and-pred-ge, bit_and, ℕ, zero,
  suc, ◌+◌, ◌-◌, ◌*◌, ◌/◌, ◌%◌, ◌^◌, ◌≤◌, ◌<◌, ◌≡◌, refl, sym, ap, ◌∙◌, ◌≢◌, inl, inr, true, some,
  arith,
}
use Prim.Native.Nat.{max}
use native.Mathlib.Nat.{pow-suc, one-le-pow}
use pintos_nightmare.Hash.{turn_off_least_1bit, is_power_of_2, power_loop, new_bucket_cnt}

pub pred_wraps : (n : ℕ) → 0 < n → n < 2 ^ 32 → (n + 2 ^ 32 - 1) % 2 ^ 32 ≡ n - 1
pred_wraps n p l = omega (arith, p, l)

turn_off-pred : (n : ℕ) → 0 < n → n < 2 ^ 32 → turn_off_least_1bit n ≡ bit_and n (n - 1)
turn_off-pred n p l = ap (bit_and n) (pred_wraps n p l)

-- The greatest power of 2 that is at most `n`
record IsPowerBelow (n p : ℕ) : Type 0 where
  pub power : (k : ℕ) × (p ≡ 2 ^ k)
  pub below : p ≤ n
  pub greatest : (k : ℕ) → 2 ^ k ≤ n → 2 ^ k ≤ p

power-IsPowerBelow : (n : ℕ) → 0 < n → n < 2 ^ 32 → is_power_of_2 n ≡ true → IsPowerBelow n n
power-IsPowerBelow n p l e = record {
  power = bit_and-pred-pow n p (sym (turn_off-pred n p l) ∙ ground (arith, e));
  below = omega arith;
  greatest = λ k h. h;
}

power_loop-IsPowerBelow :
    (fuel n : ℕ)
    → n ≤ fuel
    → 0 < n
    → n < 2 ^ 32
    → (p : ℕ) × (power_loop fuel n ≡ some p) × IsPowerBelow n p
unfolding power_loop
power_loop-IsPowerBelow zero n f p l = absurd (omega (arith, f, p))
power_loop-IsPowerBelow (suc fuel) n f p l = elim (Bool-cases (is_power_of_2 n)) [
  | inl e ↦ (n, rw e refl, power-IsPowerBelow n p l e)
  | inr e ↦
      let off = turn_off-pred n p l in
      let nonzero : bit_and n (n - 1) ≢ 0 = λ z. ground (arith, e, off, z, p) in
      let less = bit_and-pred-lt n p in
      let (r, found, b) =
        power_loop-IsPowerBelow fuel (turn_off_least_1bit n) (omega (arith, off, less, f))
          (omega (arith, off, nonzero)) (omega (arith, off, less, l)) in
      (
        r,
        rw (e, found) refl,
        record {
          power = b.power;
          below = omega (arith, off, less, b.below);
          greatest = λ k h. b.greatest k (omega (arith, off, bit_and-pred-ge k n p h nonzero));
        },
      )
]

-- `while (!is_power_of_2 (n)) ...` ends for every number of elements of 32 bits, and rehash gets a
-- power of 2 that is at least 4 and at most half the number of elements, or 4 if this is less,
-- and more than half of it.
pub new_bucket_cnt-total :
    (cnt : ℕ)
    → cnt < 2 ^ 32
    → (k : ℕ) × (new_bucket_cnt cnt ≡ some (2 ^ k))
      × (4 ≤ 2 ^ k)
      × (2 ^ k ≤ max 4 (cnt / 2))
      × (cnt / 2 < 2 * 2 ^ k)
unfolding new_bucket_cnt power_loop
new_bucket_cnt-total cnt l = elim (Bool-cases (ltb (cnt / 2) 4)) [
  | inl e ↦ (2, rw e refl, omega arith, omega arith, omega (arith, ltb→lt (cnt / 2) 4 e))
  | inr e ↦
      let big : 4 ≤ cnt / 2 = ground (arith, e) in
      let (p, found, b) =
        power_loop-IsPowerBelow (cnt / 2) (cnt / 2) (omega arith) (omega (arith, big))
          (omega (arith, l)) in
      let (k, eq) = b.power in
      (
        k,
        rw (e, found, eq) refl,
        omega (arith, eq, b.greatest 2 big),
        omega (arith, eq, b.below),
        ground (arith, eq, pow-suc 2 k, one-le-pow k 2, b.greatest (suc k)),
      )
]
