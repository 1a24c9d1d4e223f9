-- ===== src/Printf/Buffer.antt =====
-- The buffer of format_integer.
use pintos_nightmare.Base.{
  ltb, ◌==◌, if◌then◌else◌, Bool-cases, if_false, length, ℕ, zero, suc, ◌+◌, ◌*◌, ◌/◌, ◌%◌, ◌^◌,
  ◌≤◌, ◌<◌, ◌≡◌, refl, inl, inr, Bool, not, ◌&&◌, some, List, [], ◌∷◌, arith,
}
use pintos_nightmare.Printf.{
  PrintfConversion, IntegerBase, comma, digits_loop, zero_loop, rendered, is_zero_first, fill_buf,
}
use native.Mathlib.Nat.{pow-suc, div-lt_iff_lt-mul, mul-le-mul_left}

-- A digit of a base of 8 or more, and its comma, for each three bits of the value
pub digits_loop-length :
    (k fuel : ℕ) (b : IntegerBase) (group : Bool) (value cnt : ℕ) (buf : List ℕ)
    → 8 ≤ b.base
    → value < 8 ^ k
    → k < fuel
    → (r : List ℕ) × (digits_loop fuel b group value cnt buf ≡ some r)
      × (length r ≤ length buf + 2 * k)
unfolding digits_loop
digits_loop-length k zero b group value cnt buf o l f = absurd (omega (arith, f))
digits_loop-length zero (suc fuel) b group value cnt buf o l f =
    (buf, if_false {b = ltb 0 value} _ (some buf) (ground (arith, l)), omega arith)
digits_loop-length (suc k) (suc fuel) b group value cnt buf o l f =
    elim (Bool-cases (ltb 0 value)) [
      | inr e ↦ (buf, rw e refl, omega arith)
      | inl e ↦
          let (r, run, n) =
            digits_loop-length k fuel b group (value / b.base) (cnt + 1)
              (b.digits (value % b.base) ∷ comma b group cnt buf) o smaller (omega (arith, f)) in
          (r, rw e run, omega (arith, n, with_comma))
    ]
  where
    with_comma : length (comma b group cnt buf) ≤ suc (length buf)
    with_comma = ground arith

    smaller : value / b.base < 8 ^ k
    smaller =
        (div-lt_iff_lt-mul {k = b.base} (omega (arith, o))).1
          (omega (arith, l, pow-suc 8 k, mul-le-mul_left (8 ^ k) o))

zero_loop-length :
    (fuel precision : ℕ) (buf : List ℕ)
    → length buf ≤ 63
    → length (zero_loop fuel precision buf) ≤ 63
unfolding zero_loop
zero_loop-length zero precision buf l = l
zero_loop-length (suc fuel) precision buf l =
    ground (arith, l, zero_loop-length fuel precision (48 ∷ buf))

-- Of a number of 64 bits, in a base of 8 or more, with whatever flags, width and precision:
-- format_integer stores no more than the 64 bytes that `buf` has.
pub fill_buf-fits :
    (value : ℕ) (b : IntegerBase) (c : PrintfConversion)
    → value < 2 ^ 64
    → 8 ≤ b.base
    → (buf : List ℕ) × (fill_buf value b c ≡ some buf) × (length buf ≤ 64)
unfolding fill_buf
fill_buf-fits value b c l o =
    let (r, run, n) =
      digits_loop-length 22 65 b c.group value 0 [] o (omega (arith, l)) (omega arith) in
    (
      octal (zero_loop 64 (rendered c.precision) r),
      rw run refl,
      ground (arith, zero_loop-length 64 (rendered c.precision) r (omega (arith, n))),
    )
  where
    octal : List ℕ → List ℕ
    octal buf = if c.pound && (b.base == 8) && not (is_zero_first buf) then 48 ∷ buf else buf
