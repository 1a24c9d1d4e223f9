-- ===== src/Arithmetic/Quotient.antt =====
-- The quotients and remainders of lib/arithmetic.c.
use pintos_nightmare.Base.{
  ltb, leb, ◌==◌, if◌then◌else◌, ==_iff, Bool-cases, ◌>>=◌, ℕ, zero, suc, ◌+◌, ◌-◌, ◌*◌, ◌/◌, ◌%◌,
  ◌^◌, ◌≤◌, ◌<◌, ◌≡◌, refl, sym, ap, ◌∙◌, ◌⊎◌, inl, inr, Bool, false, none, some, arith, xor,
}
use pintos_nightmare.Arithmetic.{
  divl, nlz, divide_short, correct, divide_long, udiv64, umod64, sdiv64, magnitude, is_negative,
}
use pintos_nightmare.Arithmetic.Leading.{nlz-top, pow-sum}
use native.Mathlib.Nat.{
  mul_assoc, mul_comm, mul-add, mod-lt, mod-eq_of_lt, div-add-mod', zero-div, mod_def, mul-div-le,
  div-eq_of_lt, mul-lt-mul_of_pos_right, mul-le-mul_right, mul-le-mul_left, lt_of_mul-lt-mul_right,
  le_of_mul-le-mul_right, le-div_iff_mul-le, div-lt_iff_lt-mul, div-mul-le_self, lt-div-mul-add,
  div-div-eq-div-mul, add-mul-div_right, div-le_self,
}

divl-quotient : (n d : ℕ) → 0 < d → n < d * 2 ^ 32 → divl n d ≡ some (n / d)
unfolding divl
divl-quotient n d p h = ground (arith, fits)
  where
    fits : n / d < 2 ^ 32
    fits = (div-lt_iff_lt-mul {k = d} p).1 (omega (arith, h))

-- The quotient of 2 ^ 32 * a + b by d, in two steps
quotient_split :
    (a b d : ℕ) → 0 < d → (a % d * 2 ^ 32 + b) / d + a / d * 2 ^ 32 ≡ (a * 2 ^ 32 + b) / d
quotient_split a b d p =
    sym (add-mul-div_right (a % d * 2 ^ 32 + b) (a / d * 2 ^ 32) p)
    ∙ ap (λ (t : ℕ). t / d)
        (omega (arith, div-add-mod' a d, ap (λ (t : ℕ). t * 2 ^ 32) (div-add-mod' a d)))

divide_short-quotient :
    (n d : ℕ) → 0 < d → d < 2 ^ 32 → n < 2 ^ 64 → divide_short n d ≡ some (n / d)
unfolding divide_short
divide_short-quotient n d p l h =
    rw
      (
        high,
        whole,
        product,
        sum,
        divl-quotient (n / 2 ^ 32 % d * 2 ^ 32 + n % 2 ^ 32) d p
            (omega (arith, rest, mul-le-mul_right (2 ^ 32) rest)),
      )
      (ap some total)
  where
    rest : suc (n / 2 ^ 32 % d) ≤ d
    rest = mod-lt (n / 2 ^ 32) p

    high : n / 2 ^ 32 % 2 ^ 32 ≡ n / 2 ^ 32
    high = omega (arith, h)

    whole : d % 2 ^ 32 ≡ d
    whole = omega (arith, l)

    product : 2 ^ 32 * (n / 2 ^ 32 % d) % 2 ^ 64 ≡ n / 2 ^ 32 % d * 2 ^ 32
    product = omega (arith, rest, l)

    sum : (n / 2 ^ 32 % d * 2 ^ 32 + n % 2 ^ 32) % 2 ^ 64 ≡ n / 2 ^ 32 % d * 2 ^ 32 + n % 2 ^ 32
    sum = omega (arith, rest, l)

    split : (n / 2 ^ 32 % d * 2 ^ 32 + n % 2 ^ 32) / d + n / 2 ^ 32 / d * 2 ^ 32 ≡ n / d
    split =
        quotient_split (n / 2 ^ 32) (n % 2 ^ 32) d p
        ∙ ap (λ (t : ℕ). t / d) (div-add-mod' n (2 ^ 32))

    total :
        ((n / 2 ^ 32 % d * 2 ^ 32 + n % 2 ^ 32) / d + 2 ^ 32 * (n / 2 ^ 32 / d) % 2 ^ 64) % 2 ^ 64
        ≡ n / d
    total = omega (arith, split, h, div-le_self n d, div-le_self (n / 2 ^ 32) d)

correct-suc :
    (n d q : ℕ)
    → q * d ≤ n
    → n < 2 ^ 64
    → suc q < 2 ^ 64
    → correct n d (suc q) ≡ (if ltb (n - q * d) d then q else suc q)
unfolding correct
correct-suc n d q l h s = rw (less, product, difference) refl
  where
    less : (suc q + 2 ^ 64 - 1) % 2 ^ 64 ≡ q
    less = omega (arith, s)

    product : q * d % 2 ^ 64 ≡ q * d
    product = mod-eq_of_lt (omega (arith, l, h))

    difference : (n + 2 ^ 64 - q * d) % 2 ^ 64 ≡ n - q * d
    difference = omega (arith, l, h)

-- The correction of a quotient that is exact or one too large
correct-quotient :
    (n d q : ℕ)
    → 0 < d
    → d ≤ n
    → n < 2 ^ 63 * 2
    → suc q < 2 ^ 64
    → (suc q ≡ n / d) ⊎ (q ≡ n / d)
    → correct n d (suc q) ≡ n / d
correct-quotient n d q p o h s e =
    correct-suc n d q (omega (arith, least, scaled, below)) h s
    ∙ ground (arith, e, scaled, below, least, most)
  where
    scaled : (suc q * d ≡ n / d * d) ⊎ (q * d ≡ n / d * d)
    scaled = elim e [
      | inl t ↦ inl (ap (λ (x : ℕ). x * d) t)
      | inr t ↦ inr (ap (λ (x : ℕ). x * d) t)
    ]

    below : suc q * d ≡ q * d + d
    below = grind arith

    least : n / d * d ≤ n
    least = div-mul-le_self n d

    most : n < n / d * d + d
    most = lt-div-mul-add {a = n} {b = d} p

-- A divisor D that is at most d, and less than d by so little, gives the quotient by d or one more.
near_quotient :
    (n d D g : ℕ)
    → 0 < D
    → D ≤ d
    → d ≤ D + g
    → (n / d + 1) * g ≤ D
    → (n / D ≡ n / d) ⊎ (n / D ≡ n / d + 1)
near_quotient n d D g p l u s = elim (Bool-cases (leb (n / D) (n / d))) [
  | inl t ↦ inl (ground (arith, t, lower))
  | inr t ↦ inr (ground (arith, t, upper))
]
  where
    lower : n / d ≤ n / D
    lower =
        (le-div_iff_mul-le {k = D} p).1
          (omega (arith, div-mul-le_self n d, mul-le-mul_left (n / d) l))

    upper : n / D < n / d + 2
    upper =
        (div-lt_iff_lt-mul {k = D} p).1 (
          omega (arith, s, lt-div-mul-add {a = n} {b = d} (omega arith), mul-le-mul_left (n / d) u))

-- `d` shifted up by a factor `S` that brings its upper word `d1` to the highest of 32 bits
module _ (n d S T : ℕ) (h : n < 2 ^ 64) (long : 2 ^ 32 ≤ d) (lo : 2 ^ 31 ≤ d / 2 ^ 32 * S)
    (hi : d / 2 ^ 32 * S < 2 ^ 32) (st : S * T ≡ 2 ^ 31) where
  S-pos : 0 < S
  S-pos = grind (arith, st)

  T-pos : 0 < T
  T-pos = grind (arith, st)

  word_scaled : (x : ℕ) → x * (2 * T) * S ≡ x * 2 ^ 32
  word_scaled x =
      mul_assoc x (2 * T) S
      ∙ ap (λ (t : ℕ). x * t) (omega (arith, mul_assoc 2 T S, mul_comm S T, st))

  across : (x : ℕ) → x * 2 ^ 32 * S ≡ x * S * 2 ^ 32
  across x = grind arith

  upper_word : suc (d / 2 ^ 32) ≤ 2 * T
  upper_word = lt_of_mul-lt-mul_right S (omega (arith, hi, word_scaled 1))

  no_overflow : d * S < 2 ^ 64
  no_overflow = omega (
    arith,
    mul-lt-mul_of_pos_right {m = d} {n = suc (d / 2 ^ 32) * 2 ^ 32} {k = S} (omega arith) S-pos,
    mul-le-mul_right S upper_word,
    across (suc (d / 2 ^ 32)),
    word_scaled 1,
  )

  top_bit : 2 ^ 63 ≤ d * S
  top_bit = omega (arith, lo, mul-le-mul_right S (div-mul-le_self d (2 ^ 32)), across (d / 2 ^ 32))

  v1-least : 2 ^ 31 ≤ d * S / 2 ^ 32
  v1-least = omega (arith, top_bit)

  below_divisor : d * S / 2 ^ 32 * (2 * T) ≤ d
  below_divisor = le_of_mul-le-mul_right {k = S} (omega (arith, word_scaled (d * S / 2 ^ 32))) S-pos

  near_divisor : d < suc (d * S / 2 ^ 32) * (2 * T)
  near_divisor = lt_of_mul-lt-mul_right S (omega (arith, word_scaled (suc (d * S / 2 ^ 32))))

  few_times : n / d < 2 * S
  few_times = omega (
    arith,
    mul-le-mul_right S (div-mul-le_self n d),
    mul_assoc (n / d) d S,
    mul-le-mul_left (n / d) top_bit,
    mul-lt-mul_of_pos_right {k = S} h S-pos,
  )

  small_error : (n / d + 1) * (2 * T - 1) ≤ d * S / 2 ^ 32 * (2 * T)
  small_error = omega (
    arith,
    mul-le-mul_right (2 * T - 1) (few_times_suc),
    mul-le-mul_right (2 * T) v1-least,
    gap,
    expand,
  )
    where
      few_times_suc : n / d + 1 ≤ 2 * S
      few_times_suc = omega (arith, few_times)

      whole : 2 * T - 1 + 1 ≡ 2 * T
      whole = omega (arith, T-pos)

      fourfold : 2 * S * (2 * T) ≡ 4 * (S * T)
      fourfold = grind arith

      expand : 2 * S * (2 * T - 1) + 2 * S ≡ 2 ^ 33
      expand =
          omega
            (arith, mul-add (2 * S) (2 * T - 1) 1, ap (λ (x : ℕ). 2 * S * x) whole, fourfold, st)

      gap : (T ≡ 1) × (S ≡ 2 ^ 31) ⊎ (2 ≤ T)
      gap = elim (Bool-cases (leb T 1)) [
        | inl t ↦
            let one : T ≡ 1 = ground (arith, t, T-pos) in
            inl (one, omega (arith, st, ap (λ (x : ℕ). S * x) one))
        | inr t ↦ inr (ground (arith, t))
      ]

  trial : (n / (d * S / 2 ^ 32 * (2 * T)) ≡ n / d) ⊎ (n / (d * S / 2 ^ 32 * (2 * T)) ≡ n / d + 1)
  trial =
      near_quotient n d (d * S / 2 ^ 32 * (2 * T)) (2 * T - 1)
        (omega (arith, T-pos, mul-le-mul_right (2 * T) v1-least)) below_divisor
        (omega (arith, near_divisor, T-pos, step)) small_error
    where
      step : suc (d * S / 2 ^ 32) * (2 * T) ≡ d * S / 2 ^ 32 * (2 * T) + 2 * T
      step = grind arith

  trial_quotient : n / 2 / (d * S / 2 ^ 32) / T ≡ n / (d * S / 2 ^ 32 * (2 * T))
  trial_quotient =
      ap (λ (t : ℕ). t / T) (div-div-eq-div-mul n 2 (d * S / 2 ^ 32))
      ∙ div-div-eq-div-mul n (2 * (d * S / 2 ^ 32)) T
      ∙ ap (λ (t : ℕ). n / t) (grind arith)

  corrected : d ≤ n → correct n d (n / 2 / (d * S / 2 ^ 32) / T) ≡ n / d
  corrected o =
      ap (correct n d) (trial_quotient ∙ whole)
      ∙ correct-quotient n d _ (omega (arith, long)) o h (omega (arith, trial, whole, most))
          (omega (arith, trial, whole))
    where
      most : n / d < 2 ^ 32
      most = (div-lt_iff_lt-mul {k = d} (omega (arith, long))).1 (omega (arith, h, long))

      nonzero : 0 < n / d
      nonzero = (le-div_iff_mul-le {k = d} (omega (arith, long))).1 (omega (arith, o))

      whole : n / (d * S / 2 ^ 32 * (2 * T)) ≡ suc (n / (d * S / 2 ^ 32 * (2 * T)) - 1)
      whole = omega (arith, trial, nonzero)

  long_result :
      d ≤ n
      → (divl (n / 2) (d * S % 2 ^ 64 / 2 ^ 32 % 2 ^ 32) >>= λ t. some (correct n d (t / T)))
        ≡ some (n / d)
  long_result o =
      rw
        (
          shifted,
          word,
          divl-quotient (n / 2) (d * S / 2 ^ 32) (omega (arith, v1-least))
              (omega (arith, h, v1-least)),
          corrected o,
        )
        refl
    where
      shifted : d * S % 2 ^ 64 ≡ d * S
      shifted = mod-eq_of_lt no_overflow

      word : d * S / 2 ^ 32 % 2 ^ 32 ≡ d * S / 2 ^ 32
      word = omega (arith, no_overflow)

divide_long-quotient : (n d : ℕ) → n < 2 ^ 64 → 2 ^ 32 ≤ d → d ≤ n → divide_long n d ≡ some (n / d)
unfolding divide_long
divide_long-quotient n d h long o = rw d1-word (
    long_result n d (2 ^ nlz (d / 2 ^ 32)) (2 ^ (31 - nlz (d / 2 ^ 32))) h long norm.1 norm.2 room
      o)
  where
    d1-word : d / 2 ^ 32 % 2 ^ 32 ≡ d / 2 ^ 32
    d1-word = omega (arith, h, o)

    norm :
        (nlz (d / 2 ^ 32) ≤ 31)
        × (2 ^ 31 ≤ d / 2 ^ 32 * 2 ^ nlz (d / 2 ^ 32))
        × (d / 2 ^ 32 * 2 ^ nlz (d / 2 ^ 32) < 2 ^ 32)
    norm = nlz-top (d / 2 ^ 32) (omega (arith, long)) (omega (arith, h, o))

    sum : {a : ℕ} → a ≤ 31 → a + (31 - a) ≡ 31
    sum h' = omega (arith, h')

    room : 2 ^ nlz (d / 2 ^ 32) * 2 ^ (31 - nlz (d / 2 ^ 32)) ≡ 2 ^ 31
    room =
        sym (pow-sum (nlz (d / 2 ^ 32)) (31 - nlz (d / 2 ^ 32)))
        ∙ ap (λ (t : ℕ). 2 ^ t) (sum norm.0)

udiv64-zero : (n : ℕ) → udiv64 n 0 ≡ none
unfolding udiv64 divide_short divl
udiv64-zero n = refl

-- Of two numbers of 64 bits udiv64 yields the quotient, unless the divisor is 0: then it traps.
pub udiv64-quotient :
    (n d : ℕ) → n < 2 ^ 64 → d < 2 ^ 64 → udiv64 n d ≡ (if d == 0 then none else some (n / d))
unfolding udiv64
udiv64-quotient n d h l = elim (Bool-cases (d == 0)) [
  | inl z ↦ rw ((==_iff d 0).0 z) (udiv64-zero n)
  | inr p ↦ rw p (
      ground (
        arith,
        p,
        divide_short-quotient n d,
        divide_long-quotient n d,
        div-eq_of_lt {n = n} {m = d},
      ))
]

-- The remainder that umod64 yields is cut to 32 bits.
pub umod64-remainder :
    (n d : ℕ) → n < 2 ^ 64 → 0 < d → d < 2 ^ 64 → umod64 n d ≡ some (n % d % 2 ^ 32)
unfolding umod64
umod64-remainder n d h p l =
    rw (udiv64-quotient n d h l, nonzero)
      (ap some (rw (product, difference) (ap (λ (t : ℕ). t % 2 ^ 32) (sym (mod_def n d)))))
  where
    nonzero : (d == 0) ≡ false
    nonzero = ground (arith, p)

    product : d * (n / d) % 2 ^ 64 ≡ d * (n / d)
    product = mod-eq_of_lt (omega (arith, mul-div-le n d, h))

    difference : (n + 2 ^ 64 - d * (n / d)) % 2 ^ 64 ≡ n - d * (n / d)
    difference = omega (arith, mul-div-le n d, h)

-- The int64_t with a sign and a magnitude
abbrev pub signed : Bool → ℕ → ℕ
signed s a = if s then (2 ^ 64 - a) % 2 ^ 64 else a

magnitude-signed : (s : Bool) (a : ℕ) → a < 2 ^ 63 → magnitude (signed s a) ≡ a
unfolding magnitude is_negative
magnitude-signed s a h = ground (arith, h)

is_negative-signed : (s : Bool) (a : ℕ) → 0 < a → a < 2 ^ 63 → is_negative (signed s a) ≡ s
unfolding is_negative
is_negative-signed s a p h = ground (arith, p, h)

is_negative-zero : (s : Bool) → is_negative (signed s 0) ≡ false
unfolding is_negative
is_negative-zero s = ground arith

-- Signed division rounds to 0
pub sdiv64-truncates :
    (s t : Bool) (a b : ℕ)
    → a < 2 ^ 63
    → 0 < b
    → b < 2 ^ 63
    → sdiv64 (signed s a) (signed t b) ≡ some (signed (xor s t) (a / b))
unfolding sdiv64 xor
sdiv64-truncates s t zero b h p l =
    rw
      (
        magnitude-signed s 0 h,
        magnitude-signed t b l,
        udiv64-quotient 0 b (omega arith) (omega (arith, l)),
        zero-div b,
        is_negative-zero s,
      )
      (ground (arith, p))
sdiv64-truncates s t (suc a) b h p l =
    rw
      (
        magnitude-signed s (suc a) h,
        magnitude-signed t b l,
        udiv64-quotient (suc a) b (omega (arith, h)) (omega (arith, l)),
        is_negative-signed s (suc a) (omega arith) h,
        is_negative-signed t b p l,
      )
      (ground (arith, p, div-le_self (suc a) b))
