-- ===== src/Printf/RoundTrip.antt =====
-- atoi reads what format_integer writes.
use pintos_nightmare.Base.{
  ltb, leb, ◌==◌, if◌then◌else◌, Bool-cases, if_false, length, replicate, ℕ, zero, suc, ◌+◌, ◌-◌,
  ◌*◌, ◌/◌, ◌%◌, ◌^◌, ◌≤◌, ◌<◌, ◌≡◌, refl, sym, ap, ◌∙◌, subst, ◌⊎◌, inl, inr, Bool, true, false,
  not, ◌&&◌, ◌||◌, some, some-injective, List, [], ◌∷◌, ◌++◌, arith,
}
use pintos_nightmare.Printf.{
  PrintfConversion, digit_from, base_d, digits_loop, zero_loop, rendered, is_zero_first, fill_buf,
  sign_char, prefix_chars, format_integer, isspace, isdigit, skip_space, value_loop, negate,
  parse_signed, atoi,
}
use native.Mathlib.Nat.{pow-suc}

-- Only spaces, or a digit first
abbrev IsStart : List ℕ → Type 0
IsStart s =
    ((n : ℕ) × (s ≡ replicate n 32))
    ⊎ ((ch : ℕ) × (t : List ℕ) × (s ≡ ch ∷ t) × (48 ≤ ch) × (ch ≤ 57))

-- A digit at the end takes the value on.
value_loop-digit :
    (v d : ℕ) (t : List ℕ)
    → d < 10
    → v * 10 + d < 2 ^ 32
    → value_loop (negate v) ((48 + d) ∷ t) ≡ value_loop (negate (v * 10 + d)) t
unfolding value_loop isdigit
value_loop-digit v d t l h = rw (is_digit, next) refl
  where
    is_digit : (leb 48 (48 + d) && leb (48 + d) 57) ≡ true
    is_digit = ground (arith, l)

    next : (negate v * 10 + 2 ^ 32 - (48 + d - 48)) % 2 ^ 32 ≡ negate (v * 10 + d)
    next = omega (arith, l, h)

value_loop-digits_loop :
    (fuel v cnt : ℕ) (buf t : List ℕ)
    → v < 2 ^ fuel
    → v < 2 ^ 32
    → IsStart (buf ++ t)
    → (r : List ℕ) × (digits_loop (suc fuel) base_d false v cnt buf ≡ some r)
      × (value_loop 0 (r ++ t) ≡ value_loop (negate v) (buf ++ t))
      × IsStart (r ++ t)
unfolding digits_loop
value_loop-digits_loop zero v cnt buf t l h s =
    let none_left : v ≡ 0 = omega (arith, l) in
    (
      buf,
      if_false {b = ltb 0 v} _ (some buf) (ground (arith, none_left)),
      ap (λ (w : ℕ). value_loop (negate w) (buf ++ t)) (sym none_left),
      s,
    )
value_loop-digits_loop (suc fuel) v cnt buf t l h s = elim (Bool-cases (ltb 0 v)) [
  | inr e ↦
      let none_left : v ≡ 0 = ground (arith, e) in
      (buf, rw e refl, ap (λ (w : ℕ). value_loop (negate w) (buf ++ t)) (sym none_left), s)
  | inl e ↦
      let (r, run, value, start) =
        value_loop-digits_loop fuel (v / 10) (cnt + 1) ((48 + v % 10) ∷ buf) t
          (omega (arith, l, pow-suc 2 fuel)) (omega (arith, h))
          (inr (48 + v % 10, buf ++ t, refl, omega arith, omega arith)) in
      (
        r,
        rw (e, is_digit) run,
        value
            ∙ value_loop-digit (v / 10) (v % 10) (buf ++ t) (omega arith) (omega (arith, h))
            ∙ ap (λ (w : ℕ). value_loop (negate w) (buf ++ t)) whole,
        start,
      )
]
  where
    is_digit : digit_from 97 (v % 10) ≡ 48 + v % 10
    is_digit = ground arith

    whole : v / 10 * 10 + v % 10 ≡ v
    whole = omega arith

zero_loop_value :
    (fuel precision : ℕ) (buf t : List ℕ)
    → IsStart (buf ++ t)
    → (value_loop 0 (zero_loop fuel precision buf ++ t) ≡ value_loop 0 (buf ++ t))
      × IsStart (zero_loop fuel precision buf ++ t)
unfolding zero_loop value_loop isdigit
zero_loop_value zero precision buf t s = (refl, s)
zero_loop_value (suc fuel) precision buf t s =
    elim (Bool-cases (ltb (length buf) precision && ltb (length buf) 63)) [
      | inr e ↦ rw e (refl, s)
      | inl e ↦ rw e (
          zero_loop_value fuel precision (48 ∷ buf) t
            (inr (48, buf ++ t, refl, omega arith, omega arith)))
    ]

spaces_value : (v n : ℕ) → value_loop v (replicate n 32) ≡ v
unfolding value_loop isdigit
spaces_value v zero = refl
spaces_value v (suc n) = refl

zeros_value : (n : ℕ) (t : List ℕ) → value_loop 0 (replicate n 48 ++ t) ≡ value_loop 0 t
unfolding value_loop isdigit
zeros_value zero t = refl
zeros_value (suc n) t = zeros_value n t

zeros-IsStart : (n : ℕ) (t : List ℕ) → IsStart t → IsStart (replicate n 48 ++ t)
zeros-IsStart zero t s = s
zeros-IsStart (suc n) t s = inr (48, replicate n 48 ++ t, refl, omega arith, omega arith)

atoi-spaces : (n : ℕ) (s : List ℕ) → atoi (replicate n 32 ++ s) ≡ atoi s
unfolding atoi skip_space isspace
atoi-spaces zero s = refl
atoi-spaces (suc n) s = atoi-spaces n s

-- With no sign
atoi-start : (s : List ℕ) → IsStart s → atoi s ≡ negate (value_loop 0 s)
unfolding atoi skip_space isspace parse_signed
atoi-start s (inl (n, e)) = rw e (all_spaces n)
  where
    all_spaces :
        (n : ℕ)
        → parse_signed (skip_space (replicate n 32)) ≡ negate (value_loop 0 (replicate n 32))
    all_spaces zero = refl
    all_spaces (suc n) = all_spaces n ∙ ap negate (spaces_value 0 n ∙ sym (spaces_value 0 (suc n)))
atoi-start s (inr (ch, t, e, lo, hi)) = rw (e, no_space, no_plus, no_minus) refl
  where
    no_space : ((ch == 32) || (leb 9 ch && leb ch 13)) ≡ false
    no_space = ground (arith, lo, hi)

    no_plus : (ch == 43) ≡ false
    no_plus = ground (arith, lo, hi)

    no_minus : (ch == 45) ≡ false
    no_minus = ground (arith, lo, hi)

-- A sign, or none
atoi-sign :
    (negative : Bool) (c : PrintfConversion) (s : List ℕ)
    → IsStart s
    → atoi (sign_char true negative c ++ s)
      ≡ (if negative then value_loop 0 s else negate (value_loop 0 s))
unfolding atoi skip_space isspace parse_signed sign_char
atoi-sign true c s h = elim (Bool-cases c.plus) [
  | inl p ↦ rw p refl
  | inr p ↦ elim (Bool-cases c.space) [ inl q ↦ rw (p, q) refl | inr q ↦ rw (p, q) refl ]
]
atoi-sign false c s h = elim (Bool-cases c.plus) [
  | inl p ↦ rw p refl
  | inr p ↦ elim (Bool-cases c.space) [
    | inl q ↦ rw (p, q) (atoi-start s h)
    | inr q ↦ rw (p, q) (atoi-start s h)
  ]
]

no_prefix : (value : ℕ) (c : PrintfConversion) → prefix_chars value base_d c ≡ []
unfolding prefix_chars
no_prefix value c = if_false {b = c.pound && ltb 0 value && false} (48 ∷ 0 ∷ []) [] (ground arith)

-- The digits and zeros in `buf`, whatever number of spaces comes after
fill_buf_value :
    (value : ℕ) (c : PrintfConversion)
    → value < 2 ^ 32
    → c.group ≡ false
    → (buf : List ℕ) × (fill_buf value base_d c ≡ some buf)
      × ((n : ℕ)
          → (value_loop 0 (buf ++ replicate n 32) ≡ negate value) × IsStart (buf ++ replicate n 32))
unfolding fill_buf
fill_buf_value value c h g =
    let (r, run, v, s) =
      value_loop-digits_loop 64 value 0 [] [] (omega (arith, h)) h (inl (0, refl)) in
    (zero_loop 64 (rendered c.precision) r, rw (g, run, no_octal r) refl, λ n. with_spaces r run n)
  where
    no_octal :
        (r : List ℕ)
        → (c.pound && false && not (is_zero_first (zero_loop 64 (rendered c.precision) r))) ≡ false
    no_octal r = elim (Bool-cases c.pound) [ inl e ↦ rw e refl | inr e ↦ rw e refl ]

    with_spaces :
        (r : List ℕ)
        → digits_loop 65 base_d false value 0 [] ≡ some r
        → (n : ℕ)
        → (value_loop 0 (zero_loop 64 (rendered c.precision) r ++ replicate n 32) ≡ negate value)
          × IsStart (zero_loop 64 (rendered c.precision) r ++ replicate n 32)
    with_spaces r run n =
        let (r', run', v, s) =
          value_loop-digits_loop 64 value 0 [] (replicate n 32) (omega (arith, h)) h
            (inl (n, refl)) in
        let same : r' ≡ r = some-injective _ _ (sym run' ∙ run) in
        let (z, start) =
          zero_loop_value 64 (rendered c.precision) r (replicate n 32)
            (subst (λ (b : List ℕ). IsStart (b ++ replicate n 32)) same s) in
        (
          z
              ∙ ap (λ (b : List ℕ). value_loop 0 (b ++ replicate n 32)) (sym same)
              ∙ v
              ∙ spaces_value (negate value) n,
          start,
        )

-- atoi reads back any int that format_integer writes in decimal, with whatever width, precision and
-- flags but the one for groups of digits.
pub atoi-format_integer :
    (value : ℕ) (negative : Bool) (c : PrintfConversion)
    → value < 2 ^ 32
    → c.group ≡ false
    → (s : List ℕ) × (format_integer value true negative base_d c ≡ some s)
      × (atoi s ≡ (if negative then negate value else value))
unfolding format_integer sign_char
atoi-format_integer value negative c h g =
    let (buf, filled, read) = fill_buf_value value c h g in
    (text buf, rw (filled, no_prefix value c) refl, right buf read)
  where
    pad : List ℕ → ℕ
    pad buf = c.width - length buf - 0 - length (sign_char true negative c)

    inner : List ℕ → List ℕ
    inner buf =
        (if c.zeros then replicate (pad buf) 48 else [])
        ++ (buf ++ (if c.minus then replicate (pad buf) 32 else []))

    text : List ℕ → List ℕ
    text buf =
        (if c.minus || c.zeros then [] else replicate (pad buf) 32)
        ++ (sign_char true negative c ++ inner buf)

    trail_spaces :
        (k : ℕ)
        → (n : ℕ) × ((if c.minus then replicate {A = ℕ} k 32 else []) ≡ replicate {A = ℕ} n 32)
    trail_spaces k = elim (Bool-cases c.minus) [ inl e ↦ (k, rw e refl) | inr e ↦ (0, rw e refl) ]

    inner_value :
        (buf : List ℕ)
        → ((n : ℕ)
            → (value_loop 0 (buf ++ replicate n 32) ≡ negate value)
              × IsStart (buf ++ replicate n 32))
        → (value_loop 0 (inner buf) ≡ negate value) × IsStart (inner buf)
    inner_value buf read =
        let (n, e) = trail_spaces (pad buf) in
        let (v, s) =
          subst (λ (t : List ℕ). (value_loop 0 (buf ++ t) ≡ negate value) × IsStart (buf ++ t))
            {x = replicate n 32} (sym e) (read n) in
        elim (Bool-cases c.zeros) [
          | inl z ↦ rw z (zeros_value (pad buf) _ ∙ v, zeros-IsStart (pad buf) _ s)
          | inr z ↦ rw z (v, s)
        ]

    back : negate (negate value) ≡ value
    back = omega (arith, h)

    right :
        (buf : List ℕ)
        → ((n : ℕ)
            → (value_loop 0 (buf ++ replicate n 32) ≡ negate value)
              × IsStart (buf ++ replicate n 32))
        → atoi (text buf) ≡ (if negative then negate value else value)
    right buf read =
        let (v, s) = inner_value buf read in
        elim (Bool-cases (c.minus || c.zeros)) [
          | inl e ↦ rw e (atoi-sign negative c (inner buf) s ∙ rw (v, back) refl)
          | inr e ↦
              rw e
                (atoi-spaces (pad buf) _ ∙ atoi-sign negative c (inner buf) s ∙ rw (v, back) refl)
        ]
