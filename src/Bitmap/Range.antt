-- ===== src/Bitmap/Range.antt =====
-- The operations on a range of bits: bitmap_set_multiple, bitmap_contains, bitmap_all and
-- bitmap_count.
use pintos_nightmare.Base.{
  ltb, leb, eq_bool, if◌then◌else◌, le→leb, lt→leb_false, Bool-cases, ℕ, zero, suc, ◌+◌, ◌%◌, ◌^◌,
  ◌≤◌, ◌<◌, ◌≡◌, refl, sym, ◌∙◌, subst, ◌⊎◌, inl, inr, Bool, true, false, not, ◌&&◌, none, some,
  arith, dec_lt,
}
use pintos_nightmare.Bitmap.{Bitmap, in_range, set_loop, set_multiple, contains_loop, contains, all}
use pintos_nightmare.Bitmap.Bits.{bit, IsValid}
use pintos_nightmare.Bitmap.Single.{set_bit-Changed, test-bit}

-- Whether bit `j` is one of the `n` bits from `i` on.
abbrev pub within : ℕ → ℕ → ℕ → Bool
within i n j = leb i j && ltb j (i + n)

-- The `n` bits of `b` from `i` on all have value `w`.
abbrev pub Uniform : Bitmap → ℕ → ℕ → Bool → Type 0
Uniform b i n w = (j : ℕ) → i ≤ j → j < i + n → bit b j ≡ w

-- Some bit among the `n` from `i` on has value `w`.
abbrev pub Some : Bitmap → ℕ → ℕ → Bool → Type 0
Some b i n w = (j : ℕ) × (i ≤ j) × (j < i + n) × (bit b j ≡ w)

-- `b'` is `b` with the `n` bits from `i` on made `w`, and no other bit changed.
pub record Filled (b : Bitmap) (i n : ℕ) (w : Bool) (b' : Bitmap) : Type 0 where
  pub valid : IsValid b'
  pub same_cnt : b'.bit_cnt ≡ b.bit_cnt
  pub now : (j : ℕ) → bit b' j ≡ (if within i n j then w else bit b j)

in_range-some :
    {b : Bitmap} (start cnt : ℕ)
    → IsValid b
    → start + cnt ≤ b.bit_cnt
    → in_range b start cnt ≡ some tt
unfolding in_range
in_range-some {b} start cnt v h = rw (
  le→leb start b.bit_cnt (omega arith),
  le→leb ((start + cnt) % 2 ^ 32) b.bit_cnt (omega (arith, v.fits)),
)

set_loop-Filled :
    (n : ℕ) {b : Bitmap} (i : ℕ) (w : Bool)
    → IsValid b
    → i + n ≤ b.bit_cnt
    → (b' : Bitmap) × (set_loop n b i w ≡ some b') × Filled b i n w b'
unfolding set_loop
set_loop-Filled zero {b} i w v h =
    (b, refl, record { valid = v; same_cnt = refl; now = λ j. ground arith })
set_loop-Filled (suc n) {b} i w v h =
    let (b₁, e₁, c) = set_bit-Changed v i (omega arith) w in
    let (b₂, e₂, r) = set_loop-Filled n (i + 1) w c.valid (omega (arith, c.same_cnt)) in
    (
      b₂,
      rw (e₁, e₂),
      record {
        valid = r.valid;
        same_cnt = r.same_cnt ∙ c.same_cnt;
        now = λ j. ground (arith, r.now j, c.now j);
      },
    )

contains_loop-Some :
    (n : ℕ) {b : Bitmap} (i : ℕ) (w : Bool)
    → IsValid b
    → i + n ≤ b.bit_cnt
    → ((contains_loop n b i w ≡ some true) × Some b i n w)
      ⊎ ((contains_loop n b i w ≡ some false) × Uniform b i n (not w))
unfolding contains_loop
contains_loop-Some zero i w v h = inr (refl, λ j lo hi. absurd (omega arith))
contains_loop-Some (suc n) {b} i w v h = elim (Bool-cases (eq_bool (bit b i) w)) [
  | inl hit ↦ inl (
    rw (test-bit v i (omega arith), hit) refl,
    (i, omega arith, omega arith, eq_of (bit b i) w hit),
  )
  | inr miss ↦ elim (contains_loop-Some n (i + 1) w v (omega arith)) [
    | inl (e, (j, lo, hi, is)) ↦
        inl (rw (test-bit v i (omega arith), miss) e, (j, omega arith, omega arith, is))
    | inr (e, u) ↦ inr (
      rw (test-bit v i (omega arith), miss) e,
      λ j lo hi. elim (dec_lt i j) [
        | yes later ↦ u j (omega arith) (omega arith)
        | no here ↦
            let same : i ≡ j = omega arith in
            subst (λ k. bit b k ≡ not w) same (ne_of (bit b i) w miss)
      ],
    )
  ]
]
  where
    eq_of : (a c : Bool) → eq_bool a c ≡ true → a ≡ c
    eq_of true c e = sym e
    eq_of false true e = cc
    eq_of false false e = refl

    ne_of : (a c : Bool) → eq_bool a c ≡ false → a ≡ not c
    ne_of true true e = cc
    ne_of true false e = refl
    ne_of false true e = refl
    ne_of false false e = cc

module _ {b : Bitmap} (v : IsValid b) (start cnt : ℕ) (h : start + cnt ≤ b.bit_cnt) where
  -- On a range inside a valid bitmap, bitmap_set_multiple makes every bit of the range the value,
  -- and leaves all other bits and the size as they were.
  pub set_multiple-Filled :
      (w : Bool) → (b' : Bitmap) × (set_multiple b start cnt w ≡ some b') × Filled b start cnt w b'
  unfolding set_multiple
  set_multiple-Filled w =
      let (b', e, f) = set_loop-Filled cnt start w v h in
      (b', rw (in_range-some start cnt v h) e, f)

  pub contains-Some :
      (w : Bool)
      → ((contains b start cnt w ≡ some true) × Some b start cnt w)
        ⊎ ((contains b start cnt w ≡ some false) × Uniform b start cnt (not w))
  unfolding contains
  contains-Some w = rw (in_range-some start cnt v h) (contains_loop-Some cnt start w v h)

  -- On a range inside a valid bitmap, bitmap_all says true exactly when every bit of the range is
  -- set; otherwise some bit of it is clear.
  pub all-Uniform :
      ((all b start cnt ≡ some true) × Uniform b start cnt true)
      ⊎ ((all b start cnt ≡ some false) × Some b start cnt false)
  unfolding all
  all-Uniform = elim (contains-Some false) [
    | inl (e, s) ↦ inr (rw e refl, s)
    | inr (e, u) ↦ inl (rw e refl, u)
  ]

  pub all-true : Uniform b start cnt true → all b start cnt ≡ some true
  all-true u = elim all-Uniform [
    | inl (e, _) ↦ e
    | inr (_, (j, lo, hi, clear)) ↦ absurd (cc (u j lo hi))
  ]

-- A range that does not fit in the bitmap makes bitmap_set_multiple panic, as long as the
-- sum of its bounds does not wrap.
pub set_multiple-none :
    (b : Bitmap) (start cnt : ℕ) (w : Bool)
    → b.bit_cnt < start + cnt
    → start + cnt < 2 ^ 32
    → set_multiple b start cnt w ≡ none
unfolding set_multiple in_range
set_multiple-none b start cnt w h small = elim (Bool-cases (leb start b.bit_cnt)) [
  | inl e ↦ rw (e, lt→leb_false ((start + cnt) % 2 ^ 32) b.bit_cnt (omega arith))
  | inr e ↦ rw e
]
