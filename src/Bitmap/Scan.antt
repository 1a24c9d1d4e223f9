-- ===== src/Bitmap/Scan.antt =====
-- bitmap_scan is a first-fit search, and bitmap_scan_and_flip claims what it finds.
use pintos_nightmare.Base.{
  ◌==◌, le→leb, lt→leb_false, ℕ, zero, suc, ◌+◌, ◌-◌, ◌≤◌, ◌<◌, ◌≡◌, refl, ◌∙◌, subst, ◌⊎◌, inl,
  inr, Bool, true, false, not, some, arith, dec_lt,
}
use pintos_nightmare.Bitmap.{Bitmap, bitmap_error, scan_loop, scan, scan_and_flip}
use pintos_nightmare.Bitmap.Bits.{IsValid}
use pintos_nightmare.Bitmap.Range.{Uniform, Some, Filled, contains-Some, set_multiple-Filled}

-- `i` is the first place at or after `start` with `cnt` bits of value `w`.
pub record FirstFit (b : Bitmap) (start cnt : ℕ) (w : Bool) (i : ℕ) : Type 0 where
  pub from : start ≤ i
  pub fits : i + cnt ≤ b.bit_cnt
  pub group : Uniform b i cnt w
  pub first : (k : ℕ) → start ≤ k → k < i → ¬ Uniform b k cnt w

-- There is no place at or after `start` with `cnt` bits of value `w`.
abbrev pub NoFit : Bitmap → ℕ → ℕ → Bool → Type 0
NoFit b start cnt w = (k : ℕ) → start ≤ k → k + cnt ≤ b.bit_cnt → ¬ Uniform b k cnt w

not_both : (b : Bitmap) (i n : ℕ) (w : Bool) → Some b i n (not w) → ¬ Uniform b i n w
not_both b i n true (j, lo, hi, e) u = cc (u j lo hi)
not_both b i n false (j, lo, hi, e) u = cc (u j lo hi)

rounds : (n c s : ℕ) → ¬ (n < c) → ¬ (n + 1 < s + c) → s + (n - c + 1 - s) + c ≡ n + 1
rounds n c s small within = omega arith

no_rounds : (n c s : ℕ) → ¬ (n < c) → n + 1 < s + c → n - c + 1 - s ≡ 0
no_rounds n c s small past = omega arith

twice : (w : Bool) → not (not w) ≡ w
twice true = refl
twice false = refl

module _ {b : Bitmap} (v : IsValid b) (cnt : ℕ) (w : Bool) where
  scan_loop-FirstFit :
      (n i : ℕ)
      → i + n + cnt ≡ b.bit_cnt + 1
      → ((k : ℕ) × (scan_loop n b i cnt w ≡ some k) × FirstFit b i cnt w k)
        ⊎ ((scan_loop n b i cnt w ≡ some bitmap_error) × NoFit b i cnt w)
  unfolding scan_loop
  scan_loop-FirstFit zero i h = inr (refl, λ k lo hi. absurd (omega arith))
  scan_loop-FirstFit (suc n) i h = elim (contains-Some v i cnt (omega arith) (not w)) [
    | inr (e, u) ↦ inl (
      i,
      rw e refl,
      record {
        from = omega arith;
        fits = omega arith;
        group = λ j lo hi. u j lo hi ∙ twice w;
        first = λ k lo hi. absurd (omega arith);
      },
    )
    | inl (e, s) ↦ elim (scan_loop-FirstFit n (i + 1) (omega arith)) [
      | inl (k, e', f) ↦ inl (
        k,
        rw e e',
        record {
          from = omega (arith, f.from);
          fits = f.fits;
          group = f.group;
          first = λ j lo hi. elim (dec_lt i j) [
            | yes later ↦ f.first j (omega arith) hi
            | no here ↦
                let same : i ≡ j = omega arith in
                subst (λ m. ¬ Uniform b m cnt w) same (not_both b i cnt w s)
          ];
        },
      )
      | inr (e', no_fit) ↦ inr (
        rw e e',
        λ j lo hi. elim (dec_lt i j) [
          | yes later ↦ no_fit j (omega arith) hi
          | no here ↦
              let same : i ≡ j = omega arith in
              subst (λ m. ¬ Uniform b m cnt w) same (not_both b i cnt w s)
        ],
      )
    ]
  ]

module _ {b : Bitmap} (v : IsValid b) (start cnt : ℕ) (w : Bool) (lt : start ≤ b.bit_cnt) where
  -- On a valid bitmap bitmap_scan returns the first place at or after the start with a group of
  -- equal bits of the value, or BITMAP_ERROR if there is no such place.
  pub scan-FirstFit :
      ((k : ℕ) × (scan b start cnt w ≡ some k) × FirstFit b start cnt w k)
      ⊎ ((scan b start cnt w ≡ some bitmap_error) × NoFit b start cnt w)
  unfolding scan
  scan-FirstFit = elim (dec_lt b.bit_cnt cnt) [
    | yes big ↦ inr (rw (le→leb _ _ lt, lt→leb_false _ _ big) refl, λ k lo hi. absurd (omega arith))
    | no small ↦
        rw (le→leb _ _ lt, le→leb cnt b.bit_cnt (omega arith))
          (elim (dec_lt (b.bit_cnt + 1) (start + cnt)) [
            | yes past ↦ inr (
              rw (no_rounds b.bit_cnt cnt start small past) refl,
              λ k lo hi. absurd (omega arith),
            )
            | no within ↦
                scan_loop-FirstFit v cnt w (b.bit_cnt - cnt + 1 - start) start
                  (rounds b.bit_cnt cnt start small within)
          ])
  ]

  -- bitmap_scan_and_flip claims the first group of bits of the value: it gives them the other value
  -- and changes no other bit (a group of no bits is at the start itself); if there is no such group, it returns BITMAP_ERROR and the bitmap as
  -- it was.
  pub scan_and_flip-FirstFit :
      ((k : ℕ) × (b' : Bitmap) × (scan_and_flip b start cnt w ≡ some (k, b'))
        × FirstFit b start cnt w k
        × Filled b k cnt (not w) b')
      ⊎ ((scan_and_flip b start cnt w ≡ some (bitmap_error, b)) × NoFit b start cnt w)
  unfolding scan_and_flip
  scan_and_flip-FirstFit = elim scan-FirstFit [
    | inl (k, e, f) ↦
        let (b', e', r) = set_multiple-Filled v k cnt f.fits (not w) in
        inl (k, b', rw (e, found k f, e') refl, f, r)
    | inr (e, n) ↦ inr (rw e refl, n)
  ]
    where
      found : (k : ℕ) → FirstFit b start cnt w k → (k == bitmap_error) ≡ false
      found k f = ground (arith, v.fits, f.fits)
