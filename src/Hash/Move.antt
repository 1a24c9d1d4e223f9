-- ===== src/Hash/Move.antt =====
-- Where elements stand when they are moved from bucket to bucket.
use pintos_nightmare.Base.{
  ltb, leb, ◌==◌, if◌then◌else◌, if_false, bit_and-mask, length, length-append, ℕ, zero, suc, ◌+◌,
  ◌^◌, ◌≤◌, ◌<◌, ◌≡◌, refl, sym, ◌∙◌, ◌≢◌, Bool, true, ◌&&◌, Option, none, some, List, [], ◌∷◌,
  ◌++◌, arith,
}
use pintos_nightmare.Hash.{
  write_bucket, is_same, find_elem, find_bucket, move_bucket, move_buckets, all_elems,
}
use pintos_nightmare.Hash.Power.{pred_wraps}
use pintos_nightmare.Hash.Elems.{
  IsKey, count, count-zero, count-append, find_elem-append, find_elem-prefix,
}
use native.Mathlib.Nat.{one-le-pow, mod-lt}

-- The first of two results
abbrev pub pick : Option ℕ → Option ℕ → Option ℕ
pick none y = y
pick (some x) y = some x

pick-none : (o : Option ℕ) → o ≡ pick o none
pick-none none = refl
pick-none (some x) = refl

abbrev pub total : (ℕ → List ℕ) → ℕ → ℕ → ℕ
total B n i = length (all_elems B n i)

total_step : (B : ℕ → List ℕ) (n i : ℕ) → total B (suc n) i ≡ length (B i) + total B n (i + 1)
unfolding all_elems
total_step B n i = length-append (B i) _

total-zero : (B : ℕ → List ℕ) (i : ℕ) → total B zero i ≡ 0
unfolding all_elems
total-zero B i = refl

pub total_congr :
    (B C : ℕ → List ℕ) (n i : ℕ)
    → ((j : ℕ) → i ≤ j → j < i + n → B j ≡ C j)
    → total B n i ≡ total C n i
total_congr B C zero i e = total-zero B i ∙ sym (total-zero C i)
total_congr B C (suc n) i e =
    rw
      (
        total_step B n i,
        e i (omega arith) (omega arith),
        total_congr B C n (i + 1) (λ j l h. e j (omega (arith, l)) (omega (arith, h))),
      )
      (sym (total_step C n i))

pub total_empty : (n i : ℕ) → total (λ j. []) n i ≡ 0
total_empty zero i = total-zero (λ j. []) i
total_empty (suc n) i = omega (arith, total_step (λ j. []) n i, total_empty n (i + 1))

total_before :
    (B : ℕ → List ℕ) (j : ℕ) (b : List ℕ) (n i : ℕ)
    → j < i
    → total (write_bucket B j b) n i ≡ total B n i
total_before B j b n i l = total_congr (write_bucket B j b) B n i (λ k h h'. ground (arith, l, h))

pub total-write :
    (B : ℕ → List ℕ) (j : ℕ) (b : List ℕ) (n i : ℕ)
    → i ≤ j
    → j < i + n
    → total (write_bucket B j b) n i + length (B j) ≡ total B n i + length b
total-write B j b zero i l h = absurd (omega arith)
total-write B j b (suc n) i l h = ground (
  arith,
  total_step B n i,
  total_step (write_bucket B j b) n i,
  total_before B j b n (i + 1),
  total-write B j b n (i + 1),
)

module _ (hash : ℕ → ℕ) (less : ℕ → ℕ → Bool) (key : IsKey hash less) where
  pub home-lt : (n q : ℕ) → (k : ℕ) × (n ≡ 2 ^ k) → n < 2 ^ 32 → find_bucket hash n q < n
  unfolding find_bucket
  home-lt n q (k, e) l =
      rw (pred_wraps n (omega (arith, e, one-le-pow k 2)) l, e, bit_and-mask k (hash q))
        (mod-lt (hash q) {m = 2 ^ k} (one-le-pow k 2 (omega arith)))

  pub home_congr :
      (n a b : ℕ) → is_same less a b ≡ true → find_bucket hash n a ≡ find_bucket hash n b
  unfolding find_bucket
  home_congr n a b e = rw (key.hash_same a b e) refl

  move_bucket-append :
      (n : ℕ) (b c : List ℕ) (new : ℕ → List ℕ)
      → move_bucket hash n (b ++ c) new ≡ move_bucket hash n c (move_bucket hash n b new)
  unfolding move_bucket
  move_bucket-append n [] c new = refl
  move_bucket-append n (e ∷ b) c new = move_bucket-append n b c _

  pub move_buckets-all_elems :
      (n : ℕ) (old : ℕ → List ℕ) (m i : ℕ) (new : ℕ → List ℕ)
      → move_buckets hash n old m i new ≡ move_bucket hash n (all_elems old m i) new
  unfolding move_buckets all_elems
  move_buckets-all_elems n old zero i new = unfold move_bucket in refl
  move_buckets-all_elems n old (suc m) i new =
      move_buckets-all_elems n old m (i + 1) _ ∙ sym (move_bucket-append n (old i) _ new)

  pub count-move :
      (n : ℕ) (c : List ℕ) (new : ℕ → List ℕ) (q j : ℕ)
      → count less q (move_bucket hash n c new j)
        ≡ count less q (new j) + (if j == find_bucket hash n q then count less q c else 0)
  unfolding move_bucket
  count-move n [] new q j = ground arith
  count-move n (e ∷ c) new q j = ground (
    arith,
    count-move n c (write_bucket new (find_bucket hash n e) (e ∷ new (find_bucket hash n e))) q j,
    home_congr n e q,
  )

  pub find-move :
      (n : ℕ) (c : List ℕ) (new : ℕ → List ℕ) (q : ℕ)
      → count less q (new (find_bucket hash n q)) + count less q c ≤ 1
      → find_elem less (move_bucket hash n c new (find_bucket hash n q)) q
        ≡ pick (find_elem less (new (find_bucket hash n q)) q) (find_elem less c q)
  unfolding move_bucket find_elem
  find-move n [] new q one = pick-none _
  find-move n (e ∷ c) new q one = ground (
    arith,
    find-move n c (write_bucket new (find_bucket hash n e) (e ∷ new (find_bucket hash n e))) q,
    home_congr n e q,
    count-zero hash less key c q,
    count-zero hash less key (new (find_bucket hash n q)) q,
  )

  -- Every element is in its bucket, and no two are equal.
  abbrev pub IsPlaced : ℕ → (ℕ → List ℕ) → Type 0
  IsPlaced n B =
      (q i : ℕ)
      → i < n
      → (count less q (B i) ≤ 1) × (i ≢ find_bucket hash n q → count less q (B i) ≡ 0)

  module _ (q j : ℕ) (B : ℕ → List ℕ) where
    pub count-all_elems :
        (n i : ℕ)
        → ((k : ℕ) → k < i + n → k ≢ j → count less q (B k) ≡ 0)
        → count less q (all_elems B n i)
          ≡ (if leb i j && ltb j (i + n) then count less q (B j) else 0)
    unfolding all_elems
    count-all_elems zero i h = ground arith
    count-all_elems (suc n) i h = ground (
      arith,
      count-append hash less key q (B i) (all_elems B n (i + 1)),
      count-all_elems n (i + 1) (λ k l. h k (omega (arith, l))),
      h i,
    )

    pub find-all_elems :
        (n i : ℕ)
        → ((k : ℕ) → k < i + n → k ≢ j → count less q (B k) ≡ 0)
        → find_elem less (all_elems B n i) q
          ≡ (if leb i j && ltb j (i + n) then find_elem less (B j) q else none)
    unfolding all_elems find_elem
    find-all_elems zero i h = sym (if_false {b = leb i j && ltb j (i + 0)} _ _ (ground arith))
    find-all_elems (suc n) i h = ground (
      arith,
      count-all_elems n (i + 1) (λ k l. h k (omega (arith, l))),
      find-all_elems n (i + 1) (λ k l. h k (omega (arith, l))),
      h i,
      find_elem-append hash less key q (B i) (all_elems B n (i + 1)),
      find_elem-prefix hash less key q (B i) (all_elems B n (i + 1)),
    )

  pub total-move :
      (n : ℕ) (k : ℕ)
      → n ≡ 2 ^ k
      → n < 2 ^ 32
      → (c : List ℕ) (new : ℕ → List ℕ)
      → total (move_bucket hash n c new) n 0 ≡ total new n 0 + length c
  unfolding move_bucket
  total-move n k p l [] new = omega arith
  total-move n k p l (e ∷ c) new = omega (
    arith,
    total-move n k p l c (write_bucket new (find_bucket hash n e) (e ∷ new (find_bucket hash n e))),
    total-write new (find_bucket hash n e) (e ∷ new (find_bucket hash n e)) n 0 (omega arith)
        (omega (arith, home-lt n e (k, p) l)),
  )
