-- ===== src/Stdlib/Counts.antt =====
-- Arrays with the same elements, by counting.
use pintos_nightmare.Base.{
  ◌==◌, if◌then◌else◌, ==_iff, Bool-cases, if_false, if_true, ℕ, zero, suc, ◌+◌, ◌≤◌, ◌<◌, ◌≡◌,
  refl, sym, ap, ◌∙◌, subst, ◌≢◌, ◌⊎◌, inl, inr, Bool, true, arith,
}
use pintos_nightmare.Stdlib.{put, do_swap}

abbrev pub bit : Bool → ℕ
bit b = if b then 1 else 0

-- The number of elements from 1 to `n` that pass a test
pub count {ℓ} : {A : Type ℓ} → (A → Bool) → ℕ → (ℕ → A) → ℕ
count p zero a = 0
count p (suc n) a = bit (p (a (suc n))) + count p n a

module _ {ℓ} {A : Type ℓ} where
  put_same : (a : ℕ → A) (x : A) (i : ℕ) → put a i x i ≡ x
  unfolding put
  put_same a x i = if_true {b = i == i} x (a i) (ground arith)

  put_else : (a : ℕ → A) (x : A) (i k : ℕ) → k ≢ i → put a i x k ≡ a k
  unfolding put
  put_else a x i k h = if_false {b = k == i} x (a k) (ground (arith, h))

  count-put_above :
      (p : A → Bool) (n : ℕ) (a : ℕ → A) (i : ℕ) (x : A)
      → n < i
      → count p n (put a i x) ≡ count p n a
  unfolding count
  count-put_above p zero a i x h = refl
  count-put_above p (suc n) a i x h =
      rw
        (
          put_else a x i (suc n) (λ e. omega (arith, h, e)),
          count-put_above p n a i x (omega (arith, h)),
        )
        refl

  -- A store exchanges one element for another.
  count-put :
      (p : A → Bool) (n : ℕ) (a : ℕ → A) (i : ℕ) (x : A)
      → 0 < i
      → i ≤ n
      → count p n (put a i x) + bit (p (a i)) ≡ count p n a + bit (p x)
  unfolding count
  count-put p zero a i x l h = absurd (omega (arith, l, h))
  count-put p (suc n) a i x l h = elim (Bool-cases (i == suc n)) [
    | inl e ↦
        let top : i ≡ suc n = ground (arith, e) in
        subst
          (λ (j : ℕ).
            bit (p (put a j x (suc n))) + count p n (put a j x) + bit (p (a j))
            ≡ bit (p (a (suc n))) + count p n a + bit (p x))
          {x = suc n} (sym top)
          (rw (put_same a x (suc n), count-put_above p n a (suc n) x (omega arith)) (omega arith))
    | inr e ↦
        rw (put_else a x i (suc n) (λ t. ground (arith, e, t)))
          (omega (arith, count-put p n a i x l (ground (arith, e, h))))
  ]

  -- The same elements, in some order, from 1 to `n`, and each other element in its place
  pub record Rearranged (n : ℕ) (a b : ℕ → A) : Type ℓ where
    pub counts : (p : A → Bool) → count p n b ≡ count p n a
    pub outside : (k : ℕ) → (k ≡ 0) ⊎ (n < k) → b k ≡ a k

  pub Rearranged-refl : (n : ℕ) (a : ℕ → A) → Rearranged n a a
  Rearranged-refl n a = record { counts = λ p. refl; outside = λ k h. refl }

  pub Rearranged-sym : {n : ℕ} {a b : ℕ → A} → Rearranged n a b → Rearranged n b a
  Rearranged-sym v = record { counts = λ p. sym (v.counts p); outside = λ k h. sym (v.outside k h) }

  pub Rearranged-trans :
      {n : ℕ} {a b c : ℕ → A} → Rearranged n a b → Rearranged n b c → Rearranged n a c
  Rearranged-trans v w = record {
    counts = λ p. w.counts p ∙ v.counts p;
    outside = λ k h. w.outside k h ∙ v.outside k h;
  }

  put_value : (a : ℕ → A) (i j : ℕ) → put a i (a j) j ≡ a j
  put_value a i j = elim (Bool-cases (j == i)) [
    | inl e ↦ let here : j ≡ i = ground (arith, e) in ap (put a i (a j)) here ∙ put_same a (a j) i
    | inr e ↦ put_else a (a j) i j (λ t. ground (arith, e, t))
  ]

  -- `do_swap` at each index
  pub swap_left : (a : ℕ → A) (i j : ℕ) → do_swap a i j i ≡ a j
  unfolding do_swap
  swap_left a i j = elim (Bool-cases (j == i)) [
    | inl e ↦
        let here : j ≡ i = ground (arith, e) in
        ap (put (put a i (a j)) j (a i)) (sym here)
        ∙ put_same (put a i (a j)) (a i) j
        ∙ ap a (sym here)
    | inr e ↦ put_else (put a i (a j)) (a i) j i (λ t. ground (arith, e, t)) ∙ put_same a (a j) i
  ]

  pub swap_right : (a : ℕ → A) (i j : ℕ) → do_swap a i j j ≡ a i
  unfolding do_swap
  swap_right a i j = put_same (put a i (a j)) (a i) j

  pub swap_other : (a : ℕ → A) (i j k : ℕ) → k ≢ i → k ≢ j → do_swap a i j k ≡ a k
  unfolding do_swap
  swap_other a i j k h h' = put_else (put a i (a j)) (a i) j k h' ∙ put_else a (a j) i k h

  pub do_swap-Rearranged :
      (n : ℕ) (a : ℕ → A) (i j : ℕ) → 0 < i → i ≤ n → 0 < j → j ≤ n → Rearranged n a (do_swap a i j)
  unfolding do_swap
  do_swap-Rearranged n a i j p l q h = record {
    counts = λ t. omega (
      arith,
      count-put t n a i (a j) p l,
      count-put t n (put a i (a j)) j (a i) q h,
      ap (λ (x : A). bit (t x)) (put_value a i j),
    );
    outside =
        λ k o. swap_other a i j k (λ e. omega (arith, o, e, p, l)) (λ e. omega (arith, o, e, q, h));
  }

  count-le : (p : A → Bool) (n : ℕ) (a : ℕ → A) → count p n a ≤ n
  unfolding count
  count-le p zero a = omega arith
  count-le p (suc n) a = ground (arith, count-le p n a)

  count-all :
      (p : A → Bool) (n : ℕ) (a : ℕ → A)
      → ((k : ℕ) → 0 < k → k ≤ n → p (a k) ≡ true)
      → count p n a ≡ n
  unfolding count
  count-all p zero a h = refl
  count-all p (suc n) a h =
      rw (h (suc n) (omega arith) (omega arith), count-all p n a λ k l o. h k l (omega (arith, o)))
        (omega arith)

  all-count :
      (p : A → Bool) (n : ℕ) (a : ℕ → A)
      → count p n a ≡ n
      → (k : ℕ) → 0 < k
      → k ≤ n
      → p (a k) ≡ true
  unfolding count
  all-count p zero a e k l o = absurd (omega (arith, l, o))
  all-count p (suc n) a e k l o = elim (Bool-cases (k == suc n)) [
    | inl t ↦
        let here : k ≡ suc n = ground (arith, t) in
        ap (λ (i : ℕ). p (a i)) here ∙ ground (arith, e, count-le p n a)
    | inr t ↦ all-count p n a (ground (arith, e, count-le p n a)) k l (ground (arith, t, o))
  ]

  -- What holds of all elements still does when they are rearranged.
  pub Rearranged-all :
      {n : ℕ} {a b : ℕ → A} (p : A → Bool)
      → Rearranged n a b
      → ((k : ℕ) → 0 < k → k ≤ n → p (a k) ≡ true)
      → (k : ℕ) → 0 < k
      → k ≤ n
      → p (b k) ≡ true
  Rearranged-all {n} {a} {b} p v h k l o = all-count p n b (v.counts p ∙ count-all p n a h) k l o

  count-outside :
      {m : ℕ} {a b : ℕ → A} (n : ℕ) (p : A → Bool)
      → Rearranged m a b
      → m ≤ n
      → count p n b ≡ count p n a
  unfolding count
  count-outside {m} {a} {b} zero p v h =
      subst (λ (i : ℕ). count p i b ≡ count p i a) none_left (v.counts p)
    where
      none_left : m ≡ 0
      none_left = omega (arith, h)
  count-outside {m} {a} {b} (suc n) p v h = elim (Bool-cases (m == suc n)) [
    | inl e ↦ subst (λ (i : ℕ). count p i b ≡ count p i a) ((==_iff m (suc n)).0 e) (v.counts p)
    | inr e ↦
        rw
          (
            v.outside (suc n) (inr (ground (arith, e, h))),
            count-outside n p v (ground (arith, e, h)),
          )
          refl
  ]

  pub Rearranged-widen : {m : ℕ} {a b : ℕ → A} (n : ℕ) → Rearranged m a b → m ≤ n → Rearranged n a b
  Rearranged-widen n v h = record {
    counts = λ p. count-outside n p v h;
    outside = λ k o. v.outside k (omega (arith, o, h));
  }
