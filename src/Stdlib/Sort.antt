-- ===== src/Stdlib/Sort.antt =====
-- sort of lib/stdlib.c.
use pintos_nightmare.Base.{
  ◌==◌, Bool-cases, ℕ, zero, suc, ◌/◌, ◌^◌, ◌≤◌, ◌<◌, ◌≡◌, refl, ◌∙◌, inl, inr, Bool, true, some,
  arith,
}
use pintos_nightmare.Stdlib.{Sign, do_swap, build_loop, drain_loop, sort, IsOrder}
use pintos_nightmare.Stdlib.Counts.{
  Rearranged, Rearranged-refl, Rearranged-trans, Rearranged-all, Rearranged-widen, swap_right,
  swap_other, do_swap-Rearranged,
}
use pintos_nightmare.Stdlib.Heap.{le, IsHeapFrom, DownInv, Sifted, heapify-Sifted, root-greatest}

-- Each element from `lo` to `n` is not above the one after it.
abbrev pub IsAscending {ℓ} : {A : Type ℓ} → (A → A → Sign) → ℕ → ℕ → (ℕ → A) → Type 0
IsAscending compare lo n a = (j : ℕ) → lo ≤ j → j < n → le compare (a j) (a (suc j)) ≡ true

module _ {ℓ} {A : Type ℓ} (compare : A → A → Sign) (order : IsOrder compare) where
  build_loop-Sifted :
      (i n : ℕ) (a : ℕ → A)
      → i ≤ n
      → n < 2 ^ 31
      → IsHeapFrom compare (suc i) n a
      → (b : ℕ → A) × (build_loop compare i n a ≡ some b) × Sifted compare order 1 n a b
  unfolding build_loop
  build_loop-Sifted zero n a o l h = (a, refl, (h, Rearranged-refl n a))
  build_loop-Sifted (suc i) n a o l h =
      let (b, r, s) = heapify-Sifted compare order (suc i) n a (suc i) (omega arith) o l start in
      let (c, t, u) = build_loop-Sifted i n b (omega (arith, o)) l s.0 in
      (c, rw (r, t) refl, (u.0, Rearranged-trans s.1 u.1))
    where
      start : DownInv compare (suc i) n a (suc i)
      start = record {
        edges = λ c p q r s. h c p q (omega (arith, r, s));
        bridged = λ c p q r s. absurd (omega (arith, s));
      }

  -- The elements after the first `i` are in order, and not below the first `i`, which are a heap.
  record IsDrained (i n : ℕ) (a : ℕ → A) : Type 0 where
    pub heap : IsHeapFrom compare 1 i a
    pub ascending : IsAscending compare (suc i) n a
    pub boundary : (k j : ℕ) → 0 < k → k ≤ i → i < j → j ≤ n → le compare (a k) (a j) ≡ true

  module _ (m n : ℕ) (a : ℕ → A) (p : 0 < m) (o : m < n) (v : IsDrained (suc m) n a) where
    swap-DownInv : DownInv compare 1 m (do_swap a 1 (suc m)) 1
    swap-DownInv = record {
      edges = λ c q r s t.
          rw
            (
              swap_other a 1 (suc m) c (λ z. omega (arith, z, q)) (λ z. omega (arith, z, r)),
              swap_other a 1 (suc m) (c / 2) t (λ z. omega (arith, z, r)),
            )
            (v.heap c q (omega (arith, r)) s);
      bridged = λ c q r s t. absurd (omega (arith, t));
    }

    -- What holds of the heap still does of its elements but the root.
    swapped-all :
        (t : A → Bool)
        → ((k : ℕ) → 0 < k → k ≤ suc m → t (a k) ≡ true)
        → (k : ℕ) → 0 < k
        → k ≤ m
        → t (do_swap a 1 (suc m) k) ≡ true
    swapped-all t h k q r =
        Rearranged-all t
          (do_swap-Rearranged (suc m) a 1 (suc m) (omega arith) (omega arith) (omega arith)
            (omega arith))
          h k q (omega (arith, r))

    module _ (b : ℕ → A) (s : Sifted compare order 1 m (do_swap a 1 (suc m)) b) where
      last-root : b (suc m) ≡ a 1
      last-root = s.1.outside (suc m) (inr (omega arith)) ∙ swap_right a 1 (suc m)

      later : (j : ℕ) → suc m < j → b j ≡ a j
      later j h =
          s.1.outside j (inr (omega (arith, h)))
          ∙ swap_other a 1 (suc m) j (λ z. omega (arith, z, h)) (λ z. omega (arith, z, h))

      IsDrained-next : IsDrained m n b
      IsDrained-next = record {
        heap = s.0;
        ascending = λ j h q. elim (Bool-cases (j == suc m)) [
          | inl e ↦
              let here : j ≡ suc m = ground (arith, e) in
              rw (here, last-root, later (suc (suc m)) (omega arith))
                (v.boundary 1 (suc (suc m)) (omega arith) (omega arith) (omega arith)
                  (omega (arith, q, here)))
          | inr e ↦
              let far : suc m < j = ground (arith, e, h) in
              rw (later j far, later (suc j) (omega (arith, far))) (v.ascending j far q)
        ];
        boundary = λ k j q r t u. elim (Bool-cases (j == suc m)) [
          | inl e ↦
              let here : j ≡ suc m = ground (arith, e) in
              rw (here, last-root)
                (Rearranged-all (λ x. le compare x (a 1)) s.1
                  (swapped-all (λ x. le compare x (a 1))
                    (root-greatest compare order (suc m) a v.heap))
                  k q r)
          | inr e ↦
              let far : suc m < j = ground (arith, e, t) in
              rw (later j far) (
                Rearranged-all (λ x. le compare x (a j)) s.1
                  (swapped-all (λ x. le compare x (a j)) (λ i w x. v.boundary i j w x far u)) k q r)
        ];
      }

  drain_loop-IsDrained :
      (i n : ℕ) (a : ℕ → A)
      → i ≤ n
      → n < 2 ^ 31
      → IsDrained i n a
      → (b : ℕ → A) × (drain_loop compare i a ≡ some b)
        × IsAscending compare 1 n b
        × Rearranged n a b
  unfolding drain_loop
  drain_loop-IsDrained zero n a o l v = (a, refl, v.ascending, Rearranged-refl n a)
  drain_loop-IsDrained (suc i) n a o l v = elim (Bool-cases (i == 0)) [
    | inl e ↦ (a, rw e refl, alone (ground (arith, e)), Rearranged-refl n a)
    | inr e ↦
        let some_left : 0 < i = ground (arith, e) in
        let (b, r, s) =
          heapify-Sifted compare order 1 i (do_swap a 1 (suc i)) 1 (omega arith) some_left
            (omega (arith, o, l)) (swap-DownInv i n a some_left o v) in
        let (c, t, u, w) =
          drain_loop-IsDrained i n b (omega (arith, o)) l
            (IsDrained-next i n a some_left o v b s) in
        (
          c,
          rw (e, r, t) refl,
          u,
          Rearranged-trans
              (do_swap-Rearranged n a 1 (suc i) (omega arith) (omega (arith, o)) (omega arith) o)
              (Rearranged-trans (Rearranged-widen n s.1 (omega (arith, o))) w),
        )
  ]
    where
      alone : i ≡ 0 → IsAscending compare 1 n a
      alone z j h q = elim (Bool-cases (j == 1)) [
        | inl e ↦
            let here : j ≡ 1 = ground (arith, e) in
            rw here (
              v.boundary 1 2 (omega arith) (omega arith) (omega (arith, z))
                (omega (arith, q, here)))
        | inr e ↦ v.ascending j (ground (arith, e, h, z)) q
      ]

  -- With a COMPARE that orders the elements, sort of less than 2 ^ 31 of them ends; it rearranges
  -- them, so that none compares greater than the next one, and leaves all else alone.
  pub sort-IsAscending :
      (cnt : ℕ) (a : ℕ → A)
      → cnt < 2 ^ 31
      → (b : ℕ → A) × (sort compare cnt a ≡ some b)
        × IsAscending compare 1 cnt b
        × Rearranged cnt a b
  unfolding sort
  sort-IsAscending cnt a l =
      let (b, r, s) =
        build_loop-Sifted (cnt / 2) cnt a (omega arith) l
          (λ c p q h. absurd (omega (arith, q, h))) in
      let (c, t, u, w) = drain_loop-IsDrained cnt cnt b (omega arith) l (record {
        heap = s.0;
        ascending = λ j h q. absurd (omega (arith, h, q));
        boundary = λ k j p q h o. absurd (omega (arith, h, o));
      }) in
      (c, rw (r, t) refl, u, Rearranged-trans s.1 w)
