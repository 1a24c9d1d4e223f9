-- ===== src/Stdlib/Heap.antt =====
-- heapify of lib/stdlib.c restores the heap order.
use pintos_nightmare.Base.{
  leb, ◌==◌, Bool-cases, ℕ, zero, suc, ◌+◌, ◌-◌, ◌*◌, ◌/◌, ◌%◌, ◌^◌, ◌≤◌, ◌<◌, ◌≡◌, refl, sym, ap,
  subst, ◌≢◌, ◌⊎◌, inl, inr, Bool, true, false, not, some, arith,
}
use pintos_nightmare.Stdlib.{
  Sign, less, same, greater, is_positive, do_swap, larger, max_of, heapify_loop, heapify, IsOrder,
}
use pintos_nightmare.Stdlib.Counts.{
  Rearranged, Rearranged-refl, Rearranged-trans, swap_left, swap_right, swap_other,
  do_swap-Rearranged,
}

module _ {ℓ} {A : Type ℓ} (compare : A → A → Sign) where
  -- `x` is not above `y`
  abbrev pub le : A → A → Bool
  le x y = not (is_positive (compare x y))

  -- Every edge whose parent is `lo` or later is in order.
  abbrev pub IsHeapFrom : ℕ → ℕ → (ℕ → A) → Type 0
  IsHeapFrom lo n a = (c : ℕ) → 2 ≤ c → c ≤ n → lo ≤ c / 2 → le (a c) (a (c / 2)) ≡ true

  -- Only the edges below `i` may be out of order.
  pub record DownInv (lo n : ℕ) (a : ℕ → A) (i : ℕ) : Type 0 where
    pub edges : (c : ℕ) → 2 ≤ c → c ≤ n → lo ≤ c / 2 → c / 2 ≢ i → le (a c) (a (c / 2)) ≡ true
    pub bridged : (c : ℕ) → 2 ≤ c → c ≤ n → c / 2 ≡ i → lo ≤ i / 2 → le (a c) (a (i / 2)) ≡ true

  -- `m` is the greatest of `i` and its children below `b`.
  record IsGreatest (n : ℕ) (a : ℕ → A) (i b m : ℕ) : Type 0 where
    pub place : (m ≡ i) ⊎ ((m / 2 ≡ i) × (m ≤ n))
    pub self : le (a i) (a m) ≡ true
    pub children : (c : ℕ) → c < b → c ≤ n → c / 2 ≡ i → le (a c) (a m) ≡ true

pub above : (s : Sign) → is_positive s ≡ true → s ≡ greater
above less h = cc
above same h = cc
above greater h = refl

module _ {ℓ} {A : Type ℓ} (compare : A → A → Sign) (order : IsOrder compare) where
  pub le_refl : (x : A) → le compare x x ≡ true
  le_refl x = elim (Bool-cases (is_positive (compare x x))) [
    | inl t ↦ rw ((order.flip x x).0 (above (compare x x) t)) refl
    | inr t ↦ rw t refl
  ]

  le_swap : (x y : A) → le compare x y ≡ false → le compare y x ≡ true
  le_swap x y h = rw ((order.flip x y).0 (above (compare x y) (ground (arith, h)))) refl

  pub le_trans : (x y z : A) → le compare x y ≡ true → le compare y z ≡ true → le compare x z ≡ true
  le_trans x y z h k = rw (order.chain x y z (ground (arith, h)) (ground (arith, k))) refl

  module _ (n : ℕ) (a : ℕ → A) (i : ℕ) (p : 0 < i) (o : i ≤ n) (l : n < 2 ^ 31) where
    larger-IsGreatest :
        (b m : ℕ)
        → b / 2 ≡ i
        → IsGreatest compare n a i b m
        → IsGreatest compare n a i (suc b) (larger compare n a b m)
    unfolding larger
    larger-IsGreatest b m e v = elim (Bool-cases (leb b n)) [
      | inr t ↦ rw t (record {
        place = v.place;
        self = v.self;
        children = λ c u w x. v.children c (ground (arith, t, u, w)) w x;
      })
      | inl t ↦ elim (Bool-cases (is_positive (compare (a b) (a m)))) [
        | inr s ↦
            rw (t, s)
              (record {
                place = v.place;
                self = v.self;
                children = λ c u w x. elim (Bool-cases (c == b)) [
                  | inl y ↦ let here : c ≡ b = ground (arith, y) in rw (here, s) refl
                  | inr y ↦ v.children c (ground (arith, y, u)) w x
                ];
              })
        | inl s ↦
            let up : le compare (a m) (a b) ≡ true = le_swap (a b) (a m) (ap not s) in
            rw (t, s)
              (record {
                place = inr (e, ground (arith, t));
                self = le_trans (a i) (a m) (a b) v.self up;
                children = λ c u w x. elim (Bool-cases (c == b)) [
                  | inl y ↦ let here : c ≡ b = ground (arith, y) in rw here (le_refl (a b))
                  | inr y ↦ le_trans (a c) (a m) (a b) (v.children c (ground (arith, y, u)) w x) up
                ];
              })
      ]
    ]

    max_of-IsGreatest : IsGreatest compare n a i (suc (2 * i + 1)) (max_of compare n a i)
    unfolding max_of
    max_of-IsGreatest =
        rw (left, right)
          (larger-IsGreatest (2 * i + 1) _ (omega arith) (
            subst (λ (b : ℕ). IsGreatest compare n a i b (larger compare n a (2 * i) i)) after
              (larger-IsGreatest (2 * i) i (omega arith) start)))
      where
        after : suc (2 * i) ≡ 2 * i + 1
        after = omega arith

        left : (2 * i + 1) % 2 ^ 32 ≡ 2 * i + 1
        left = omega (arith, o, l)

        right : 2 * i % 2 ^ 32 ≡ 2 * i
        right = omega (arith, o, l)

        start : IsGreatest compare n a i (2 * i) i
        start = record {
          place = inl refl;
          self = le_refl (a i);
          children = λ c u w x. absurd (omega (arith, u, x));
        }

  -- A heap from `lo` on with the elements of `a`
  abbrev pub Sifted : ℕ → ℕ → (ℕ → A) → (ℕ → A) → Type ℓ
  Sifted lo n a b = IsHeapFrom compare lo n b × Rearranged n a b

  settled :
      (lo n : ℕ) (a : ℕ → A) (i : ℕ)
      → DownInv compare lo n a i
      → IsGreatest compare n a i (suc (2 * i + 1)) i
      → IsHeapFrom compare lo n a
  settled lo n a i v g c p q r = elim (Bool-cases (c / 2 == i)) [
    | inl e ↦
        let here : c / 2 ≡ i = ground (arith, e) in
        subst (λ (j : ℕ). le compare (a c) (a j) ≡ true) (sym here)
          (g.children c (omega (arith, here)) q here)
    | inr e ↦ v.edges c p q r (λ t. ground (arith, e, t))
  ]

  swap-DownInv :
      (lo n : ℕ) (a : ℕ → A) (i m : ℕ)
      → 0 < i
      → DownInv compare lo n a i
      → IsGreatest compare n a i (suc (2 * i + 1)) m
      → m / 2 ≡ i
      → m ≤ n
      → DownInv compare lo n (do_swap a i m) m
  swap-DownInv lo n a i m p v g e h = record {
    edges = λ c q r s t. elim (Bool-cases (c / 2 == i)) [
      | inl x ↦
          let up : c / 2 ≡ i = ground (arith, x) in
          elim (Bool-cases (c == m)) [
            | inl y ↦
                let here : c ≡ m = ground (arith, y) in
                rw (up, swap_left a i m, here, swap_right a i m) g.self
            | inr y ↦
                rw
                  (
                    up,
                    swap_left a i m,
                    swap_other a i m c (λ z. omega (arith, z, up, p)) (λ z. ground (arith, y, z)),
                  )
                  (g.children c (omega (arith, up)) r up)
          ]
      | inr x ↦ elim (Bool-cases (c == i)) [
        | inl y ↦
            let here : c ≡ i = ground (arith, y) in
            rw
              (
                here,
                swap_left a i m,
                swap_other a i m (i / 2) (λ z. omega (arith, z, p)) (λ z. omega (arith, z, e, p)),
              )
              (v.bridged m (omega (arith, e, p)) h e (omega (arith, s, here)))
        | inr y ↦
            rw
              (
                swap_other a i m c (λ z. ground (arith, y, z)) (λ z. ground (arith, x, z, e)),
                swap_other a i m (c / 2) (λ z. ground (arith, x, z)) t,
              )
              (v.edges c q r s (λ z. ground (arith, x, z)))
      ]
    ];
    bridged = λ c q r s t.
        rw
          (
            e,
            swap_left a i m,
            swap_other a i m c (λ z. omega (arith, z, s, e, p)) (λ z. omega (arith, z, s, e, p)),
          )
          (subst (λ (j : ℕ). le compare (a c) (a j) ≡ true) s
            (v.edges c q r (omega (arith, s, t, e, p)) (λ z. omega (arith, z, s, e, p))));
  }

  heapify_loop-Sifted :
      (fuel lo n : ℕ) (a : ℕ → A) (i : ℕ)
      → 0 < i
      → i ≤ n
      → n < 2 ^ 31
      → n - i < fuel
      → DownInv compare lo n a i
      → (b : ℕ → A) × (heapify_loop compare fuel i n a ≡ some b) × Sifted lo n a b
  unfolding heapify_loop
  heapify_loop-Sifted zero lo n a i p o l f v = absurd (omega (arith, f))
  heapify_loop-Sifted (suc fuel) lo n a i p o l f v =
      let g = max_of-IsGreatest n a i p o l in
      elim (Bool-cases (max_of compare n a i == i)) [
        | inl e ↦ (
          a,
          rw e refl,
          (
            settled lo n a i v
                (subst (IsGreatest compare n a i (suc (2 * i + 1))) (same_place e) g),
            Rearranged-refl n a,
          ),
        )
        | inr e ↦
            let down : (max_of compare n a i / 2 ≡ i) × (max_of compare n a i ≤ n) =
              ground (arith, e, g.place) in
            let (b, r, s) =
              heapify_loop-Sifted fuel lo n (do_swap a i (max_of compare n a i))
                (max_of compare n a i) (omega (arith, down, p)) down.1 l (omega (arith, down, p, f))
                (swap-DownInv lo n a i (max_of compare n a i) p v g down.0 down.1) in
            (
              b,
              rw (e, r) refl,
              (
                s.0,
                Rearranged-trans
                    (do_swap-Rearranged n a i (max_of compare n a i) p o (omega (arith, down, p))
                      down.1)
                    s.1,
              ),
            )
      ]
    where
      same_place : (max_of compare n a i == i) ≡ true → max_of compare n a i ≡ i
      same_place e = ground (arith, e)

  pub heapify-Sifted :
      (lo n : ℕ) (a : ℕ → A) (i : ℕ)
      → 0 < i
      → i ≤ n
      → n < 2 ^ 31
      → DownInv compare lo n a i
      → (b : ℕ → A) × (heapify compare i n a ≡ some b) × Sifted lo n a b
  unfolding heapify
  heapify-Sifted lo n a i p o l v = heapify_loop-Sifted (suc n) lo n a i p o l (omega arith) v

  root_below :
      (fuel n : ℕ) (a : ℕ → A)
      → IsHeapFrom compare 1 n a
      → (k : ℕ) → k < fuel
      → 0 < k
      → k ≤ n
      → le compare (a k) (a 1) ≡ true
  root_below zero n a h k f p o = absurd (omega (arith, f))
  root_below (suc fuel) n a h k f p o = elim (Bool-cases (k == 1)) [
    | inl e ↦ let here : k ≡ 1 = ground (arith, e) in rw here (le_refl (a 1))
    | inr e ↦
        let big : 2 ≤ k = ground (arith, e, p) in
        le_trans (a k) (a (k / 2)) (a 1) (h k big o (omega (arith, big))) (
          root_below fuel n a h (k / 2) (omega (arith, big, f)) (omega (arith, big))
            (omega (arith, o)))
  ]

  -- No element of a heap is above its root.
  pub root-greatest :
      (n : ℕ) (a : ℕ → A)
      → IsHeapFrom compare 1 n a
      → (k : ℕ) → 0 < k
      → k ≤ n
      → le compare (a k) (a 1) ≡ true
  root-greatest n a h k p o = root_below (suc k) n a h k (omega arith) p o
