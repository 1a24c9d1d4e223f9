-- ===== src/Stdlib/Search.antt =====
-- binary_search of lib/stdlib.c.
use pintos_nightmare.Base.{
  ltb, ◌==◌, ==_iff, Bool-cases, ℕ, zero, suc, ◌+◌, ◌-◌, ◌/◌, ◌^◌, ◌≤◌, ◌<◌, ◌≡◌, refl, ap, subst,
  ◌≢◌, ◌⊎◌, inl, inr, Bool, true, false, not, Option, none, some, arith,
}
use pintos_nightmare.Stdlib.{
  Sign, less, same, greater, is_positive, search_loop, binary_search, sort, IsOrder,
}
use pintos_nightmare.Stdlib.Heap.{le, le_refl, le_trans, above}
use pintos_nightmare.Stdlib.Counts.{Rearranged, Rearranged-sym, Rearranged-all}
use pintos_nightmare.Stdlib.Sort.{IsAscending, sort-IsAscending}

abbrev is_less : Sign → Bool
is_less less = true
is_less same = false
is_less greater = false

abbrev is_same : Sign → Bool
is_same less = false
is_same same = true
is_same greater = false

not_same : (s : Sign) → s ≢ same → not (is_same s) ≡ true
not_same less h = refl
not_same same h = absurd (h refl)
not_same greater h = refl

below : (s : Sign) → is_less s ≡ true → s ≡ less
below less h = refl
below same h = ground (arith, h)
below greater h = ground (arith, h)

Sign-cases : (s : Sign) → (s ≡ less) ⊎ (s ≡ same) ⊎ (s ≡ greater)
Sign-cases less = inl refl
Sign-cases same = inr (inl refl)
Sign-cases greater = inr (inr refl)

module _ {ℓ} {A : Type ℓ} (compare : A → A → Sign) (order : IsOrder compare) where
  -- `i` is no index in 0 to `cnt` of an element that compares equal to the key, or is one.
  abbrev pub IsFound : A → ℕ → (ℕ → A) → Option ℕ → Type 0
  IsFound key cnt a (some i) = (i < cnt) × (compare key (a i) ≡ same)
  IsFound key cnt a none = (i : ℕ) → i < cnt → compare key (a i) ≢ same

  clash : {x y : A} → compare x y ≡ greater → le compare x y ≡ true → ⊥
  clash {x} {y} h o = cc

  not_less-le : (k y : A) → is_less (compare k y) ≡ false → le compare y k ≡ true
  not_less-le k y h = elim (Bool-cases (is_positive (compare y k))) [
    | inl t ↦
        let e : compare k y ≡ less = (order.flip y k).0 (above (compare y k) t) in
        absurd (ground (arith, e, h))
    | inr t ↦ ap not t
  ]

  less-le : (k x y : A) → compare k x ≡ less → le compare x y ≡ true → compare k y ≡ less
  less-le k x y h o = elim (Bool-cases (is_less (compare k y))) [
    | inl t ↦ below (compare k y) t
    | inr t ↦
        let under : le compare x k ≡ true = le_trans compare order x y k o (not_less-le k y t) in
        absurd (clash ((order.flip x k).1 h) under)
  ]

  greater-le : (k x y : A) → compare k y ≡ greater → le compare x y ≡ true → compare k x ≡ greater
  greater-le k x y h o = elim (Bool-cases (is_positive (compare k x))) [
    | inl t ↦ above (compare k x) t
    | inr t ↦ absurd (clash h (le_trans compare order k x y (ap not t) o))
  ]

  module _ (key : A) (cnt : ℕ) (a : ℕ → A)
      (sorted : (i j : ℕ) → i < j → j < cnt → le compare (a i) (a j) ≡ true) where
    search_loop-IsFound :
        (fuel first last : ℕ)
        → last - first < fuel
        → last ≤ cnt
        → ((i : ℕ) → i < first → i < cnt → compare key (a i) ≡ greater)
        → ((i : ℕ) → last ≤ i → i < cnt → compare key (a i) ≡ less)
        → (r : Option ℕ) × (search_loop compare fuel key a first last ≡ some r)
          × IsFound key cnt a r
    unfolding search_loop
    search_loop-IsFound zero first last f o lo hi = absurd (omega (arith, f))
    search_loop-IsFound (suc fuel) first last f o lo hi = elim (Bool-cases (ltb first last)) [
      | inr e ↦ (
        none,
        rw e refl,
        λ i h s. elim (Bool-cases (ltb i first)) [
          | inl t ↦ let g = lo i (ground (arith, t)) h in ground (arith, g, s)
          | inr t ↦ let g = hi i (ground (arith, t, e)) h in ground (arith, g, s)
        ],
      )
      | inl e ↦
          let open_range : first < last = ground (arith, e) in
          elim (Sign-cases (compare key (a (first + (last - first) / 2)))) [
            | inl s ↦
                let (r, u, v) =
                  search_loop-IsFound fuel first (first + (last - first) / 2)
                    (omega (arith, f, open_range)) (omega (arith, o, open_range)) lo
                    (λ i h l. elim (Bool-cases (i == first + (last - first) / 2)) [
                      | inl t ↦ rw ((==_iff i (first + (last - first) / 2)).0 t) s
                      | inr t ↦
                          less-le key (a (first + (last - first) / 2)) (a i) s
                            (sorted (first + (last - first) / 2) i (ground (arith, t, h)) l)
                    ]) in
                (r, rw (e, s, u) refl, v)
            | inr (inl s) ↦ (
              some (first + (last - first) / 2),
              rw (e, s) refl,
              (omega (arith, open_range, o), s),
            )
            | inr (inr s) ↦
                let (r, u, v) =
                  search_loop-IsFound fuel (first + (last - first) / 2 + 1) last
                    (omega (arith, f, open_range)) o
                    (λ i h l. elim (Bool-cases (i == first + (last - first) / 2)) [
                      | inl t ↦ rw ((==_iff i (first + (last - first) / 2)).0 t) s
                      | inr t ↦ greater-le key (a i) (a (first + (last - first) / 2)) s (
                          sorted i (first + (last - first) / 2) (ground (arith, t, h))
                            (omega (arith, open_range, o)))
                    ])
                    hi in
                (r, rw (e, s, u) refl, v)
          ]
    ]

    pub binary_search-IsFound :
        (r : Option ℕ) × (binary_search compare key cnt a ≡ some r) × IsFound key cnt a r
    unfolding binary_search
    binary_search-IsFound =
        search_loop-IsFound (suc cnt) 0 cnt (omega arith) (omega arith)
          (λ i h l. absurd (omega (arith, h))) (λ i h l. absurd (omega (arith, h, l)))

module _ {ℓ} {A : Type ℓ} (compare : A → A → Sign) (order : IsOrder compare) where
  ascending-pairs :
      (n : ℕ) (a : ℕ → A)
      → IsAscending compare 1 n a
      → (i d : ℕ) → 0 < i
      → i + d ≤ n
      → le compare (a i) (a (i + d)) ≡ true
  ascending-pairs n a v i zero p o =
      subst (λ (j : ℕ). le compare (a i) (a j) ≡ true) (plus_zero i) (le_refl compare order (a i))
    where
      plus_zero : (j : ℕ) → j ≡ j + 0
      plus_zero j = omega arith
  ascending-pairs n a v i (suc d) p o =
      le_trans compare order (a i) (a (i + d)) (a (i + suc d))
        (ascending-pairs n a v i d p (omega (arith, o)))
        (subst (λ (j : ℕ). le compare (a (i + d)) (a j) ≡ true) next
          (v (i + d) (omega (arith, p)) (omega (arith, o))))
    where
      next : suc (i + d) ≡ i + suc d
      next = omega arith

  -- sort and then binary_search for a key, of an array of less than 2 ^ 31 elements with an order
  -- of them: both end; where an element is found, it compares equal to the key, and where none is,
  -- no element of the array that was given compares equal to it.
  pub sort-binary_search :
      (key : A) (cnt : ℕ) (a : ℕ → A)
      → cnt < 2 ^ 31
      → (b : ℕ → A) × (r : Option ℕ) × (sort compare cnt a ≡ some b)
        × (binary_search compare key cnt (λ i. b (suc i)) ≡ some r)
        × IsFound compare order key cnt (λ i. b (suc i)) r
        × (r ≡ none → (k : ℕ) → 0 < k → k ≤ cnt → compare key (a k) ≢ same)
  sort-binary_search key cnt a l =
      let (b, s, v, w) = sort-IsAscending compare order cnt a l in
      let (r, t, u) = binary_search-IsFound compare order key cnt (λ i. b (suc i)) (pairs b v) in
      (
        b,
        r,
        s,
        t,
        u,
        λ e k p o h.
            absent b w (subst (IsFound compare order key cnt (λ i. b (suc i))) e u) k p o h,
      )
    where
      unlike :
          (b : ℕ → A)
          → ((i : ℕ) → i < cnt → compare key (b (suc i)) ≢ same)
          → (j : ℕ) → 0 < j
          → j ≤ cnt
          → not (is_same (compare key (b j))) ≡ true
      unlike b h zero q t = absurd (omega (arith, q))
      unlike b h (suc j) q t = not_same (compare key (b (suc j))) (h j (omega (arith, t)))

      absent :
          (b : ℕ → A)
          → Rearranged cnt a b
          → ((i : ℕ) → i < cnt → compare key (b (suc i)) ≢ same)
          → (k : ℕ) → 0 < k
          → k ≤ cnt
          → compare key (a k) ≢ same
      absent b w h k p o e =
          let kept =
            Rearranged-all (λ x. not (is_same (compare key x))) (Rearranged-sym w)
              (λ j q t. unlike b h j q t) k p o in
          ground (arith, kept, e)

      gap : (i j : ℕ) → i < j → suc i + (j - i) ≡ suc j
      gap i j h = omega (arith, h)

      pairs :
          (b : ℕ → A)
          → IsAscending compare 1 cnt b
          → (i j : ℕ) → i < j
          → j < cnt
          → le compare (b (suc i)) (b (suc j)) ≡ true
      pairs b v i j h o =
          subst (λ (k : ℕ). le compare (b (suc i)) (b k) ≡ true) (gap i j h)
            (ascending-pairs cnt b v (suc i) (j - i) (omega arith) (omega (arith, h, o)))
