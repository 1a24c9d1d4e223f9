-- ===== src/Stdlib.antt =====
-- lib/stdlib.c: sort, a heap sort, and binary_search.
-- An element of SIZE bytes is one value, and an array is a function from the number of an element.
-- Numbers are from 1 in sort, and from 0 in binary_search, as in the source.
use pintos_nightmare.Base.{
  ltb, leb, ◌==◌, if◌then◌else◌, ◌>>=◌, ℕ, zero, suc, ◌+◌, ◌-◌, ◌*◌, ◌/◌, ◌%◌, ◌^◌, ◌≡◌, ◌↔◌, Bool,
  true, false, ◌&&◌, Option, none, some,
}
pub mod Counts
pub mod Heap
pub mod Sort
pub mod Search

-- The sign of a strcmp()-type result
pub data Sign : Type 0 where
  less same greater : Sign

abbrev pub is_positive : Sign → Bool
is_positive less = false
is_positive same = false
is_positive greater = true

unfoldable pub put {ℓ} : {A : Type ℓ} → (ℕ → A) → ℕ → A → ℕ → A
put a i x k = if k == i then x else a k

unfoldable pub do_swap {ℓ} : {A : Type ℓ} → (ℕ → A) → ℕ → ℕ → ℕ → A
do_swap a i j = put (put a i (a j)) j (a i)

module _ {ℓ} {A : Type ℓ} (compare : A → A → Sign) where
  -- `if (child <= cnt && do_compare (array, child, max, ...) > 0) max = child;`
  unfoldable pub larger : ℕ → (ℕ → A) → ℕ → ℕ → ℕ
  larger cnt a child max =
      if leb child cnt && is_positive (compare (a child) (a max)) then child else max

  -- `max` in the body of heapify
  unfoldable pub max_of : ℕ → (ℕ → A) → ℕ → ℕ
  max_of cnt a i = larger cnt a ((2 * i + 1) % 2 ^ 32) (larger cnt a (2 * i % 2 ^ 32) i)

  unfoldable pub heapify_loop : ℕ → ℕ → ℕ → (ℕ → A) → Option (ℕ → A)
  heapify_loop zero i cnt a = none
  heapify_loop (suc fuel) i cnt a =
      let max = max_of cnt a i in
      let rest = heapify_loop fuel max cnt (do_swap a i max) in if max == i then some a else rest

  unfoldable pub heapify : ℕ → ℕ → (ℕ → A) → Option (ℕ → A)
  heapify i cnt a = heapify_loop (suc cnt) i cnt a

  -- `for (i = cnt / 2; i > 0; i--) heapify (...)`
  unfoldable pub build_loop : ℕ → ℕ → (ℕ → A) → Option (ℕ → A)
  build_loop zero cnt a = some a
  build_loop (suc i) cnt a = heapify (suc i) cnt a >>= build_loop i cnt

  -- `for (i = cnt; i > 1; i--) { do_swap (...); heapify (...); }`
  unfoldable pub drain_loop : ℕ → (ℕ → A) → Option (ℕ → A)
  drain_loop zero a = some a
  drain_loop (suc i) a =
      let rest = heapify 1 i (do_swap a 1 (suc i)) >>= drain_loop i in
      if i == 0 then some a else rest

  unfoldable pub sort : ℕ → (ℕ → A) → Option (ℕ → A)
  sort cnt a = build_loop (cnt / 2) cnt a >>= drain_loop cnt

  -- What a round of binary_search does on the sign of a comparison
  unfoldable pub search_loop : ℕ → A → (ℕ → A) → ℕ → ℕ → Option (Option ℕ)
  search_loop zero key a first last = none
  search_loop (suc fuel) key a first last =
      let middle = first + (last - first) / 2 in
      if ltb first last
      then (elim (compare key (a middle)) [
        | less ↦ search_loop fuel key a first middle
        | greater ↦ search_loop fuel key a (middle + 1) last
        | same ↦ some (some middle)
      ])
      else some none

  -- The inner Option is the pointer that the source returns.
  unfoldable pub binary_search : A → ℕ → (ℕ → A) → Option (Option ℕ)
  binary_search key cnt a = search_loop (suc cnt) key a 0 cnt

-- What the comments of sort and binary_search ask of COMPARE
pub record IsOrder {ℓ} {A : Type ℓ} (compare : A → A → Sign) : Type ℓ where
  pub flip : (x y : A) → (compare x y ≡ greater) ↔ (compare y x ≡ less)
  pub chain :
      (x y z : A)
      → is_positive (compare x y) ≡ false
      → is_positive (compare y z) ≡ false
      → is_positive (compare x z) ≡ false
