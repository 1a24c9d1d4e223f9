-- ===== src/Tests/Sorting.antt =====
-- Division, sorting and searching at concrete inputs.
use pintos_nightmare.Base.{
  get_or, ℕ, suc, ◌-◌, ◌*◌, ◌%◌, ◌^◌, ◌≤◌, ◌<◌, ◌≡◌, refl, ◌≢◌, Option, none, some, List, [], ◌∷◌,
  arith,
}
use pintos_nightmare.Arithmetic.{
  divide_short, divl, udiv64, umod64, sdiv64, smod64, magnitude, is_negative,
}
use pintos_nightmare.Arithmetic.Quotient.{udiv64-quotient}
use pintos_nightmare.Stdlib.{
  Sign, less, same, greater, IsOrder, sort, binary_search, build_loop, drain_loop, heapify,
  heapify_loop, max_of, larger, do_swap, put, search_loop,
}
use pintos_nightmare.Stdlib.Counts.{Rearranged}
use pintos_nightmare.Stdlib.Sort.{IsAscending, sort-IsAscending}
use pintos_nightmare.Stdlib.Search.{IsFound, sort-binary_search}
use Prim.Native.Nat.{compare, Ordering}

udiv64-quotient_example : udiv64 0xffff_ffff_ffff_ffff 0x1_0000_0001 ≡ some 0xffff_ffff
udiv64-quotient_example =
    udiv64-quotient 0xffff_ffff_ffff_ffff 0x1_0000_0001 (omega arith) (omega arith)

-- A remainder of more than 32 bits is cut.
umod64_cut :
    (umod64 0x1_0000_0005 0x2_0000_0000 ≡ some 5) × (0x1_0000_0005 % 0x2_0000_0000 ≡ 0x1_0000_0005)
unfolding umod64 udiv64
umod64_cut = (refl, refl)

-- -7 / 2 and -7 % 2
sdiv64_negative : sdiv64 (2 ^ 64 - 7) 2 ≡ some (2 ^ 64 - 3)
unfolding sdiv64 udiv64 divide_short divl magnitude is_negative
sdiv64_negative = refl

smod64_negative : smod64 (2 ^ 64 - 7) 2 ≡ some (2 ^ 32 - 1)
unfolding smod64 sdiv64 udiv64 divide_short divl magnitude is_negative
smod64_negative = refl

abbrev sign_of : ℕ → ℕ → Sign
sign_of a b = elim (compare a b) [ Ordering.lt ↦ less | Ordering.eq ↦ same | Ordering.gt ↦ greater ]

numbers_order : IsOrder sign_of
numbers_order = record {
  flip = λ x y. (λ h. ground (arith, h), λ h. ground (arith, h));
  chain = λ x y z h k. ground (arith, h, k);
}

abbrev five : ℕ → ℕ
five k = get_or (0 ∷ 30 ∷ 10 ∷ 50 ∷ 20 ∷ 40 ∷ []) k 0

sort-IsAscending_example :
    (b : ℕ → ℕ) × (sort sign_of 5 five ≡ some b) × IsAscending sign_of 1 5 b × Rearranged 5 five b
sort-IsAscending_example = sort-IsAscending sign_of numbers_order 5 five (omega arith)

sort-binary_search_example :
    (b : ℕ → ℕ) × (r : Option ℕ) × (sort sign_of 5 five ≡ some b)
    × (binary_search sign_of 20 5 (λ i. b (suc i)) ≡ some r)
    × IsFound sign_of numbers_order 20 5 (λ i. b (suc i)) r
    × (r ≡ none → (k : ℕ) → 0 < k → k ≤ 5 → sign_of 20 (five k) ≢ same)
sort-binary_search_example = sort-binary_search sign_of numbers_order 20 5 five (omega arith)

abbrev first_of : Option (ℕ → ℕ) → List ℕ
first_of none = []
first_of (some b) = b 1 ∷ b 2 ∷ b 3 ∷ b 4 ∷ b 5 ∷ []

five_sorted : first_of (sort sign_of 5 five) ≡ 10 ∷ 20 ∷ 30 ∷ 40 ∷ 50 ∷ []
unfolding sort build_loop drain_loop heapify heapify_loop max_of larger do_swap put
five_sorted = refl

five_found : binary_search sign_of 40 5 (λ i. 10 * suc i) ≡ some (some 3)
unfolding binary_search search_loop
five_found = refl

five_not_found : binary_search sign_of 35 5 (λ i. 10 * suc i) ≡ some none
unfolding binary_search search_loop
five_not_found = refl
