-- ===== src/Tests/Library.antt =====
-- The C library and the hash table.
use pintos_nightmare.Base.{
  ltb, if◌then◌else◌, take, ℕ, ◌+◌, ◌-◌, ◌*◌, ◌/◌, ◌%◌, ◌^◌, ◌≤◌, ◌<◌, ◌≡◌, refl, ◌≢◌, ◌⊎◌, Bool,
  true, none, some, [], ◌∷◌, arith,
}
use pintos_nightmare.Text.{memmove, tokenize, strchr}
use pintos_nightmare.Text.Move.{moved, memmove-moved}
use pintos_nightmare.Text.Tokens.{lay, words, tokenize-lay}
use pintos_nightmare.Hash.{
  Hash, find_elem, new_bucket_cnt, find_bucket, insert_elem, hash_find, hash_clear, hash_insert,
}
use pintos_nightmare.Hash.Power.{new_bucket_cnt-total}
use pintos_nightmare.Hash.Elems.{IsKey}
use pintos_nightmare.Hash.Rehash.{IsHash}
use pintos_nightmare.Hash.Map.{
  Becomes, held, map_insert, hash_init-first, insert_elem-Becomes, hash_insert-Becomes,
}
use Prim.Native.Nat.{max}

-- A move up by one byte in overlapping blocks
memmove-moved_example :
    ((◌≡◌ {A = ℕ} 5 0 ⊎ (◌≢◌ {A = ℕ} 101 0 × ◌≢◌ {A = ℕ} 100 0))
      × ((mem' : ℕ → ℕ) × (p : ℕ) × (memmove 101 100 5 (λ k. k) ≡ some (mem', p))
          × ((k : ℕ) → mem' k ≡ moved 101 100 5 (λ k. k) k)
          × (p ≡ (if ltb 101 100 then 101 + 5 else 101))))
    ⊎ ((0 < 5) × (◌≡◌ {A = ℕ} 101 0 ⊎ ◌≡◌ {A = ℕ} 100 0) × (memmove 101 100 5 (λ k. k) ≡ none))
memmove-moved_example = memmove-moved 101 100 5 (λ k. k)

-- A hundred elements get 32 buckets.
new_bucket_cnt-total_example :
    (k : ℕ) × (new_bucket_cnt 100 ≡ some (2 ^ k))
    × (4 ≤ 2 ^ k)
    × (2 ^ k ≤ max 4 (100 / 2))
    × (100 / 2 < 2 * 2 ^ k)
new_bucket_cnt-total_example = new_bucket_cnt-total 100 (omega arith)

-- Elements that are equal when their last digits are
abbrev last_digit : ℕ → ℕ
last_digit e = e % 10

abbrev less_digit : ℕ → ℕ → Bool
less_digit a b = ltb (a % 10) (b % 10)

last_digit-IsKey : IsKey last_digit less_digit
last_digit-IsKey = record {
  irreflexive = λ a. ground arith;
  transitive = λ a b c e e'. ground (arith, e, e');
  hash_same = λ a b e. ground (arith, e);
}

abbrev empty_table : Hash
empty_table = hash_clear (record { elem_cnt = 0; bucket_cnt = 4; buckets = λ i. [] })

empty_table-Becomes : Becomes last_digit less_digit last_digit-IsKey (λ q. none) 0 empty_table
empty_table-Becomes = (hash_init-first last_digit less_digit last_digit-IsKey (λ i. [])).1

-- The table with 3 in it
abbrev one_table : Hash
one_table = insert_elem empty_table (find_bucket last_digit 4 3) 3

one_table-IsHash : IsHash last_digit less_digit last_digit-IsKey one_table
unfolding hash_clear
one_table-IsHash =
    let e = empty_table-Becomes in
    (insert_elem-Becomes last_digit less_digit last_digit-IsKey empty_table e.valid 3 (omega arith)
      (e.finds 3)).valid

one_table_cnt : one_table.elem_cnt + 1 < 2 ^ 32
unfolding insert_elem hash_clear
one_table_cnt = omega arith

-- 23 has the last digit of 3.
hash_insert-Becomes_example :
    (h' : Hash) × (hash_insert last_digit less_digit true one_table 23
      ≡ some (h', hash_find last_digit less_digit one_table 23))
    × Becomes last_digit less_digit last_digit-IsKey
        (map_insert less_digit
          (hash_find last_digit less_digit one_table 23)
          23
          (hash_find last_digit less_digit one_table))
        (one_table.elem_cnt + 1 - held (hash_find last_digit less_digit one_table 23))
        h'
hash_insert-Becomes_example =
    hash_insert-Becomes last_digit less_digit last_digit-IsKey one_table one_table-IsHash true 23
      one_table_cnt

-- 3 is found for 23, and nothing for 4.
find_three : hash_find last_digit less_digit one_table 23 ≡ some 3
unfolding hash_find find_elem insert_elem hash_clear find_bucket
find_three = refl

find_four : hash_find last_digit less_digit one_table 4 ≡ none
unfolding hash_find find_elem insert_elem hash_clear find_bucket
find_four = refl

-- "a  b"
tokenize-lay_example :
    tokenize 32 (32 ∷ []) (lay (32 ∷ []) (([], 97 ∷ []) ∷ (32 ∷ 32 ∷ [], 98 ∷ []) ∷ []) [])
    ≡ take 32 (words (32 ∷ []) (([], 97 ∷ []) ∷ (32 ∷ 32 ∷ [], 98 ∷ []) ∷ []))
unfolding strchr
tokenize-lay_example =
    tokenize-lay (32 ∷ []) 32 (([], 97 ∷ []) ∷ (32 ∷ 32 ∷ [], 98 ∷ []) ∷ []) [] tt (
      tt,
      (refl, tt),
      omega arith,
      omega arith,
      ((refl, (refl, tt)), (refl, tt), omega arith, tt, tt),
    )
