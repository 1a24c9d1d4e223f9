-- ===== src/Hash.antt =====
-- lib/kernel/hash.c: the hash table. An element is an address; a bucket is the sequence of its
-- list, first element first, and `buckets` has the buckets by their index. The hash function and
-- the order of the elements are the caller's; whether malloc finds memory is the input `memory`.
pub mod Power
pub mod Elems
pub mod Move
pub mod Rehash
pub mod Change
pub mod Map
use pintos_nightmare.Base.{
  ltb, ◌==◌, if◌then◌else◌, ◌>>=◌, ◌>>◌, bit_and, bit_xor, ℕ, zero, suc, ◌+◌, ◌-◌, ◌*◌, ◌/◌, ◌%◌,
  ◌^◌, Bool, not, ◌&&◌, ◌||◌, Option, none, some, List, [], ◌∷◌, ◌++◌,
}

pub record Hash : Type 0 where
  pub elem_cnt : ℕ
  pub bucket_cnt : ℕ
  pub buckets : ℕ → List ℕ

-- Returns `x` with its lowest bit that is set turned off, in 32 bits.
abbrev pub turn_off_least_1bit : ℕ → ℕ
turn_off_least_1bit x = bit_and x ((x + 2 ^ 32 - 1) % 2 ^ 32)

abbrev pub is_power_of_2 : ℕ → Bool
is_power_of_2 x = not (x == 0) && (turn_off_least_1bit x == 0)

-- `while (!is_power_of_2 (n)) n = turn_off_least_1bit (n);`, where `none` is that the fuel is used up
unfoldable pub power_loop : (fuel n : ℕ) → Option ℕ
power_loop zero n = none
power_loop (suc fuel) n =
    let rest = power_loop fuel (turn_off_least_1bit n) in if is_power_of_2 n then some n else rest

-- The ideal number of buckets for `elem_cnt` elements
unfoldable pub new_bucket_cnt : (elem_cnt : ℕ) → Option ℕ
new_bucket_cnt elem_cnt = let n = if ltb (elem_cnt / 2) 4 then 4 else elem_cnt / 2 in power_loop n n

abbrev pub write_bucket : (ℕ → List ℕ) → ℕ → List ℕ → ℕ → List ℕ
write_bucket buckets i b j = if j == i then b else buckets j

-- list_remove (&e->list_elem)
unfoldable pub remove : ℕ → List ℕ → List ℕ
remove e [] = []
remove e (x ∷ b) = let rest = remove e b in if x == e then b else x ∷ rest

unfoldable pub insert_elem : Hash → (bucket : ℕ) → ℕ → Hash
insert_elem h bucket e = record h {
  elem_cnt = (h.elem_cnt + 1) % 2 ^ 32;
  buckets = write_bucket h.buckets bucket (e ∷ h.buckets bucket);
}

unfoldable pub remove_elem : Hash → ℕ → Hash
remove_elem h e = record h {
  elem_cnt = (h.elem_cnt + 2 ^ 32 - 1) % 2 ^ 32;
  buckets = λ i. remove e (h.buckets i);
}

unfoldable pub drop_old : Hash → (old : Option ℕ) → Hash
drop_old h none = h
drop_old h (some old) = remove_elem h old

module _ (less : ℕ → ℕ → Bool) where
  -- The test of find_elem
  abbrev pub is_same : ℕ → ℕ → Bool
  is_same hi e = not (less hi e) && not (less e hi)

  unfoldable pub find_elem : List ℕ → ℕ → Option ℕ
  find_elem [] e = none
  find_elem (hi ∷ b) e = let rest = find_elem b e in if is_same hi e then some hi else rest

module _ (hash : ℕ → ℕ) where
  -- The index of the bucket that `e` belongs in, of `bucket_cnt` many
  unfoldable pub find_bucket : (bucket_cnt : ℕ) → ℕ → ℕ
  find_bucket bucket_cnt e = bit_and (hash e) ((bucket_cnt + 2 ^ 32 - 1) % 2 ^ 32)

  -- Moves each element of an old bucket to the front of its new one.
  unfoldable pub move_bucket : (bucket_cnt : ℕ) → List ℕ → (ℕ → List ℕ) → ℕ → List ℕ
  move_bucket bucket_cnt [] new = new
  move_bucket bucket_cnt (e ∷ b) new =
      let i = find_bucket bucket_cnt e in move_bucket bucket_cnt b (write_bucket new i (e ∷ new i))

  -- `n` old buckets from `i` on
  unfoldable pub move_buckets :
      (bucket_cnt : ℕ) (old : ℕ → List ℕ) (n i : ℕ) → (ℕ → List ℕ) → ℕ → List ℕ
  move_buckets bucket_cnt old zero i new = new
  move_buckets bucket_cnt old (suc n) i new =
      move_buckets bucket_cnt old n (i + 1) (move_bucket bucket_cnt (old i) new)

  -- rehash with the ideal number of buckets
  unfoldable pub rehash_to : (memory : Bool) → Hash → (bucket_cnt : ℕ) → Hash
  rehash_to memory h n =
      if (n == h.bucket_cnt) || not memory
      then h
      else record h { bucket_cnt = n; buckets = move_buckets n h.buckets h.bucket_cnt 0 (λ i. []) }

  unfoldable pub rehash : (memory : Bool) → Hash → Option Hash
  rehash memory h = do n ← new_bucket_cnt h.elem_cnt; some (rehash_to memory h n)

  -- The table that hash_insert leaves to rehash, `old` being the element that is found
  unfoldable pub add_new : Hash → ℕ → (old : Option ℕ) → Hash
  add_new h new none = insert_elem h (find_bucket h.bucket_cnt new) new
  add_new h new (some old) = h

  unfoldable pub delete_found : (memory : Bool) → Hash → Option ℕ → Option Hash
  delete_found memory h none = some h
  delete_found memory h (some found) = rehash memory (remove_elem h found)

module _ (hash : ℕ → ℕ) (less : ℕ → ℕ → Bool) where
  unfoldable pub hash_find : Hash → ℕ → Option ℕ
  hash_find h e = find_elem less (h.buckets (find_bucket hash h.bucket_cnt e)) e

  unfoldable pub hash_insert : (memory : Bool) → Hash → ℕ → Option (Hash × Option ℕ)
  hash_insert memory h new = do
    let old = hash_find h new
    h ← rehash hash memory (add_new hash h new old)
    some (h, old)

  unfoldable pub hash_replace : (memory : Bool) → Hash → ℕ → Option (Hash × Option ℕ)
  hash_replace memory h new = do
    let old = hash_find h new
    h ← rehash hash memory (insert_elem (drop_old h old) (find_bucket hash h.bucket_cnt new) new)
    some (h, old)

  unfoldable pub hash_delete : (memory : Bool) → Hash → ℕ → Option (Hash × Option ℕ)
  hash_delete memory h e = do
    let found = hash_find h e
    h ← delete_found hash memory h found
    some (h, found)

-- The elements of `n` buckets from `i` on
unfoldable pub all_elems : (buckets : ℕ → List ℕ) (n i : ℕ) → List ℕ
all_elems buckets zero i = []
all_elems buckets (suc n) i = buckets i ++ all_elems buckets n (i + 1)

-- The elements that hash_apply, and hash_clear with a destructor, call their function on, in order
unfoldable pub hash_apply : Hash → List ℕ
hash_apply h = all_elems h.buckets h.bucket_cnt 0

unfoldable pub hash_clear : Hash → Hash
hash_clear h = record h {
  elem_cnt = 0;
  buckets = λ i. if ltb i h.bucket_cnt then [] else h.buckets i;
}

-- `none` is that there is no memory for the buckets, whose lists are not initialised before
unfoldable pub hash_init : (memory : Bool) (buckets : ℕ → List ℕ) → Option Hash
hash_init memory buckets =
    if memory
    then some (hash_clear (record { elem_cnt = 0; bucket_cnt = 4; buckets = buckets }))
    else none

unfoldable pub hash_size : Hash → ℕ
hash_size h = h.elem_cnt

unfoldable pub hash_empty : Hash → Bool
hash_empty h = h.elem_cnt == 0

-- One byte of the Fowler-Noll-Vo hash
abbrev pub fnv_step : ℕ → ℕ → ℕ
fnv_step hash byte = bit_xor (hash * 16777619 % 2 ^ 32) byte

unfoldable pub hash_bytes_from : (hash : ℕ) → List ℕ → ℕ
hash_bytes_from hash [] = hash
hash_bytes_from hash (byte ∷ buf) = hash_bytes_from (fnv_step hash byte) buf

unfoldable pub hash_bytes : List ℕ → ℕ
hash_bytes buf = hash_bytes_from 2166136261 buf

-- The characters up to the null character; `none` is a read past the end
unfoldable pub hash_string_from : (hash : ℕ) → List ℕ → Option ℕ
hash_string_from hash [] = none
hash_string_from hash (c ∷ s) =
    let rest = hash_string_from (fnv_step hash c) s in if c == 0 then some hash else rest

unfoldable pub hash_string : List ℕ → Option ℕ
hash_string s = hash_string_from 2166136261 s

-- The four bytes of an unsigned integer, lowest first
unfoldable pub hash_int : ℕ → ℕ
hash_int i = hash_bytes (i % 256 ∷ i / 256 % 256 ∷ i / 65536 % 256 ∷ i / 16777216 % 256 ∷ [])
