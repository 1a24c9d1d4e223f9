-- ===== src/Bitmap.antt =====
-- lib/kernel/bitmap.c: a packed array of bits. An element is a machine word of 32 bits, written
-- as the list of its bits, the lowest first. `none` is a failed ASSERT, or an element past the end
-- of the array.
pub mod Bits
pub mod Single
pub mod Range
pub mod Scan
use pintos_nightmare.Base.{
  ltb, leb, ◌==◌, eq_bool, if◌then◌else◌, get_elem?, set, replicate, ◌>>=◌, ◌>>◌, assert, ℕ, zero,
  suc, ◌+◌, ◌-◌, ◌*◌, ◌/◌, ◌%◌, ◌^◌, Bool, true, false, not, ◌&&◌, ◌||◌, Option, none, some, List,
  [], ◌∷◌, map, xor,
}

abbrev pub Elem : Type 0
Elem = List Bool

-- ELEM_BITS: an unsigned long has 4 bytes on the i386.
abbrev pub elem_bits : ℕ
elem_bits = 32

pub record Bitmap : Type 0 where
  pub bit_cnt : ℕ
  pub bits : List Elem

-- The element that holds bit `bit_idx`.
abbrev pub elem_idx : ℕ → ℕ
elem_idx bit_idx = bit_idx / elem_bits

-- `1 << k` as an element: all bits 0 but bit `k`
unfoldable pub one_hot : ℕ → ℕ → Elem
one_hot zero k = []
one_hot (suc n) zero = true ∷ replicate n false
one_hot (suc n) (suc k) = false ∷ one_hot n k

-- `(elem_type) 1 << (bit_idx % ELEM_BITS)`
unfoldable pub bit_mask : ℕ → Elem
unfolding one_hot
bit_mask bit_idx = one_hot elem_bits (bit_idx % elem_bits)

-- DIV_ROUND_UP (bit_cnt, ELEM_BITS)
abbrev pub elem_cnt : ℕ → ℕ
elem_cnt bit_cnt = (bit_cnt + elem_bits - 1) / elem_bits

abbrev pub byte_cnt : ℕ → ℕ
byte_cnt bit_cnt = 4 * elem_cnt bit_cnt

-- BITMAP_ERROR, which is SIZE_MAX
abbrev pub bitmap_error : ℕ
bitmap_error = 2 ^ 32 - 1

unfoldable pub zip_bits : (Bool → Bool → Bool) → Elem → Elem → Elem
zip_bits f (a ∷ x) (b ∷ y) = f a b ∷ zip_bits f x y
zip_bits f [] y = []
zip_bits f (a ∷ x) [] = []

unfoldable pub any_bit : Elem → Bool
any_bit [] = false
any_bit (a ∷ x) = a || any_bit x

-- `b->bits[idx] = f(b->bits[idx])`
unfoldable pub update : Bitmap → ℕ → (Elem → Elem) → Option Bitmap
update b idx f = do e ← get_elem? b.bits idx; some (record b { bits = set b.bits idx (f e) })

unfoldable pub mark : Bitmap → ℕ → Option Bitmap
unfolding update zip_bits
mark b bit_idx = update b (elem_idx bit_idx) (λ e. zip_bits ◌||◌ e (bit_mask bit_idx))

unfoldable pub reset : Bitmap → ℕ → Option Bitmap
unfolding update zip_bits
reset b bit_idx = update b (elem_idx bit_idx) (λ e. zip_bits ◌&&◌ e (map not (bit_mask bit_idx)))

unfoldable pub flip : Bitmap → ℕ → Option Bitmap
unfolding update zip_bits
flip b bit_idx = update b (elem_idx bit_idx) (λ e. zip_bits xor e (bit_mask bit_idx))

-- bitmap_set
unfoldable pub set_bit : Bitmap → ℕ → Bool → Option Bitmap
set_bit b idx value = do assert (ltb idx b.bit_cnt); if value then mark b idx else reset b idx

unfoldable pub test : Bitmap → ℕ → Option Bool
unfolding zip_bits any_bit
test b idx = do
  assert (ltb idx b.bit_cnt)
  e ← get_elem? b.bits (elem_idx idx)
  some (any_bit (zip_bits ◌&&◌ e (bit_mask idx)))

-- The ASSERTs on a range; the sum is a size_t.
unfoldable pub in_range : Bitmap → ℕ → ℕ → Option (Unit {0})
in_range b start cnt = do
  assert (leb start b.bit_cnt)
  assert (leb ((start + cnt) % 2 ^ 32) b.bit_cnt)

-- `n` rounds are left, the next at bit `i`.
unfoldable pub set_loop : ℕ → Bitmap → ℕ → Bool → Option Bitmap
set_loop zero b i value = some b
set_loop (suc n) b i value = do b ← set_bit b i value; set_loop n b (i + 1) value

unfoldable pub set_multiple : Bitmap → ℕ → ℕ → Bool → Option Bitmap
unfolding in_range set_loop
set_multiple b start cnt value = do in_range b start cnt; set_loop cnt b start value

unfoldable pub set_all : Bitmap → Bool → Option Bitmap
set_all b value = set_multiple b 0 b.bit_cnt value

unfoldable pub count_loop : ℕ → Bitmap → ℕ → Bool → ℕ → Option ℕ
count_loop zero b i value value_cnt = some value_cnt
count_loop (suc n) b i value value_cnt = do
  t ← test b i
  count_loop n b (i + 1) value (if eq_bool t value then value_cnt + 1 else value_cnt)

unfoldable pub count : Bitmap → ℕ → ℕ → Bool → Option ℕ
unfolding in_range count_loop
count b start cnt value = do in_range b start cnt; count_loop cnt b start value 0

unfoldable pub contains_loop : ℕ → Bitmap → ℕ → Bool → Option Bool
contains_loop zero b i value = some false
contains_loop (suc n) b i value = do
  t ← test b i
  let rest = contains_loop n b (i + 1) value
  if eq_bool t value then some true else rest

unfoldable pub contains : Bitmap → ℕ → ℕ → Bool → Option Bool
unfolding in_range contains_loop
contains b start cnt value = do in_range b start cnt; contains_loop cnt b start value

unfoldable pub any : Bitmap → ℕ → ℕ → Option Bool
any b start cnt = contains b start cnt true

-- bitmap_none
unfoldable pub none_set : Bitmap → ℕ → ℕ → Option Bool
none_set b start cnt = do r ← contains b start cnt true; some (not r)

unfoldable pub all : Bitmap → ℕ → ℕ → Option Bool
all b start cnt = do r ← contains b start cnt false; some (not r)

-- `i <= last` holds for `n` more rounds.
unfoldable pub scan_loop : ℕ → Bitmap → ℕ → ℕ → Bool → Option ℕ
scan_loop zero b i cnt value = some bitmap_error
scan_loop (suc n) b i cnt value = do
  r ← contains b i cnt (not value)
  let rest = scan_loop n b (i + 1) cnt value
  if r then rest else some i

unfoldable pub scan : Bitmap → ℕ → ℕ → Bool → Option ℕ
unfolding scan_loop
scan b start cnt value = do
  assert (leb start b.bit_cnt)
  if leb cnt b.bit_cnt
      then scan_loop (b.bit_cnt - cnt + 1 - start) b start cnt value
      else some bitmap_error

unfoldable pub scan_and_flip : Bitmap → ℕ → ℕ → Bool → Option (ℕ × Bitmap)
scan_and_flip b start cnt value = do
  idx ← scan b start cnt value
  if idx == bitmap_error
      then some (idx, b)
      else do b ← set_multiple b idx cnt (not value); some (idx, b)

-- bitmap_create; `malloc` tells whether memory is left for the struct and for the elements, and
-- `garbage` is what the new elements hold.
unfoldable pub create :
    (struct_ok bits_ok : Bool) → (garbage : List Elem) → ℕ → Option (Option Bitmap)
create struct_ok bits_ok garbage bit_cnt =
    if struct_ok && (bits_ok || bit_cnt == 0)
    then (do b ← set_all (record { bit_cnt = bit_cnt; bits = garbage }) false; some (some b))
    else some none

-- bitmap_buf_size; the struct takes 8 bytes.
unfoldable pub buf_size : ℕ → ℕ
buf_size bit_cnt = 8 + byte_cnt bit_cnt

unfoldable pub create_in_buf : ℕ → (garbage : List Elem) → (block_size : ℕ) → Option Bitmap
create_in_buf bit_cnt garbage block_size = do
  assert (leb (buf_size bit_cnt) block_size)
  set_all (record { bit_cnt = bit_cnt; bits = garbage }) false
