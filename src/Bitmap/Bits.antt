-- ===== src/Bitmap/Bits.antt =====
-- The bits of a bitmap as a function of their number, and what the operations on one bit and on a
-- range do to them.
use pintos_nightmare.Base.{
  ◌==◌, if◌then◌else◌, length, get_or, set, replicate, length-set, length-replicate,
  get_elem?-eq-some, ℕ, zero, suc, ◌/◌, ◌%◌, ◌<◌, ◌≡◌, refl, ap, ◌∙◌, Bool, true, false, not, ◌&&◌,
  some, List, [], ◌∷◌, map, arith,
}
use pintos_nightmare.Bitmap.{
  Elem, Bitmap, bitmap_error, elem_cnt, one_hot, zip_bits, any_bit, update,
}

-- Bit `i` of `b`.
abbrev pub bit : Bitmap → ℕ → Bool
bit b i = get_or (get_or b.bits (i / 32) []) (i % 32) false

abbrev AllFull : List Elem → Type 0
AllFull [] = Unit
AllFull (e ∷ es) = (length e ≡ 32) × AllFull es

pub record IsValid (b : Bitmap) : Type 0 where
  pub fits : b.bit_cnt < bitmap_error
  pub sized : length b.bits ≡ elem_cnt b.bit_cnt
  pub full : AllFull b.bits

full_get : (es : List Elem) (k : ℕ) → AllFull es → k < length es → length (get_or es k []) ≡ 32
full_get [] k h lt = elim lt [ ]
full_get (e ∷ es) zero h lt = h.0
full_get (e ∷ es) (suc k) h lt = full_get es k h.1 (omega arith)

AllFull-set :
    (es : List Elem) (k : ℕ) (e : Elem) → AllFull es → length e ≡ 32 → AllFull (set es k e)
AllFull-set [] k e h l = tt
AllFull-set (x ∷ es) zero e h l = (l, h.1)
AllFull-set (x ∷ es) (suc k) e h l = (h.0, AllFull-set es k e h.1 l)

pub length-zip_bits :
    (f : Bool → Bool → Bool) (x y : Elem) → length x ≡ length y → length (zip_bits f x y) ≡ length x
unfolding zip_bits
length-zip_bits f [] y h = refl
length-zip_bits f (a ∷ x) [] h = absurd (omega arith)
length-zip_bits f (a ∷ x) (b ∷ y) h = omega (arith, length-zip_bits f x y)

pub get_or-zip_bits :
    (f : Bool → Bool → Bool) (x y : Elem) (k : ℕ)
    → length x ≡ length y
    → k < length x
    → get_or (zip_bits f x y) k false ≡ f (get_or x k false) (get_or y k false)
unfolding zip_bits
get_or-zip_bits f [] y k h lt = elim lt [ ]
get_or-zip_bits f (a ∷ x) [] k h lt = absurd (omega arith)
get_or-zip_bits f (a ∷ x) (b ∷ y) zero h lt = refl
get_or-zip_bits f (a ∷ x) (b ∷ y) (suc k) h lt = get_or-zip_bits f x y k (omega arith) (omega arith)

pub length-one_hot : (n k : ℕ) → length (one_hot n k) ≡ n
unfolding one_hot
length-one_hot zero k = refl
length-one_hot (suc n) zero = omega (arith, length-replicate n false)
length-one_hot (suc n) (suc k) = omega (arith, length-one_hot n k)

get_or-replicate-false : (n k : ℕ) → get_or (replicate n false) k false ≡ false
get_or-replicate-false zero k = refl
get_or-replicate-false (suc n) zero = refl
get_or-replicate-false (suc n) (suc k) = get_or-replicate-false n k

pub get_or-one_hot : (n k j : ℕ) → j < n → get_or (one_hot n k) j false ≡ (k == j)
unfolding one_hot
get_or-one_hot zero k j h = elim h [ ]
get_or-one_hot (suc n) zero zero h = refl
get_or-one_hot (suc n) zero (suc j) h = ground (arith, get_or-replicate-false n j)
get_or-one_hot (suc n) (suc k) zero h = ground arith
get_or-one_hot (suc n) (suc k) (suc j) h = ground (arith, get_or-one_hot n k j)

pub length-map_not : (x : Elem) → length (map not x) ≡ length x
length-map_not [] = refl
length-map_not (a ∷ x) = ap suc (length-map_not x)

pub get_or-map_not :
    (x : Elem) (k : ℕ) → k < length x → get_or (map not x) k false ≡ not (get_or x k false)
get_or-map_not [] k h = elim h [ ]
get_or-map_not (a ∷ x) zero h = refl
get_or-map_not (a ∷ x) (suc k) h = get_or-map_not x k (omega arith)

get_or-set :
    {A : Type 0} (xs : List A) (i j : ℕ) (v d : A)
    → i < length xs
    → get_or (set xs i v) j d ≡ (if i == j then v else get_or xs j d)
get_or-set [] i j v d h = elim h [ ]
get_or-set (x ∷ xs) zero zero v d h = refl
get_or-set (x ∷ xs) zero (suc j) v d h = ground arith
get_or-set (x ∷ xs) (suc i) zero v d h = ground arith
get_or-set (x ∷ xs) (suc i) (suc j) v d h = ground (arith, get_or-set xs i j v d (omega arith))

any_bit-replicate : (x : Elem) (n : ℕ) → any_bit (zip_bits ◌&&◌ x (replicate n false)) ≡ false
unfolding any_bit zip_bits
any_bit-replicate [] n = refl
any_bit-replicate (a ∷ x) zero = refl
any_bit-replicate (true ∷ x) (suc n) = any_bit-replicate x n
any_bit-replicate (false ∷ x) (suc n) = any_bit-replicate x n

pub any_bit-one_hot :
    (x : Elem) (n k : ℕ)
    → length x ≡ n
    → k < n
    → any_bit (zip_bits ◌&&◌ x (one_hot n k)) ≡ get_or x k false
unfolding any_bit zip_bits one_hot
any_bit-one_hot [] zero k h lt = elim lt [ ]
any_bit-one_hot [] (suc n) k h lt = absurd (omega arith)
any_bit-one_hot (a ∷ x) zero k h lt = elim lt [ ]
any_bit-one_hot (true ∷ x) (suc n) zero h lt = refl
any_bit-one_hot (false ∷ x) (suc n) zero h lt = any_bit-replicate x n
any_bit-one_hot (true ∷ x) (suc n) (suc k) h lt = any_bit-one_hot x n k (omega arith) (omega arith)
any_bit-one_hot (false ∷ x) (suc n) (suc k) h lt = any_bit-one_hot x n k (omega arith) (omega arith)

-- `b'` is `b` with bit `i` made `v`, and no other bit changed.
pub record Changed (b : Bitmap) (i : ℕ) (v : Bool) (b' : Bitmap) : Type 0 where
  pub valid : IsValid b'
  pub same_cnt : b'.bit_cnt ≡ b.bit_cnt
  pub now : (j : ℕ) → bit b' j ≡ (if i == j then v else bit b j)

-- What a change of one element does to that element's bits.
pub record Local (i : ℕ) (g : Bool → Bool) (f : Elem → Elem) : Type 0 where
  pub keeps : (e : Elem) → length e ≡ 32 → length (f e) ≡ 32
  pub at_bit :
      (e : Elem) (j : ℕ)
      → length e ≡ 32
      → j < 32
      → get_or (f e) j false ≡ (if i % 32 == j then g (get_or e j false) else get_or e j false)

module _ {b : Bitmap} (v : IsValid b) (i : ℕ) (lt : i < b.bit_cnt) where
  pub elem_in : i / 32 < length b.bits
  elem_in = omega (arith, v.sized)

  pub elem_full : length (get_or b.bits (i / 32) []) ≡ 32
  elem_full = full_get b.bits (i / 32) v.full elem_in

  pub update-bit :
      (g : Bool → Bool) (f : Elem → Elem)
      → Local i g f
      → (b' : Bitmap) × (update b (i / 32) f ≡ some b') × Changed b i (g (bit b i)) b'
  unfolding update
  update-bit g f l = (
    record b { bits = set b.bits (i / 32) (f (get_or b.bits (i / 32) [])) },
    rw (get_elem?-eq-some b.bits (i / 32) [] elem_in),
    record {
      valid = record {
        fits = v.fits;
        sized = length-set b.bits (i / 32) _ ∙ v.sized;
        full = AllFull-set b.bits (i / 32) _ v.full (l.keeps _ elem_full);
      };
      same_cnt = refl;
      now = λ j. ground (
        arith,
        get_or-set b.bits (i / 32) (j / 32) (f (get_or b.bits (i / 32) [])) [] elem_in,
        l.at_bit (get_or b.bits (i / 32) []) (j % 32) elem_full (omega arith),
      );
    },
  )
