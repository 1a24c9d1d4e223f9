-- ===== src/Bitmap/Single.antt =====
-- The operations on one bit: bitmap_mark, bitmap_reset, bitmap_flip, bitmap_set and bitmap_test.
use pintos_nightmare.Base.{
  lt→ltb, le→ltb_false, length, get_or, get_elem?-eq-some, ℕ, ◌/◌, ◌%◌, ◌≤◌, ◌<◌, ◌≡◌, refl, sym,
  ap, ◌∙◌, subst, Bool, true, false, not, ◌&&◌, ◌||◌, none, some, [], map, arith, xor,
}
use pintos_nightmare.Bitmap.{Bitmap, one_hot, bit_mask, zip_bits, mark, reset, flip, set_bit, test}
use pintos_nightmare.Bitmap.Bits.{
  bit, IsValid, Changed, Local, update-bit, elem_in, elem_full, length-zip_bits, get_or-zip_bits,
  length-one_hot, get_or-one_hot, length-map_not, get_or-map_not, any_bit-one_hot,
}

-- Combining an element with the mask of bit `i` changes that bit only, where `f a false ≡ a`.
mask-Local :
    (i : ℕ) (f : Bool → Bool → Bool)
    → ((a : Bool) → f a false ≡ a)
    → Local i (λ a. f a true) (λ e. zip_bits f e (bit_mask i))
unfolding bit_mask
mask-Local i f unit = record {
  keeps = λ e h. length-zip_bits f e _ (h ∙ sym (length-one_hot 32 (i % 32))) ∙ h;
  at_bit = λ e j h lt. ground (
    arith,
    get_or-zip_bits f e (one_hot 32 (i % 32)) j (h ∙ sym (length-one_hot 32 (i % 32)))
        (omega arith),
    get_or-one_hot 32 (i % 32) j lt,
    unit (get_or e j false),
  );
}

clear-Local : (i : ℕ) → Local i (λ a. false) (λ e. zip_bits ◌&&◌ e (map not (bit_mask i)))
unfolding bit_mask
clear-Local i = record {
  keeps = λ e h. length-zip_bits ◌&&◌ e _ (h ∙ sym (mask_length)) ∙ h;
  at_bit = λ e j h lt. ground (
    arith,
    get_or-zip_bits ◌&&◌ e (map not (one_hot 32 (i % 32))) j (h ∙ sym mask_length) (omega arith),
    get_or-map_not (one_hot 32 (i % 32)) j (omega (arith, length-one_hot 32 (i % 32))),
    get_or-one_hot 32 (i % 32) j lt,
  );
}
  where
    mask_length : length (map not (one_hot 32 (i % 32))) ≡ 32
    mask_length = length-map_not (one_hot 32 (i % 32)) ∙ length-one_hot 32 (i % 32)

or-false : (a : Bool) → (a || false) ≡ a
or-false true = refl
or-false false = refl

or-true : (a : Bool) → (a || true) ≡ true
or-true true = refl
or-true false = refl

xor-false : (a : Bool) → xor a false ≡ a
unfolding xor
xor-false true = refl
xor-false false = refl

xor-true : (a : Bool) → xor a true ≡ not a
unfolding xor
xor-true true = refl
xor-true false = refl

module _ {b : Bitmap} (v : IsValid b) (i : ℕ) (lt : i < b.bit_cnt) where
  pub mark-Changed : (b' : Bitmap) × (mark b i ≡ some b') × Changed b i true b'
  unfolding mark
  mark-Changed =
      let (b', e, c) = update-bit v i lt (λ a. a || true) _ (mask-Local i ◌||◌ or-false) in
      (b', e, subst (λ w. Changed b i w b') (or-true (bit b i)) c)

  pub reset-Changed : (b' : Bitmap) × (reset b i ≡ some b') × Changed b i false b'
  unfolding reset
  reset-Changed = update-bit v i lt (λ a. false) _ (clear-Local i)

  -- bitmap_flip turns bit `i` over, and leaves every other bit as it was.
  pub flip-Changed : (b' : Bitmap) × (flip b i ≡ some b') × Changed b i (not (bit b i)) b'
  unfolding flip
  flip-Changed =
      let (b', e, c) = update-bit v i lt (λ a. xor a true) _ (mask-Local i xor xor-false) in
      (b', e, subst (λ w. Changed b i w b') (xor-true (bit b i)) c)

  pub set_bit-Changed : (w : Bool) → (b' : Bitmap) × (set_bit b i w ≡ some b') × Changed b i w b'
  unfolding set_bit
  set_bit-Changed true = let (b', e, c) = mark-Changed in (b', rw (lt→ltb _ _ lt) e, c)
  set_bit-Changed false = let (b', e, c) = reset-Changed in (b', rw (lt→ltb _ _ lt) e, c)

  pub test-bit : test b i ≡ some (bit b i)
  unfolding test bit_mask
  test-bit =
      rw (lt→ltb _ _ lt, get_elem?-eq-some b.bits (i / 32) [] (elem_in v i lt))
        (ap some (any_bit-one_hot _ 32 (i % 32) (elem_full v i lt) (omega arith)))

-- Past the end bitmap_set and bitmap_test panic.
pub set_bit-none : (b : Bitmap) (i : ℕ) (w : Bool) → b.bit_cnt ≤ i → set_bit b i w ≡ none
unfolding set_bit
set_bit-none b i w h = rw (le→ltb_false _ _ h)
