-- ===== src/Text/Move.antt =====
-- Copying memory: memmove copies the bytes that were there before, wherever the blocks lie.
use pintos_nightmare.Base.{
  ltb, leb, ◌==◌, if◌then◌else◌, ltb→lt, ==_iff, Bool-cases, if_false, if_true, ℕ, zero, suc, ◌+◌,
  ◌-◌, ◌≤◌, ◌<◌, ◌≡◌, refl, sym, ◌≢◌, ◌⊎◌, inl, inr, true, not, ◌&&◌, ◌||◌, none, some, arith,
}
use pintos_nightmare.Text.{poke, copy_up, copy_down, memmove}

-- The memory after the `size` bytes at `dst` have become those that were at `src`
abbrev pub moved : (dst src size : ℕ) → (ℕ → ℕ) → ℕ → ℕ
moved dst src size mem k = if leb dst k && ltb k (dst + size) then mem (k - dst + src) else mem k

copy_up-moved :
    (size dst src : ℕ) (mem : ℕ → ℕ)
    → dst < src ⊎ (src + size ≤ dst)
    → (k : ℕ) → copy_up size dst src mem k ≡ moved dst src size mem k
unfolding copy_up
copy_up-moved zero dst src mem apart k = ground arith
copy_up-moved (suc n) dst src mem apart k =
    ground (arith, copy_up-moved n (dst + 1) (src + 1) (poke mem dst (mem src)) (next apart) k)
  where
    next : dst < src ⊎ (src + suc n ≤ dst) → dst + 1 < src + 1 ⊎ (src + 1 + n ≤ dst + 1)
    next h = omega arith

copy_down-moved :
    (size dst src : ℕ) (mem : ℕ → ℕ)
    → src ≤ dst
    → (k : ℕ) → copy_down size (dst + size) (src + size) mem k ≡ moved dst src size mem k
unfolding copy_down
copy_down-moved zero dst src mem below k = ground arith
copy_down-moved (suc n) dst src mem below k =
    rw (back dst, back src)
      (ground (arith, copy_down-moved n dst src (poke mem (dst + n) (mem (src + n))) below k))
  where
    back : (p : ℕ) → p + suc n - 1 ≡ p + n
    back p = omega arith

-- memmove makes the bytes at `dst` those that were at `src` before, and leaves every other byte
-- alone, whether or not the blocks overlap; the pointer that it returns is `dst` only where `dst` is
-- not below `src`, and is the end of the block otherwise. It fails an ASSERT exactly when
-- there are bytes to copy and a pointer is NULL.
pub memmove-moved :
    (dst src size : ℕ) (mem : ℕ → ℕ)
    → (((size ≡ 0) ⊎ ((dst ≢ 0) × (src ≢ 0)))
        × ((mem' : ℕ → ℕ) × (p : ℕ) × (memmove dst src size mem ≡ some (mem', p))
            × ((k : ℕ) → mem' k ≡ moved dst src size mem k)
            × (p ≡ (if ltb dst src then dst + size else dst))))
      ⊎ ((0 < size) × ((dst ≡ 0) ⊎ (src ≡ 0)) × (memmove dst src size mem ≡ none))
unfolding memmove
memmove-moved dst src size mem = elim (Bool-cases (size == 0)) [
  | inl z ↦ inl (inl ((==_iff size 0).0 z), runs (ground (arith, z)) (ground (arith, z)))
  | inr n ↦ elim (Bool-cases (dst == 0)) [
    | inl d ↦ inr (ground (arith, n), inl ((==_iff dst 0).0 d), rw (d, n) refl)
    | inr d ↦ elim (Bool-cases (src == 0)) [
      | inl s ↦ inr (ground (arith, n), inr ((==_iff src 0).0 s), rw (d, s, n) refl)
      | inr s ↦ inl (
        inr ((λ e. ground (arith, d, e)), (λ e. ground (arith, s, e))),
        runs (ground (arith, d)) (ground (arith, s)),
      )
    ]
  ]
]
  where
    runs :
        (not (dst == 0) || size == 0) ≡ true
        → (not (src == 0) || size == 0) ≡ true
        → (mem' : ℕ → ℕ) × (p : ℕ) × (memmove dst src size mem ≡ some (mem', p))
          × ((k : ℕ) → mem' k ≡ moved dst src size mem k)
          × (p ≡ (if ltb dst src then dst + size else dst))
    runs d s = elim (Bool-cases (ltb dst src)) [
      | inl lower ↦ (
        copy_up size dst src mem,
        dst + size,
        rw (d, s, lower) refl,
        copy_up-moved size dst src mem (inl (ltb→lt dst src lower)),
        sym (if_true _ _ lower),
      )
      | inr upper ↦ (
        copy_down size (dst + size) (src + size) mem,
        dst,
        rw (d, s, upper) refl,
        copy_down-moved size dst src mem (ground (arith, upper)),
        sym (if_false _ _ upper),
      )
    ]
