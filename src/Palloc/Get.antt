-- ===== src/Palloc/Get.antt =====
-- palloc_get_multiple hands out free pages only.
use pintos_nightmare.Base.{
  ◌==◌, if◌then◌else◌, Bool-cases, ◌>>◌, assert, ℕ, suc, ◌+◌, ◌*◌, ◌^◌, ◌≤◌, ◌<◌, ◌≡◌, refl, sym,
  ap, subst, ◌⊎◌, inl, inr, true, false, not, none, some, arith,
}
use pintos_nightmare.Vaddr.{pgsize, pg_ofs}
use pintos_nightmare.Bitmap.{bitmap_error}
use pintos_nightmare.Bitmap.Bits.{IsValid}
use pintos_nightmare.Bitmap.Range.{Filled}
use pintos_nightmare.Bitmap.Scan.{FirstFit, NoFit, scan_and_flip-FirstFit}
use pintos_nightmare.Palloc.{Pool, Flags, Memory, memset, pool_of, with_pool, zeroed, get_multiple}

-- A pool starts at a page boundary above NULL, and ends inside the address space.
pub record IsPool (p : Pool) : Type 0 where
  pub map_valid : IsValid p.used_map
  pub aligned : pg_ofs p.base ≡ 0
  pub not_null : 0 < p.base
  pub inside : p.base + pgsize * p.used_map.bit_cnt ≤ 2 ^ 32

-- What a call of palloc_get_multiple for `n` pages that returns `pages` has done to the pool `p`.
pub record Got (p : Pool) (n pages : ℕ) (p' : Pool) : Type 0 where
  pub index : ℕ
  pub address : pages ≡ p.base + pgsize * index
  pub was_free : FirstFit p.used_map 0 n false index
  pub filled : Filled p.used_map index n true p'.used_map
  pub same_base : p'.base ≡ p.base

-- The memory after the call is that of before, with the pages zeroed if that was asked for.
abbrev pub Contents : Flags → Memory → ℕ → ℕ → Memory → Type 0
Contents flags m n pages m' =
    m'.mem ≡ (if flags.pal_zero then memset m.mem pages 0 (pgsize * n) else m.mem)

abbrev pub other_pool : Flags → Memory → Pool
other_pool flags m = if flags.pal_user then m.kernel_pool else m.user_pool

pool_of-zeroed :
    (flags : Flags) (m : Memory) (p : Pool) (pages n : ℕ)
    → pool_of flags (zeroed flags (with_pool flags m p) pages n) ≡ p
pool_of-zeroed flags m p pages n = ground arith

other_pool-zeroed :
    (flags : Flags) (m : Memory) (p : Pool) (pages n : ℕ)
    → other_pool flags (zeroed flags (with_pool flags m p) pages n) ≡ other_pool flags m
other_pool-zeroed flags m p pages n = ground arith

mem-zeroed :
    (flags : Flags) (m : Memory) (p : Pool) (pages n : ℕ)
    → Contents flags m n pages (zeroed flags (with_pool flags m p) pages n)
mem-zeroed flags m p pages n = elim (Bool-cases flags.pal_zero) [
  | inl z ↦ elim (Bool-cases flags.pal_user) [ inl u ↦ rw (z, u) refl | inr u ↦ rw (z, u) refl ]
  | inr z ↦ elim (Bool-cases flags.pal_user) [ inl u ↦ rw (z, u) refl | inr u ↦ rw (z, u) refl ]
]

with_same : (flags : Flags) (m : Memory) → with_pool flags m (pool_of flags m) ≡ m
with_same flags m = elim (Bool-cases flags.pal_user) [ inl u ↦ rw u refl | inr u ↦ rw u refl ]

module _ (flags : Flags) (m : Memory) (v : IsPool (pool_of flags m)) (k : ℕ) where
  -- From a valid pool palloc_get_multiple of one page or more does one of three things. It returns
  -- the address of the first group of free pages of the pool that PAL_USER names, which are then
  -- in use, with PAL_ZERO zeroed, and it changes no other page and not the other pool; if there is
  -- no such group it returns NULL and changes nothing; or, with PAL_ASSERT, it panics.
  pub get_multiple-Got :
      ((pages : ℕ) × (m' : Memory) × (get_multiple flags (suc k) m ≡ some (m', pages))
        × Got (pool_of flags m) (suc k) pages (pool_of flags m')
        × (other_pool flags m' ≡ other_pool flags m)
        × Contents flags m (suc k) pages m')
      ⊎ ((get_multiple flags (suc k) m ≡ (if flags.pal_assert then none else some (m, 0)))
          × NoFit (pool_of flags m).used_map 0 (suc k) false)
  unfolding get_multiple
  get_multiple-Got = elim (scan_and_flip-FirstFit v.map_valid 0 (suc k) false (omega arith)) [
    | inl (i, b, e, f, r) ↦
        let ne : (i == bitmap_error) ≡ false = ground (arith, v.map_valid.fits, f.fits) in
        let p : Pool = record { used_map = b; base = (pool_of flags m).base } in
        let pages : ℕ = (pool_of flags m).base + pgsize * i in
        let not_null : (pages == 0) ≡ false = ground (arith, v.not_null) in
        let m' : Memory = zeroed flags (with_pool flags m p) pages (suc k) in
        let own = pool_of-zeroed flags m p pages (suc k) in
        inl (
          pages,
          m',
          rw (e, ne, not_null) refl,
          subst (Got (pool_of flags m) (suc k) pages) (sym own)
              (record { index = i; address = refl; was_free = f; filled = r; same_base = refl }),
          other_pool-zeroed flags m p pages (suc k),
          mem-zeroed flags m p pages (suc k),
        )
    | inr (e, n) ↦ inr (rw e (panics (Bool-cases flags.pal_assert)), n)
  ]
    where
      panics :
          (flags.pal_assert ≡ true) ⊎ (flags.pal_assert ≡ false)
          → ◌>>◌ {B = Memory × ℕ}
              (assert (not flags.pal_assert))
              (some (with_pool flags m (pool_of flags m), 0))
            ≡ (if flags.pal_assert then none else some (m, 0))
      panics (inl a) = rw a refl
      panics (inr a) = rw a (ap (λ n. some (n, 0)) (with_same flags m))
