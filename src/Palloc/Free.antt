-- ===== src/Palloc/Free.antt =====
-- palloc_free_multiple takes back what palloc_get_multiple handed out, and panics on pages that
-- are free already.
use pintos_nightmare.Base.{
  ◌==◌, ℕ, suc, ◌+◌, ◌-◌, ◌*◌, ◌≤◌, ◌<◌, ◌≡◌, refl, sym, ◌∙◌, inl, inr, true, false, none, some,
  arith,
}
use pintos_nightmare.Vaddr.{pgsize, pg_ofs, pg_no}
use pintos_nightmare.Bitmap.Range.{
  Uniform, Some, Filled, set_multiple-Filled, all-true, all-Uniform,
}
use pintos_nightmare.Palloc.{Pool, Memory, memset, page_from_pool, free_in, free_multiple}
use pintos_nightmare.Palloc.Get.{IsPool}

-- The kernel pool ends where the user pool starts, as palloc_init lays them out, or before.
pub record IsMemory (m : Memory) : Type 0 where
  pub kernel : IsPool m.kernel_pool
  pub user : IsPool m.user_pool
  pub apart : m.kernel_pool.base + pgsize * m.kernel_pool.used_map.bit_cnt ≤ m.user_pool.base

module _ {p : Pool} (v : IsPool p) (n idx : ℕ) (h : idx + n ≤ p.used_map.bit_cnt) where
  idx_of : pg_no (p.base + pgsize * idx) - pg_no p.base ≡ idx
  idx_of = omega (arith, v.aligned)

  pub free_in-some :
      Uniform p.used_map idx n true
      → (p' : Pool) × (free_in p (p.base + pgsize * idx) n ≡ some p')
        × (p'.base ≡ p.base)
        × Filled p.used_map idx n false p'.used_map
  unfolding free_in
  free_in-some used =
      let (b, e, f) = set_multiple-Filled v.map_valid idx n h false in
      (record p { used_map = b }, rw (idx_of, all-true v.map_valid idx n h used, e) refl, refl, f)

  pub free_in-none : Some p.used_map idx n false → free_in p (p.base + pgsize * idx) n ≡ none
  unfolding free_in
  free_in-none (j, lo, hi, clear) = rw idx_of (elim (all-Uniform v.map_valid idx n h) [
    | inl (_, u) ↦ absurd (cc (sym (u j lo hi) ∙ clear))
    | inr (e, _) ↦ rw e
  ])

module _ {p : Pool} (v : IsPool p) (idx : ℕ) (lt : idx < p.used_map.bit_cnt) where
  from_own : page_from_pool p (p.base + pgsize * idx) ≡ true
  unfolding page_from_pool
  from_own = ground (arith, v.aligned)

  aligned_page : (pg_ofs (p.base + pgsize * idx) == 0) ≡ true
  aligned_page = ground (arith, v.aligned)

  not_null_page : (p.base + pgsize * idx == 0) ≡ false
  not_null_page = ground (arith, v.not_null)

not_from :
    (p q : Pool) (idx : ℕ)
    → IsPool p
    → IsPool q
    → p.base + pgsize * p.used_map.bit_cnt ≤ q.base
    → page_from_pool p (q.base + pgsize * idx) ≡ false
unfolding page_from_pool
not_from p q idx v w h = ground (arith, v.aligned, w.aligned)

suc_not_zero : (k : ℕ) → (suc k == 0) ≡ false
suc_not_zero k = ground arith

module _ (m : Memory) (v : IsMemory m) (k idx : ℕ) where
  -- Freeing pages of the user pool that are in use makes exactly those pages free, fills them with
  -- 0xcc, and leaves the kernel pool alone.
  pub free_multiple-user :
      idx + suc k ≤ m.user_pool.used_map.bit_cnt
      → Uniform m.user_pool.used_map idx (suc k) true
      → (m' : Memory) × (free_multiple (m.user_pool.base + pgsize * idx) (suc k) m ≡ some m')
        × (m'.kernel_pool ≡ m.kernel_pool)
        × (m'.user_pool.base ≡ m.user_pool.base)
        × Filled m.user_pool.used_map idx (suc k) false m'.user_pool.used_map
        × (m'.mem ≡ memset m.mem (m.user_pool.base + pgsize * idx) 0xcc (pgsize * suc k))
  unfolding free_multiple
  free_multiple-user h used =
      let (p, e, same, f) = free_in-some v.user (suc k) idx h used in
      (
        record m {
          user_pool = p;
          mem = memset m.mem (m.user_pool.base + pgsize * idx) 0xcc (pgsize * suc k);
        },
        rw
            (
              aligned_page v.user idx (omega arith),
              not_null_page v.user idx (omega arith),
              suc_not_zero k,
              not_from m.kernel_pool m.user_pool idx v.kernel v.user v.apart,
              from_own v.user idx (omega arith),
              e,
            )
            refl,
        refl,
        same,
        f,
        refl,
      )

  -- The same of the kernel pool.
  pub free_multiple-kernel :
      idx + suc k ≤ m.kernel_pool.used_map.bit_cnt
      → Uniform m.kernel_pool.used_map idx (suc k) true
      → (m' : Memory) × (free_multiple (m.kernel_pool.base + pgsize * idx) (suc k) m ≡ some m')
        × (m'.user_pool ≡ m.user_pool)
        × (m'.kernel_pool.base ≡ m.kernel_pool.base)
        × Filled m.kernel_pool.used_map idx (suc k) false m'.kernel_pool.used_map
        × (m'.mem ≡ memset m.mem (m.kernel_pool.base + pgsize * idx) 0xcc (pgsize * suc k))
  unfolding free_multiple
  free_multiple-kernel h used =
      let (p, e, same, f) = free_in-some v.kernel (suc k) idx h used in
      (
        record m {
          kernel_pool = p;
          mem = memset m.mem (m.kernel_pool.base + pgsize * idx) 0xcc (pgsize * suc k);
        },
        rw
            (
              aligned_page v.kernel idx (omega arith),
              not_null_page v.kernel idx (omega arith),
              suc_not_zero k,
              from_own v.kernel idx (omega arith),
              e,
            )
            refl,
        refl,
        same,
        f,
        refl,
      )

  -- Freeing pages of the kernel pool of which one is free already panics.
  pub free_multiple-none :
      idx + suc k ≤ m.kernel_pool.used_map.bit_cnt
      → Some m.kernel_pool.used_map idx (suc k) false
      → free_multiple (m.kernel_pool.base + pgsize * idx) (suc k) m ≡ none
  unfolding free_multiple
  free_multiple-none h free =
      rw
        (
          aligned_page v.kernel idx (omega arith),
          not_null_page v.kernel idx (omega arith),
          suc_not_zero k,
          from_own v.kernel idx (omega arith),
          free_in-none v.kernel (suc k) idx h free,
        )
        refl
