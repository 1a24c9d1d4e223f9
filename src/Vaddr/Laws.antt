-- ===== src/Vaddr/Laws.antt =====
-- Addresses split into page directory index, page table index and offset; entries give back the
-- page that they were made from.
use pintos_nightmare.Base.{
  ◌==◌, lt→ltb, le→leb, ℕ, ◌+◌, ◌-◌, ◌*◌, ◌/◌, ◌^◌, ◌≤◌, ◌<◌, ◌≡◌, refl, ap, Bool, true, false,
  some, arith,
}
use pintos_nightmare.Vaddr.{
  pgsize, phys_base, pg_ofs, pg_round_up, pg_round_down, pt_no, pd_no, ptov, vtop, Entry,
  pte_create_user, pte_create_kernel, pte_get_page, pde_create, pde_get_pt,
}

-- pg_round_down and pg_round_up give the nearest page boundaries around an address, unless
-- rounding up would leave the 32-bit address space.
pub pg_round_bounds :
    (va : ℕ)
    → va + pgsize ≤ 2 ^ 32
    → (pg_ofs (pg_round_down va) ≡ 0)
      × (pg_ofs (pg_round_up va) ≡ 0)
      × (pg_round_down va ≤ va)
      × (va < pg_round_down va + pgsize)
      × (va ≤ pg_round_up va)
      × (pg_round_up va < va + pgsize)
unfolding pg_round_down pg_round_up
pg_round_bounds va h = omega arith

-- The three fields of a 32-bit address lie in their ranges, and determine it.
pub vaddr_fields :
    (va : ℕ)
    → va < 2 ^ 32
    → (pd_no va < 2 ^ 10)
      × (pt_no va < 2 ^ 10)
      × (va ≡ pd_no va * 2 ^ 22 + pt_no va * 2 ^ 12 + pg_ofs va)
vaddr_fields va h = omega arith

module _ (page : ℕ) (aligned : pg_ofs page ≡ 0) (kernel : phys_base ≤ page)
    (small : page < 2 ^ 32) where
  vtop-some : vtop page ≡ some (page - phys_base)
  unfolding vtop
  vtop-some = rw (le→leb phys_base page kernel)

  ptov-frame : ptov ((page - phys_base) / pgsize * pgsize) ≡ some page
  unfolding ptov
  ptov-frame =
      rw (lt→ltb ((page - phys_base) / pgsize * pgsize) phys_base (omega arith))
        (ap some (omega arith))

  is_aligned : (pg_ofs page == 0) ≡ true
  is_aligned = ground arith

  -- A page table entry for a page of kernel memory points to that page, and grants the user the
  -- access that was asked for.
  pub pte_get_page-create :
      (writable : Bool)
      → (e : Entry) × (pte_create_user page writable ≡ some e)
        × (pte_get_page e ≡ some page)
        × (e.present ≡ true)
        × (e.user ≡ true)
        × (e.writable ≡ writable)
  unfolding pte_create_user pte_create_kernel pte_get_page
  pte_get_page-create writable = (
    record {
      frame = (page - phys_base) / pgsize;
      present = true;
      writable = writable;
      user = true;
      accessed = false;
      dirty = false;
    },
    rw (is_aligned, vtop-some) refl,
    ptov-frame,
    refl,
    refl,
    refl,
  )

  pub pde_get_pt-create :
      (e : Entry) × (pde_create page ≡ some e) × (pde_get_pt e ≡ some page) × (e.present ≡ true)
  unfolding pde_create pde_get_pt
  pde_get_pt-create = (
    record {
      frame = (page - phys_base) / pgsize;
      present = true;
      writable = true;
      user = true;
      accessed = false;
      dirty = false;
    },
    rw (is_aligned, vtop-some) refl,
    ptov-frame,
    refl,
  )
