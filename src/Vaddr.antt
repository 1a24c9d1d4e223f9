-- ===== src/Vaddr.antt =====
-- threads/vaddr.h and threads/pte.h: virtual addresses and page table entries. An address is a
-- number below 2 ^ 32. `none` is a failed ASSERT.
pub mod Laws
use pintos_nightmare.Base.{
  ltb, leb, ◌==◌, ◌>>=◌, ◌>>◌, assert, ℕ, ◌+◌, ◌-◌, ◌*◌, ◌/◌, ◌%◌, ◌^◌, Bool, true, false, Option,
  some,
}

abbrev pub pgsize : ℕ
pgsize = 4096

-- LOADER_PHYS_BASE
abbrev pub phys_base : ℕ
phys_base = 0xc000_0000

abbrev pub pg_ofs : ℕ → ℕ
pg_ofs va = va % pgsize

abbrev pub pg_no : ℕ → ℕ
pg_no va = va / pgsize

-- `(va + PGSIZE - 1) & ~PGMASK`, in 32 bits
unfoldable pub pg_round_up : ℕ → ℕ
pg_round_up va = (va + pgsize - 1) % 2 ^ 32 / pgsize * pgsize

unfoldable pub pg_round_down : ℕ → ℕ
pg_round_down va = va / pgsize * pgsize

abbrev pub is_user_vaddr : ℕ → Bool
is_user_vaddr va = ltb va phys_base

abbrev pub is_kernel_vaddr : ℕ → Bool
is_kernel_vaddr va = leb phys_base va

unfoldable pub ptov : ℕ → Option ℕ
ptov paddr = do assert (ltb paddr phys_base); some ((paddr + phys_base) % 2 ^ 32)

unfoldable pub vtop : ℕ → Option ℕ
vtop va = do assert (is_kernel_vaddr va); some (va - phys_base)

-- Bits 12 to 21, and bits 22 to 31.
abbrev pub pt_no : ℕ → ℕ
pt_no va = va / 2 ^ 12 % 2 ^ 10

abbrev pub pd_no : ℕ → ℕ
pd_no va = va / 2 ^ 22

-- The flag bits P, W, U, A and D of an entry, and its address bits.
pub record Entry : Type 0 where
  pub frame : ℕ  -- bits 12 to 31
  pub present : Bool
  pub writable : Bool
  pub user : Bool
  pub accessed : Bool
  pub dirty : Bool

-- An entry that is 0.
abbrev pub no_entry : Entry
no_entry = record {
  frame = 0;
  present = false;
  writable = false;
  user = false;
  accessed = false;
  dirty = false;
}

-- pte_create_kernel
unfoldable pub pte_create_kernel : ℕ → Bool → Option Entry
unfolding vtop
pte_create_kernel page writable = do
  assert (pg_ofs page == 0)
  paddr ← vtop page
  some (record no_entry { frame = paddr / pgsize; present = true; writable = writable })

unfoldable pub pte_create_user : ℕ → Bool → Option Entry
unfolding pte_create_kernel
pte_create_user page writable = do
  e ← pte_create_kernel page writable
  some (record e { user = true })

unfoldable pub pde_create : ℕ → Option Entry
unfolding vtop
pde_create pt = do
  assert (pg_ofs pt == 0)
  paddr ← vtop pt
  some (record no_entry { frame = paddr / pgsize; present = true; writable = true; user = true })

-- pte_get_page
unfoldable pub pte_get_page : Entry → Option ℕ
unfolding ptov
pte_get_page e = ptov (e.frame * pgsize)

unfoldable pub pde_get_pt : Entry → Option ℕ
unfolding ptov
pde_get_pt e = do assert e.present; ptov (e.frame * pgsize)
