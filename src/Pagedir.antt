-- ===== src/Pagedir.antt =====
-- userprog/pagedir.c: the page directory of a process and its page tables. `pd` is the directory
-- by its index; a page table stands at a kernel address, and `table` is what the tables hold, by
-- address and index. An entry is that of Vaddr. The directory is not the kernel's own, init_page_dir,
-- and what the TLB holds is not modelled. `none` is a failed ASSERT.
pub mod Entries
pub mod Laws
use pintos_nightmare.Base.{
  ltb, ◌==◌, if◌then◌else◌, ◌>>=◌, ◌>>◌, assert, ℕ, zero, suc, ◌+◌, ◌/◌, Bool, true, false, not,
  ◌&&◌, ◌||◌, Option, none, some, List, [], ◌∷◌, ◌++◌,
}
use pintos_nightmare.Vaddr.{
  Entry, no_entry, pgsize, pg_ofs, pt_no, pd_no, phys_base, is_user_vaddr, vtop, pte_create_user,
  pde_create, pte_get_page, pde_get_pt,
}

pub record PageDir : Type 0 where
  pub pd : ℕ → Entry
  pub table : ℕ → ℕ → Entry

-- `*pde == 0`
unfoldable pub is_zero : Entry → Bool
is_zero e =
    (e.frame == 0) && not e.present && not e.writable && not e.user && not e.accessed && not e.dirty

-- A page table entry, by the address of its table and its index
abbrev pub Slot : Type 0
Slot = ℕ × ℕ

abbrev pub write_pd : (ℕ → Entry) → ℕ → Entry → ℕ → Entry
write_pd pd i e k = if k == i then e else pd k

abbrev pub write_table : (ℕ → ℕ → Entry) → ℕ → ℕ → Entry → ℕ → ℕ → Entry
write_table table pt i e p k = if (p == pt) && (k == i) then e else table p k

-- A new page table: a page of zeros
abbrev pub zero_table : (ℕ → ℕ → Entry) → ℕ → ℕ → ℕ → Entry
zero_table table pt p k = if p == pt then no_entry else table p k

-- The page table that is created where the directory has none; `fresh` is what
-- palloc_get_page (PAL_ZERO) returns.
unfoldable pub new_table :
    (fresh : Option ℕ) → (vaddr : ℕ) → PageDir → Option (PageDir × Option Slot)
new_table none vaddr m = some (m, none)
new_table (some pt) vaddr m = do
  pde ← pde_create pt
  pt' ← pde_get_pt pde
  some (
    record m { pd = write_pd m.pd (pd_no vaddr) pde; table = zero_table m.table pt },
    some (pt', pt_no vaddr),
  )

unfoldable pub lookup_page :
    (fresh : Option ℕ) → (vaddr : ℕ) (create : Bool) → PageDir → Option (PageDir × Option Slot)
lookup_page fresh vaddr create m = do
  assert (not create || is_user_vaddr vaddr)
  if is_zero (m.pd (pd_no vaddr))
      then (if create then new_table fresh vaddr m else some (m, none))
      else (do pt ← pde_get_pt (m.pd (pd_no vaddr)); some (m, some (pt, pt_no vaddr)))

unfoldable pub map_slot :
    (kpage : ℕ) (writable : Bool) → PageDir → Option Slot → Option (PageDir × Bool)
map_slot kpage writable m none = some (m, false)
map_slot kpage writable m (some (pt, i)) = do
  assert (not (m.table pt i).present)
  pte ← pte_create_user kpage writable
  some (record m { table = write_table m.table pt i pte }, true)

unfoldable pub pagedir_set_page :
    (init_ram_pages : ℕ) (fresh : Option ℕ) (upage kpage : ℕ) (writable : Bool)
    → PageDir
    → Option (PageDir × Bool)
pagedir_set_page init_ram_pages fresh upage kpage writable m = do
  assert (pg_ofs upage == 0)
  assert (pg_ofs kpage == 0)
  assert (is_user_vaddr upage)
  paddr ← vtop kpage
  assert (ltb (paddr / pgsize) init_ram_pages)
  (m, slot) ← lookup_page fresh upage true m
  map_slot kpage writable m slot

unfoldable pub page_of_slot : (uaddr : ℕ) → PageDir → Option Slot → Option (Option ℕ)
page_of_slot uaddr m none = some none
page_of_slot uaddr m (some (pt, i)) =
    if (m.table pt i).present
    then (do page ← pte_get_page (m.table pt i); some (some (page + pg_ofs uaddr)))
    else some none

-- pagedir_get_page: the inner `none` is NULL.
unfoldable pub pagedir_get_page : PageDir → (uaddr : ℕ) → Option (Option ℕ)
pagedir_get_page m uaddr = do
  assert (is_user_vaddr uaddr)
  (m', slot) ← lookup_page none uaddr false m
  page_of_slot uaddr m slot

-- A change to the entry that lookup_page finds, if there is one
unfoldable pub change_slot : (Entry → Entry) → PageDir → Option Slot → PageDir
change_slot f m none = m
change_slot f m (some (pt, i)) = record m { table = write_table m.table pt i (f (m.table pt i)) }

abbrev pub clear_present : Entry → Entry
clear_present e = if e.present then record e { present = false } else e

unfoldable pub pagedir_clear_page : (upage : ℕ) → PageDir → Option PageDir
pagedir_clear_page upage m = do
  assert (pg_ofs upage == 0)
  assert (is_user_vaddr upage)
  (m', slot) ← lookup_page none upage false m
  some (change_slot clear_present m slot)

unfoldable pub test_slot : (Entry → Bool) → PageDir → Option Slot → Bool
test_slot test m none = false
test_slot test m (some (pt, i)) = test (m.table pt i)

unfoldable pub pagedir_is_dirty : PageDir → (vpage : ℕ) → Option Bool
pagedir_is_dirty m vpage = do
  (m', slot) ← lookup_page none vpage false m
  some (test_slot (λ e. e.dirty) m slot)

unfoldable pub pagedir_set_dirty : (vpage : ℕ) (dirty : Bool) → PageDir → Option PageDir
pagedir_set_dirty vpage dirty m = do
  (m', slot) ← lookup_page none vpage false m
  some (change_slot (λ e. record e { dirty = dirty }) m slot)

unfoldable pub pagedir_is_accessed : PageDir → (vpage : ℕ) → Option Bool
pagedir_is_accessed m vpage = do
  (m', slot) ← lookup_page none vpage false m
  some (test_slot (λ e. e.accessed) m slot)

unfoldable pub pagedir_set_accessed : (vpage : ℕ) (accessed : Bool) → PageDir → Option PageDir
pagedir_set_accessed vpage accessed m = do
  (m', slot) ← lookup_page none vpage false m
  some (change_slot (λ e. record e { accessed = accessed }) m slot)

-- The pages of a table that pagedir_destroy frees, of `n` entries from `i` on
unfoldable pub table_pages : (n i : ℕ) → (ℕ → Entry) → Option (List ℕ)
table_pages zero i table = some []
table_pages (suc n) i table = do
  rest ← table_pages n (i + 1) table
  if (table i).present then (do page ← pte_get_page (table i); some (page ∷ rest)) else some rest

-- The pages that pagedir_destroy frees in order, for `n` entries of the directory from `i` on
unfoldable pub directory_pages : (n i : ℕ) → PageDir → Option (List ℕ)
directory_pages zero i m = some []
directory_pages (suc n) i m = do
  rest ← directory_pages n (i + 1) m
  if (m.pd i).present
      then (do
        pt ← pde_get_pt (m.pd i)
        pages ← table_pages 1024 0 (m.table pt)
        some (pages ++ pt ∷ rest))
      else some rest

-- pagedir_destroy of the directory in page `pd_page`
unfoldable pub pagedir_destroy : (pd_page : ℕ) → PageDir → Option (List ℕ)
pagedir_destroy pd_page m = do
  pages ← directory_pages (pd_no phys_base) 0 m
  some (pages ++ pd_page ∷ [])
