-- ===== src/Pagedir/Entries.antt =====
-- The entry of a user page in a page directory, and what writes to the tables do to it.
use pintos_nightmare.Base.{
  ltb, ◌==◌, if◌then◌else◌, lt→ltb, Bool-cases, ◌>>=◌, ◌>>◌, assert, ℕ, ◌+◌, ◌-◌, ◌*◌, ◌/◌, ◌%◌,
  ◌^◌, ◌≤◌, ◌<◌, ◌≡◌, refl, ap, ◌≢◌, inl, inr, Bool, true, false, ◌&&◌, Option, none, some, arith,
}
use pintos_nightmare.Vaddr.{
  Entry, no_entry, pgsize, pg_ofs, pt_no, pd_no, phys_base, ptov, pte_get_page, pde_get_pt,
}
use pintos_nightmare.Pagedir.{
  PageDir, is_zero, write_pd, write_table, zero_table, lookup_page, page_of_slot, pagedir_get_page,
}

-- The address of the table that an entry of the directory leads to
abbrev pub table_at : Entry → ℕ
table_at e = e.frame * pgsize + phys_base

-- An entry of the directory is 0 or leads to a table of its own.
pub record IsPagedir (m : PageDir) : Type 0 where
  pub present : (i : ℕ) → is_zero (m.pd i) ≡ false → (m.pd i).present ≡ true
  pub in_memory : (i : ℕ) → is_zero (m.pd i) ≡ false → (m.pd i).frame < 0x40000
  pub apart :
      (i j : ℕ)
      → is_zero (m.pd i) ≡ false
      → is_zero (m.pd j) ≡ false
      → (m.pd i).frame ≡ (m.pd j).frame
      → i ≡ j
  pub frames : (p i : ℕ) → (m.table p i).frame < 0x40000

-- A page for a new table, of the kernel's memory and no table of the directory
pub record IsFresh (m : PageDir) (pt : ℕ) : Type 0 where
  pub aligned : pt % pgsize ≡ 0
  pub kernel : phys_base ≤ pt
  pub word : pt < 2 ^ 32
  pub unused : (i : ℕ) → is_zero (m.pd i) ≡ false → (m.pd i).frame ≢ (pt - phys_base) / pgsize

-- The entry of a user page, `none` where there is no table for it
abbrev pub entry_of : PageDir → ℕ → Entry
entry_of m va =
    if is_zero (m.pd (pd_no va)) then no_entry else m.table (table_at (m.pd (pd_no va))) (pt_no va)

-- What pagedir_get_page finds by that entry
abbrev pub page_of : Entry → ℕ → Option ℕ
page_of e va = if e.present then some (e.frame * pgsize + phys_base + pg_ofs va) else none

pub pde_get_pt-table_at :
    (e : Entry) → e.present ≡ true → e.frame < 0x40000 → pde_get_pt e ≡ some (table_at e)
unfolding pde_get_pt ptov
pde_get_pt-table_at e p f =
    rw (p, lt→ltb (e.frame * pgsize) phys_base (omega (arith, f))) (ap some (omega (arith, f)))

lookup_page-entry :
    (m : PageDir) (va : ℕ)
    → IsPagedir m
    → lookup_page none va false m
      ≡ some (
        m,
        if is_zero (m.pd (pd_no va)) then none else some (table_at (m.pd (pd_no va)), pt_no va),
      )
unfolding lookup_page
lookup_page-entry m va v = elim (Bool-cases (is_zero (m.pd (pd_no va)))) [
  | inl e ↦ rw e refl
  | inr e ↦ rw (e, pde_get_pt-table_at (m.pd (pd_no va)) (v.present _ e) (v.in_memory _ e)) refl
]

pub get_page-entry :
    (m : PageDir) (va : ℕ)
    → IsPagedir m
    → va < phys_base
    → pagedir_get_page m va ≡ some (page_of (entry_of m va) va)
unfolding pagedir_get_page
get_page-entry m va v user =
    rw (lt→ltb va phys_base user, lookup_page-entry m va v)
      (elim (Bool-cases (is_zero (m.pd (pd_no va)))) [
        | inl e ↦ unfold page_of_slot in rw e refl
        | inr e ↦
            unfold page_of_slot pte_get_page ptov in
            rw e (found (m.table (table_at (m.pd (pd_no va))) (pt_no va)) (v.frames _ _))
      ])
  where
    found :
        (e : Entry)
        → e.frame < 0x40000
        → (if e.present
            then ((assert (ltb (e.frame * pgsize) phys_base)
                  >> some ((e.frame * pgsize + phys_base) % 2 ^ 32))
                >>= λ page. some (some (page + pg_ofs va)))
            else some none)
          ≡ some (page_of e va)
    found e f = ground (arith, f)

-- A directory in which lookup_page has found, or made, the slot of a page
pub record HasSlot (m m₁ : PageDir) (va : ℕ) : Type 0 where
  pub valid : IsPagedir m₁
  pub same : (a : ℕ) → entry_of m₁ a ≡ entry_of m a
  pub there : is_zero (m₁.pd (pd_no va)) ≡ false

unfoldable pub new_entry : ℕ → Entry
new_entry pt = record no_entry {
  frame = (pt - phys_base) / pgsize;
  present = true;
  writable = true;
  user = true;
}

new_entry_nonzero : (pt : ℕ) → is_zero (new_entry pt) ≡ false
unfolding is_zero new_entry
new_entry_nonzero pt = ground arith

unfoldable pub with_table : PageDir → ℕ → ℕ → PageDir
with_table m va pt = record m {
  pd = write_pd m.pd (pd_no va) (new_entry pt);
  table = zero_table m.table pt;
}

module _ (m : PageDir) (va pt : ℕ) (v : IsPagedir m) (missing : is_zero (m.pd (pd_no va)) ≡ true)
    (f : IsFresh m pt) where
  new_frame : (pt - phys_base) / pgsize < 0x40000
  new_frame = omega (arith, f.word)

  new_at : (pt - phys_base) / pgsize * pgsize + phys_base ≡ pt
  new_at = omega (arith, f.aligned, f.kernel)

  with_table-IsPagedir : IsPagedir (with_table m va pt)
  unfolding with_table new_entry
  with_table-IsPagedir = record {
    present = λ i h. ground (arith, v.present i);
    in_memory = λ i h. ground (arith, v.in_memory i, new_frame);
    apart = λ i j h k e. ground (arith, v.apart i j, f.unused i, f.unused j);
    frames = λ p i. ground (arith, v.frames p i);
  }

  entry_of-with_table : (a : ℕ) → entry_of (with_table m va pt) a ≡ entry_of m a
  unfolding with_table new_entry
  entry_of-with_table a =
      ground (arith, v.present (pd_no a), f.unused (pd_no a), new_at, missing, new_entry_nonzero pt)

  pub with_table-HasSlot : HasSlot m (with_table m va pt) va
  with_table-HasSlot = record {
    valid = with_table-IsPagedir;
    same = entry_of-with_table;
    there = unfold with_table new_entry is_zero in ground arith;
  }

-- The entry that maps a page to a kernel address
unfoldable pub user_entry : ℕ → Bool → Entry
user_entry kpage writable = record no_entry {
  frame = (kpage - phys_base) / pgsize;
  present = true;
  writable = writable;
  user = true;
}

unfoldable pub written : PageDir → ℕ → Entry → PageDir
written m va e = record m { table = write_table m.table (table_at (m.pd (pd_no va))) (pt_no va) e }

abbrev pub same_page : ℕ → ℕ → Bool
same_page a b = (pd_no a == pd_no b) && (pt_no a == pt_no b)

pub written-IsPagedir :
    (m : PageDir) (va : ℕ) (e : Entry)
    → IsPagedir m
    → e.frame < 0x40000
    → IsPagedir (written m va e)
unfolding written
written-IsPagedir m va e v f = record {
  present = v.present;
  in_memory = v.in_memory;
  apart = v.apart;
  frames = λ p i. ground (arith, v.frames p i, f);
}

pub entry_of-written :
    (m : PageDir) (va : ℕ) (e : Entry)
    → IsPagedir m
    → is_zero (m.pd (pd_no va)) ≡ false
    → (a : ℕ) → entry_of (written m va e) a ≡ (if same_page a va then e else entry_of m a)
unfolding written
entry_of-written m va e v there a = ground (arith, v.apart (pd_no a) (pd_no va), there)
