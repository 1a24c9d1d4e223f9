-- ===== src/Pagedir/Laws.antt =====
-- What the operations on a page directory do to the mapping of user pages.
use pintos_nightmare.Base.{
  if◌then◌else◌, lt→ltb, Bool-cases, Option-cases, if_false, ℕ, ◌+◌, ◌-◌, ◌*◌, ◌/◌, ◌%◌, ◌^◌, ◌≤◌,
  ◌<◌, ◌≡◌, refl, sym, ap, ◌∙◌, ◌⊎◌, inl, inr, Bool, true, false, Option, none, some, arith,
}
use pintos_nightmare.Vaddr.{
  Entry, pgsize, pg_ofs, pt_no, pd_no, phys_base, vtop, ptov, pte_create_user, pte_create_kernel,
  pde_create, pde_get_pt,
}
use pintos_nightmare.Pagedir.{
  PageDir, is_zero, new_table, lookup_page, map_slot, pagedir_set_page, pagedir_get_page,
}
use pintos_nightmare.Pagedir.Entries.{
  table_at, IsPagedir, IsFresh, entry_of, page_of, pde_get_pt-table_at, get_page-entry, HasSlot,
  new_entry, with_table, with_table-HasSlot, user_entry, written, same_page, written-IsPagedir,
  entry_of-written,
}

module _ (init_ram_pages : ℕ) (upage kpage : ℕ) (writable : Bool) (m : PageDir) (v : IsPagedir m)
    (aligned : upage % pgsize ≡ 0) (user : upage < phys_base) (k_aligned : kpage % pgsize ≡ 0)
    (kernel : phys_base ≤ kpage) (word : kpage < 2 ^ 32)
    (in_ram : (kpage - phys_base) / pgsize < init_ram_pages)
    (unmapped : (entry_of m upage).present ≡ false) where
  pte : Entry
  pte = user_entry kpage writable

  -- The directory after the page is mapped
  pub record Mapped (m' : PageDir) : Type 0 where
    pub valid : IsPagedir m'
    pub pages :
        (va : ℕ)
        → va < phys_base
        → pagedir_get_page m' va
          ≡ (if same_page va upage then some (some (kpage + pg_ofs va)) else pagedir_get_page m va)

  pte_at : pte.frame * pgsize + phys_base ≡ kpage
  unfolding pte user_entry
  pte_at = omega (arith, k_aligned, kernel)

  pte_present : pte.present ≡ true
  unfolding pte user_entry
  pte_present = refl

  after :
      (m₁ : PageDir)
      → HasSlot m m₁ upage
      → (va : ℕ) → va < phys_base
      → some (page_of (if same_page va upage then pte else entry_of m₁ va) va)
        ≡ (if same_page va upage then some (some (kpage + pg_ofs va)) else pagedir_get_page m va)
  after m₁ s va l = elim (Bool-cases (same_page va upage)) [
    | inl e ↦ rw (e, pte_present, pte_at) refl
    | inr e ↦ rw e (ap (λ x. some (page_of x va)) (s.same va) ∙ sym (get_page-entry m va v l))
  ]

  mapped : (m₁ : PageDir) → HasSlot m m₁ upage → Mapped (written m₁ upage pte)
  mapped m₁ s = record {
    valid = written-IsPagedir m₁ upage pte s.valid frame_ok;
    pages = λ va l.
        get_page-entry (written m₁ upage pte) va (written-IsPagedir m₁ upage pte s.valid frame_ok) l
        ∙ ap (λ e. some (page_of e va)) (entry_of-written m₁ upage pte s.valid s.there va)
        ∙ after m₁ s va l;
  }
    where
      frame_ok : pte.frame < 0x40000
      frame_ok = unfold pte user_entry in omega (arith, word)

  vtop_kernel : vtop kpage ≡ some (kpage - phys_base)
  unfolding vtop
  vtop_kernel = ground (arith, kernel)

  map_slot-written :
      (m₁ : PageDir)
      → HasSlot m m₁ upage
      → map_slot kpage writable m₁ (some (table_at (m₁.pd (pd_no upage)), pt_no upage))
        ≡ some (written m₁ upage pte, true)
  unfolding map_slot
  map_slot-written m₁ s = rw (empty, created) (unfold written in refl)
    where
      empty : (m₁.table (table_at (m₁.pd (pd_no upage))) (pt_no upage)).present ≡ false
      empty = ap (λ e. e.present) (sym (if_false _ _ s.there) ∙ s.same upage) ∙ unmapped

      created : pte_create_user kpage writable ≡ some pte
      created =
          unfold pte_create_user pte_create_kernel vtop pte user_entry in
          ground (arith, k_aligned, kernel)

  maps :
      (fresh : Option ℕ) (m₁ : PageDir)
      → HasSlot m m₁ upage
      → lookup_page fresh upage true m
        ≡ some (m₁, some (table_at (m₁.pd (pd_no upage)), pt_no upage))
      → pagedir_set_page init_ram_pages fresh upage kpage writable m
        ≡ some (written m₁ upage pte, true)
  unfolding pagedir_set_page
  maps fresh m₁ s found =
      rw (aligned, k_aligned, lt→ltb upage phys_base user, vtop_kernel, lt→ltb _ _ in_ram, found)
        (map_slot-written m₁ s)

  lookup-there :
      (fresh : Option ℕ)
      → is_zero (m.pd (pd_no upage)) ≡ false
      → lookup_page fresh upage true m ≡ some (m, some (table_at (m.pd (pd_no upage)), pt_no upage))
  unfolding lookup_page
  lookup-there fresh e =
      rw
        (
          lt→ltb upage phys_base user,
          e,
          pde_get_pt-table_at (m.pd (pd_no upage)) (v.present _ e) (v.in_memory _ e),
        )
        refl

  lookup-made :
      (pt : ℕ)
      → is_zero (m.pd (pd_no upage)) ≡ true
      → IsFresh m pt
      → lookup_page (some pt) upage true m
        ≡ some (
          with_table m upage pt,
          some (table_at ((with_table m upage pt).pd (pd_no upage)), pt_no upage),
        )
  unfolding lookup_page
  lookup-made pt e f =
      rw (lt→ltb upage phys_base user, e)
        (made ∙ ap (λ i. some (with_table m upage pt, some (i, pt_no upage))) (sym at))
    where
      created : pde_create pt ≡ some (new_entry pt)
      created = unfold pde_create vtop new_entry in ground (arith, f.aligned, f.kernel)

      at : table_at ((with_table m upage pt).pd (pd_no upage)) ≡ pt
      at = unfold with_table new_entry in ground (arith, f.aligned, f.kernel)

      got : pde_get_pt (new_entry pt) ≡ some pt
      got = unfold pde_get_pt ptov new_entry in ground (arith, f.aligned, f.kernel, f.word)

      made : new_table (some pt) upage m ≡ some (with_table m upage pt, some (pt, pt_no upage))
      made = unfold new_table in rw (created, got) (unfold with_table in refl)

  lookup-none : is_zero (m.pd (pd_no upage)) ≡ true → lookup_page none upage true m ≡ some (m, none)
  unfolding lookup_page
  lookup-none e = rw (lt→ltb upage phys_base user, e) (unfold new_table in refl)

  set_page-none :
      is_zero (m.pd (pd_no upage)) ≡ true
      → pagedir_set_page init_ram_pages none upage kpage writable m ≡ some (m, false)
  unfolding pagedir_set_page
  set_page-none e =
      rw
        (
          aligned,
          k_aligned,
          lt→ltb upage phys_base user,
          vtop_kernel,
          lt→ltb _ _ in_ram,
          lookup-none e,
        )
        (unfold map_slot in refl)

  -- pagedir_set_page on a user page that is not mapped yet and a kernel page in RAM, both aligned:
  -- the page is mapped to the kernel page and every other user page as before, or, where no page can
  -- be had for a page table, nothing changes and the result is false.
  pub set_page-Mapped :
      (fresh : Option ℕ)
      → ((pt : ℕ) → fresh ≡ some pt → IsFresh m pt)
      → ((m' : PageDir) × (pagedir_set_page init_ram_pages fresh upage kpage writable m
            ≡ some (m', true))
          × Mapped m')
        ⊎ ((fresh ≡ none)
            × (pagedir_set_page init_ram_pages fresh upage kpage writable m ≡ some (m, false)))
  set_page-Mapped fresh f = elim (Bool-cases (is_zero (m.pd (pd_no upage)))) [
    | inr e ↦
        let s : HasSlot m m upage = record { valid = v; same = λ a. refl; there = e } in
        inl (written m upage pte, maps fresh m s (lookup-there fresh e), mapped m s)
    | inl e ↦ elim (Option-cases fresh) [
      | inl gone ↦ inr (gone, rw gone (set_page-none e))
      | inr (pt, got) ↦
          let s = with_table-HasSlot m upage pt v e (f pt got) in
          inl (
            written (with_table m upage pt) upage pte,
            maps fresh (with_table m upage pt) s (rw got (lookup-made pt e (f pt got))),
            mapped (with_table m upage pt) s,
          )
    ]
  ]
