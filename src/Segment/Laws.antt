-- ===== src/Segment/Laws.antt =====
-- A segment that validate_segment passes is loaded into pages of the user's address space.
use pintos_nightmare.Base.{
  ltb, ◌==◌, if◌then◌else◌, Bool-cases, ◌>>=◌, ℕ, zero, suc, ◌+◌, ◌-◌, ◌*◌, ◌/◌, ◌%◌, ◌^◌, ◌≤◌, ◌<◌,
  ◌≡◌, refl, sym, ap, ◌∙◌, subst, ◌↔◌, inl, inr, Bool, true, false, ◌&&◌, Option, some, List, [],
  ◌∷◌, arith,
}
use pintos_nightmare.Vaddr.{pgsize, pg_ofs, phys_base}
use pintos_nightmare.Segment.{
  Elf32Phdr, validate_segment, round_up, Region, region, Page, load_loop, load_segment,
}

-- The fields of a program header are words.
pub record IsPhdr (h : Elf32Phdr) : Type 0 where
  pub vaddr : h.p_vaddr < 2 ^ 32
  pub memsz : h.p_memsz < 2 ^ 32
  pub filesz : h.p_filesz < 2 ^ 32
  pub offset : h.p_offset < 2 ^ 32

-- What validate_segment means, without wrapping
pub record IsLoadable (h : Elf32Phdr) (file_length : ℕ) : Type 0 where
  pub same_ofs : h.p_offset % pgsize ≡ h.p_vaddr % pgsize
  pub in_file : h.p_offset ≤ file_length
  pub filesz_le : h.p_filesz ≤ h.p_memsz
  pub not_empty : 0 < h.p_memsz
  pub above_page_0 : pgsize ≤ h.p_vaddr
  pub below : h.p_vaddr + h.p_memsz < phys_base

-- validate_segment passes a segment just when it starts inside the file, at the same place in its
-- page as in memory, is not empty, is at least as large in memory as in the file, and lies between
-- page 0 and PHYS_BASE, its end included, without wrapping around.
pub validate_segment-IsLoadable :
    (h : Elf32Phdr) (file_length : ℕ)
    → IsPhdr h
    → (validate_segment h file_length ≡ true) ↔ IsLoadable h file_length
unfolding validate_segment
validate_segment-IsLoadable h file_length w = (
  λ v. record {
    same_ofs = ground (arith, v);
    in_file = ground (arith, v);
    filesz_le = ground (arith, v);
    not_empty = ground (arith, v);
    above_page_0 = ground (arith, v);
    below = ground (arith, v, w.vaddr, w.memsz);
  },
  λ l. ground (arith, l.same_ofs, l.in_file, l.filesz_le, l.not_empty, l.above_page_0, l.below),
)

-- The pages of a region of `n`
unfoldable pub plan : (n : ℕ) → Bool → (pos at read : ℕ) → List Page
plan zero writable pos at read = []
plan (suc n) writable pos at read =
    let here = if ltb read pgsize then read else pgsize in
    record { at = at; from = pos; read = here; writable = writable }
    ∷ plan n writable (pos + here) (at + pgsize) (read - here)

-- Installing pages up to the first that cannot be
unfoldable pub install : (ok : ℕ → Bool) → List Page → List Page × Bool
install ok [] = ([], true)
install ok (p ∷ ps) =
    let (pages, done) = install ok ps in if ok p.at then (p ∷ pages, done) else ([], false)

-- The bytes of a round that come from the file, and what is left to zero
abbrev here : ℕ → ℕ
here r = if ltb r pgsize then r else pgsize

abbrev zeros_left : ℕ → ℕ → ℕ
zeros_left r z = (z + 2 ^ 32 - (pgsize - here r)) % 2 ^ 32

abbrev round : (ok : ℕ → Bool) → Page → Option (List Page × Bool) → Option (List Page × Bool)
round ok p rest =
    if ok p.at then (do (pages, done) ← rest; some (p ∷ pages, done)) else some ([], false)

load_loop-suc :
    (n : ℕ) (ok : ℕ → Bool) (w : Bool) (pos at r z : ℕ)
    → ((r == 0) && (z == 0)) ≡ false
    → load_loop (suc n) ok w pos at r z
      ≡ round ok
          (record { at = at; from = pos; read = here r; writable = w })
          (load_loop n ok w (pos + here r) (at + pgsize) (r - here r) (zeros_left r z))
unfolding load_loop
load_loop-suc n ok w pos at r z h = rw h refl

round-install :
    (ok : ℕ → Bool) (p : Page) (ps : List Page)
    → round ok p (some (install ok ps)) ≡ some (install ok (p ∷ ps))
unfolding install
round-install ok p ps = elim (Bool-cases (ok p.at)) [
  | inl can ↦ rw can refl
  | inr cannot ↦ rw cannot refl
]

load_loop-install :
    (n : ℕ) (ok : ℕ → Bool) (w : Bool) (pos at r z : ℕ)
    → r + z ≡ n * pgsize
    → z < 2 ^ 32
    → load_loop (suc n) ok w pos at r z ≡ some (install ok (plan n w pos at r))
unfolding plan
load_loop-install zero ok w pos at r z sum small = unfold load_loop install in ground (arith, sum)
load_loop-install (suc n) ok w pos at r z sum small =
    load_loop-suc (suc n) ok w pos at r z (ground (arith, sum))
    ∙ ap (round ok first) (
        load_loop-install n ok w (pos + here r) (at + pgsize) (r - here r) (zeros_left r z) left
          (ground arith))
    ∙ round-install ok first (plan n w (pos + here r) (at + pgsize) (r - here r))
  where
    first : Page
    first = record { at = at; from = pos; read = here r; writable = w }

    left : (r - here r) + zeros_left r z ≡ n * pgsize
    left = ground (arith, sum, small)

load_segment-install :
    (ok : ℕ → Bool) (r : Region) (n : ℕ)
    → r.read_bytes + r.zero_bytes ≡ n * pgsize
    → r.zero_bytes < 2 ^ 32
    → r.upage % pgsize ≡ 0
    → r.ofs % pgsize ≡ 0
    → load_segment ok r ≡ some (install ok (plan n r.writable r.ofs r.upage r.read_bytes))
unfolding load_segment
load_segment-install ok r n sum small at of =
    rw (whole_pages, at_page, of_page, count)
      (load_loop-install n ok r.writable r.ofs r.upage r.read_bytes r.zero_bytes sum small)
  where
    whole_pages : ((r.read_bytes + r.zero_bytes) % 2 ^ 32 % pgsize == 0) ≡ true
    whole_pages = ground (arith, sum)

    at_page : (pg_ofs r.upage == 0) ≡ true
    at_page = ground (arith, at)

    of_page : (r.ofs % pgsize == 0) ≡ true
    of_page = ground (arith, of)

    count : (r.read_bytes + r.zero_bytes) / pgsize ≡ n
    count = omega (arith, sum)

-- The number of pages that a segment touches
abbrev pub page_count : Elf32Phdr → ℕ
page_count h = (h.p_vaddr % pgsize + h.p_memsz + 4095) / pgsize

-- How the pages of a region lie in the address space
pub record IsInUserSpace (h : Elf32Phdr) (r : Region) : Type 0 where
  pub aligned : r.upage % pgsize ≡ 0
  pub above_page_0 : pgsize ≤ r.upage
  pub start : r.upage ≤ h.p_vaddr
  pub end : h.p_vaddr + h.p_memsz ≤ r.upage + (r.read_bytes + r.zero_bytes)
  pub below : r.upage + (r.read_bytes + r.zero_bytes) ≤ phys_base

module _ (h : Elf32Phdr) (file_length : ℕ) (w : IsPhdr h)
    (v : validate_segment h file_length ≡ true) where
  loadable : IsLoadable h file_length
  loadable = (validate_segment-IsLoadable h file_length w).0 v

  pub whole : (region h).read_bytes + (region h).zero_bytes ≡ page_count h * pgsize
  unfolding region round_up
  whole =
      ground
        (arith, loadable.filesz_le, loadable.not_empty, loadable.below, w.vaddr, w.memsz, w.filesz)

  small : (region h).zero_bytes < 2 ^ 32
  unfolding region round_up
  small = ground arith

  in_user_space : IsInUserSpace h (region h)
  in_user_space = record {
    aligned = unfold region in omega arith;
    above_page_0 = unfold region in omega (arith, loadable.above_page_0);
    start = unfold region in omega arith;
    end =
        subst (λ n. h.p_vaddr + h.p_memsz ≤ (region h).upage + n) (sym whole)
          (unfold region in omega arith);
    below =
        subst (λ n. (region h).upage + n ≤ phys_base) (sym whole)
          (unfold region in omega (arith, loadable.below));
  }

  -- The segment that `load` passes to load_segment after validate_segment: no ASSERT fails and the
  -- loop ends, with the segment's pages installed in order up to the first that cannot be, and true
  -- when all were; and these pages cover the segment and lie between page 0 and PHYS_BASE.
  pub load_segment-validate_segment :
      (ok : ℕ → Bool)
      → (load_segment ok (region h)
          ≡ some (
              install ok (
                plan
                  (page_count h)
                  (region h).writable
                  (region h).ofs
                  (region h).upage
                  (region h).read_bytes)))
        × IsInUserSpace h (region h)
  load_segment-validate_segment ok = (
    load_segment-install ok (region h) (page_count h) whole small in_user_space.aligned
        (unfold region in omega arith),
    in_user_space,
  )
