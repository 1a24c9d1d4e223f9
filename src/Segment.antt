-- ===== src/Segment.antt =====
-- userprog/process.c: the segments of an executable, from validate_segment to load_segment. An
-- Elf32_Word is a number below 2 ^ 32, and sums of them wrap around.
pub mod Laws
use pintos_nightmare.Base.{
  ltb, leb, ◌==◌, if◌then◌else◌, ◌>>=◌, ◌>>◌, assert, ℕ, zero, suc, ◌+◌, ◌-◌, ◌*◌, ◌/◌, ◌%◌, ◌^◌,
  Bool, true, false, not, ◌&&◌, Option, none, some, List, [], ◌∷◌,
}
use pintos_nightmare.Vaddr.{pgsize, pg_ofs, is_user_vaddr}

-- struct Elf32_Phdr
pub record Elf32Phdr : Type 0 where
  pub p_type : ℕ
  pub p_offset : ℕ
  pub p_vaddr : ℕ
  pub p_paddr : ℕ
  pub p_filesz : ℕ
  pub p_memsz : ℕ
  pub p_flags : ℕ
  pub p_align : ℕ

unfoldable pub validate_segment : Elf32Phdr → (file_length : ℕ) → Bool
validate_segment phdr file_length =
    (pg_ofs phdr.p_offset == pg_ofs phdr.p_vaddr)
    && leb phdr.p_offset file_length
    && leb phdr.p_filesz phdr.p_memsz
    && not (phdr.p_memsz == 0)
    && is_user_vaddr phdr.p_vaddr
    && is_user_vaddr ((phdr.p_vaddr + phdr.p_memsz) % 2 ^ 32)
    && leb phdr.p_vaddr ((phdr.p_vaddr + phdr.p_memsz) % 2 ^ 32)
    && leb pgsize phdr.p_vaddr

-- ROUND_UP (x, PGSIZE)
unfoldable pub round_up : ℕ → ℕ
round_up x = (x + pgsize - 1) % 2 ^ 32 / pgsize * pgsize

-- What `load` passes to load_segment
pub record Region : Type 0 where
  pub ofs : ℕ
  pub upage : ℕ
  pub read_bytes : ℕ
  pub zero_bytes : ℕ
  pub writable : Bool

-- PF_W is the second lowest bit of p_flags.
unfoldable pub region : Elf32Phdr → Region
unfolding round_up
region phdr =
    let page_offset = phdr.p_vaddr % pgsize in
    let read = (page_offset + phdr.p_filesz) % 2 ^ 32 in
    let all = round_up ((page_offset + phdr.p_memsz) % 2 ^ 32) in
    record {
      ofs = phdr.p_offset / pgsize * pgsize;
      upage = phdr.p_vaddr / pgsize * pgsize;
      read_bytes = if ltb 0 phdr.p_filesz then read else 0;
      zero_bytes = if ltb 0 phdr.p_filesz then (all + 2 ^ 32 - read) % 2 ^ 32 else all;
      writable = phdr.p_flags / 2 % 2 == 1;
    }

-- A page that load_segment installs: `read` bytes of the file from `from` on, the rest zero.
pub record Page : Type 0 where
  pub at : ℕ
  pub from : ℕ
  pub read : ℕ
  pub writable : Bool

-- The loop of load_segment, with `pos` the file's position: the pages that were installed, and
-- whether all were. `ok` says that a page can be had, read and installed. Each round takes PGSIZE
-- bytes off the two counts, so one round more than their sum has pages is enough; `none` runs out
-- of fuel.
unfoldable pub load_loop :
    (fuel : ℕ) (ok : ℕ → Bool) (writable : Bool) (pos upage read_bytes zero_bytes : ℕ)
    → Option (List Page × Bool)
load_loop zero ok writable pos upage read_bytes zero_bytes = none
load_loop (suc n) ok writable pos upage read_bytes zero_bytes =
    let page_read_bytes = if ltb read_bytes pgsize then read_bytes else pgsize in
    let page_zero_bytes = pgsize - page_read_bytes in
    let rest =
      load_loop n ok writable (pos + page_read_bytes) (upage + pgsize)
        (read_bytes - page_read_bytes) ((zero_bytes + 2 ^ 32 - page_zero_bytes) % 2 ^ 32) in
    if (read_bytes == 0) && (zero_bytes == 0)
    then some ([], true)
    else if ok upage
    then (do
      (pages, done) ← rest
      some (
        record { at = upage; from = pos; read = page_read_bytes; writable = writable } ∷ pages,
        done,
      ))
    else some ([], false)

-- load_segment: `none` is a failed ASSERT.
unfoldable pub load_segment : (ok : ℕ → Bool) → Region → Option (List Page × Bool)
load_segment ok r = do
  assert ((r.read_bytes + r.zero_bytes) % 2 ^ 32 % pgsize == 0)
  assert (pg_ofs r.upage == 0)
  assert (r.ofs % pgsize == 0)
  load_loop (suc ((r.read_bytes + r.zero_bytes) / pgsize)) ok r.writable r.ofs r.upage r.read_bytes
      r.zero_bytes
