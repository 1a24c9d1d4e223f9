-- ===== src/Load.antt =====
-- userprog/process.c: load, from the checks of the ELF header to the entry point. The file is read
-- as its bytes are; what file_read gives at an offset, and which pages can be had, are inputs. A
-- file offset is a 32-bit number, negative from 2 ^ 31 on.
pub mod Headers
use pintos_nightmare.Base.{
  ltb, leb, ◌==◌, if◌then◌else◌, ◌>>=◌, ◌>>◌, ℕ, zero, suc, ◌+◌, ◌%◌, ◌^◌, Bool, true, false, ◌&&◌,
  ◌||◌, Option, none, some, List, [], ◌∷◌, ◌++◌,
}
use pintos_nightmare.Text.{memcmp, is_equal}
use pintos_nightmare.Segment.{Elf32Phdr, Region, Page, validate_segment, region, load_segment}

-- struct Elf32_Ehdr, with the 16 bytes of e_ident and without the fields that `load` does not read
pub record Elf32Ehdr : Type 0 where
  pub e_ident : List ℕ
  pub e_type : ℕ
  pub e_machine : ℕ
  pub e_version : ℕ
  pub e_entry : ℕ
  pub e_phoff : ℕ
  pub e_phentsize : ℕ
  pub e_phnum : ℕ

-- "\177ELF\1\1\1"
abbrev pub magic : List ℕ
magic = 127 ∷ 69 ∷ 76 ∷ 70 ∷ 1 ∷ 1 ∷ 1 ∷ []

-- sizeof (struct Elf32_Phdr)
abbrev pub phdr_size : ℕ
phdr_size = 32

-- The checks of the executable header; `ehdr` is `none` where file_read gives fewer bytes.
unfoldable pub is_executable : Elf32Ehdr → Bool
is_executable ehdr =
    is_equal (memcmp ehdr.e_ident magic 7)
    && (ehdr.e_type == 2)
    && (ehdr.e_machine == 3)
    && (ehdr.e_version == 1)
    && (ehdr.e_phentsize == phdr_size)
    && leb ehdr.e_phnum 1024

-- The cases of the switch on p_type
pub data Action : Type 0 where
  skip : Action
  refuse : Action
  map_in : Action

-- PT_LOAD is 1; PT_DYNAMIC, PT_INTERP and PT_SHLIB are 2, 3 and 5.
unfoldable pub action : (p_type : ℕ) → Action
action p_type =
    if p_type == 1
    then map_in
    else if (p_type == 2) || (p_type == 3) || (p_type == 5)
    then refuse
    else skip

-- Goes on after a segment that is mapped as a whole.
abbrev pub and_then :
    Option (List Page × Bool) → Option (List Page × Bool) → Option (List Page × Bool)
and_then segment rest = do
  (pages, done) ← segment
  if done then (do (more, all) ← rest; some (pages ++ more, all)) else some (pages, false)

-- The body of the loop, `rest` being the rounds that follow
unfoldable pub load_phdr :
    (ok : ℕ → Bool) (file_length : ℕ)
    → Elf32Phdr
    → Action
    → (rest : Option (List Page × Bool)) → Option (List Page × Bool)
load_phdr ok file_length phdr skip rest = rest
load_phdr ok file_length phdr refuse rest = some ([], false)
load_phdr ok file_length phdr map_in rest =
    if validate_segment phdr file_length
    then and_then (load_segment ok (region phdr)) rest
    else some ([], false)

-- A header that file_read gives, or fewer bytes than it has
unfoldable pub load_read :
    (ok : ℕ → Bool) (file_length : ℕ)
    → Option Elf32Phdr
    → (rest : Option (List Page × Bool)) → Option (List Page × Bool)
load_read ok file_length none rest = some ([], false)
load_read ok file_length (some phdr) rest = load_phdr ok file_length phdr (action phdr.p_type) rest

-- The loop over the program headers, for `n` more from the `i`-th on: the pages that are installed,
-- and whether all headers are accepted. `ok i` says which pages can be had, read and installed.
unfoldable pub load_phdrs :
    (read : ℕ → Option Elf32Phdr) (ok : ℕ → ℕ → Bool) (file_length : ℕ) (n i file_ofs : ℕ)
    → Option (List Page × Bool)
load_phdrs read ok file_length zero i file_ofs = some ([], true)
load_phdrs read ok file_length (suc n) i file_ofs =
    let rest = load_phdrs read ok file_length n (i + 1) ((file_ofs + phdr_size) % 2 ^ 32) in
    if leb (2 ^ 31) file_ofs || ltb file_length file_ofs
    then some ([], false)
    else load_read (ok i) file_length (read file_ofs) rest

-- What `load` leaves: the pages, and the entry point and stack pointer if it succeeds
unfoldable pub finish :
    (entry : ℕ) (stack : Option ℕ) → List Page × Bool → List Page × Option (ℕ × ℕ)
finish entry stack (pages, false) = (pages, none)
finish entry none (pages, true) = (pages, none)
finish entry (some esp) (pages, true) = (pages, some (entry, esp))

unfoldable pub load_file :
    (read : ℕ → Option Elf32Phdr) (ok : ℕ → ℕ → Bool) (file_length : ℕ) (stack : Option ℕ)
    → Elf32Ehdr
    → Option (List Page × Option (ℕ × ℕ))
load_file read ok file_length stack ehdr =
    if is_executable ehdr
    then (do
      result ← load_phdrs read ok file_length ehdr.e_phnum 0 ehdr.e_phoff
      some (finish ehdr.e_entry stack result))
    else some ([], none)

-- load: `ehdr` is `none` where there is no page directory, no file, or no header in it; `stack` is
-- what setup_stack returns.
unfoldable pub load :
    (read : ℕ → Option Elf32Phdr) (ok : ℕ → ℕ → Bool) (file_length : ℕ) (stack : Option ℕ)
    → (ehdr : Option Elf32Ehdr) → Option (List Page × Option (ℕ × ℕ))
load read ok file_length stack none = some ([], none)
load read ok file_length stack (some ehdr) = load_file read ok file_length stack ehdr
