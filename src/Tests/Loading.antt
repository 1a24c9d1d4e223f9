-- ===== src/Tests/Loading.antt =====
-- Executables, stacks and page directories.
use pintos_nightmare.Base.{
  ◌==◌, if◌then◌else◌, Bool-cases, if_true, ℕ, ◌≡◌, refl, sym, ◌∙◌, subst, ◌⊎◌, inl, inr, true,
  false, Option, none, some, some-injective, List, [], ◌∷◌, arith,
}
use pintos_nightmare.Vaddr.{phys_base, no_entry}
use pintos_nightmare.Pagedir.{PageDir, pagedir_set_page, is_zero}
use pintos_nightmare.Pagedir.Entries.{entry_of, IsPagedir, IsFresh}
use pintos_nightmare.Pagedir.Laws.{Mapped, set_page-Mapped}
use pintos_nightmare.UserStack.{Stack, push_args}
use pintos_nightmare.UserStack.Layout.{Laid, push_args-Laid}
use pintos_nightmare.Segment.{Elf32Phdr}
use pintos_nightmare.Segment.Laws.{IsPhdr}
use pintos_nightmare.Load.{Elf32Ehdr, magic, load}
use pintos_nightmare.Load.Headers.{Loads, load-Loads}

abbrev empty_directory : PageDir
empty_directory = record { pd = λ i. no_entry; table = λ p i. no_entry }

empty_directory-IsPagedir : IsPagedir empty_directory
unfolding is_zero
empty_directory-IsPagedir = record {
  present = λ i h. cc;
  in_memory = λ i h. omega arith;
  apart = λ i j h k e. cc;
  frames = λ p i. omega arith;
}

a_page-IsFresh : IsFresh empty_directory 0xc010_1000
unfolding is_zero
a_page-IsFresh = record {
  aligned = refl;
  kernel = omega arith;
  word = omega arith;
  unused = λ i h. cc;
}

not_mapped : (entry_of empty_directory 0x0804_8000).present ≡ false
unfolding is_zero
not_mapped = refl

abbrev a_page : Option ℕ
a_page = some 0xc010_1000

-- The first page of a program
set_page-Mapped_example :
    ((m' : PageDir) × (pagedir_set_page 1024 a_page 0x0804_8000 0xc010_0000 true empty_directory
        ≡ some (m', true))
      × Mapped 1024 0x0804_8000 0xc010_0000 true empty_directory empty_directory-IsPagedir refl
          (omega arith)
          refl
          (omega arith)
          (omega arith)
          (omega arith)
          not_mapped
          m')
    ⊎ ((a_page ≡ none)
        × (pagedir_set_page 1024 a_page 0x0804_8000 0xc010_0000 true empty_directory
            ≡ some (empty_directory, false)))
set_page-Mapped_example =
    set_page-Mapped 1024 0x0804_8000 0xc010_0000 true empty_directory empty_directory-IsPagedir refl
      (omega arith) refl (omega arith) (omega arith) (omega arith) not_mapped a_page
      (λ pt e. subst (IsFresh empty_directory) (some-injective _ _ e) a_page-IsFresh)

-- "ls -l"
abbrev ls_args : List (List ℕ)
ls_args = (108 ∷ 115 ∷ []) ∷ (45 ∷ 108 ∷ []) ∷ []

abbrev new_stack : Stack
new_stack = record { esp = phys_base; mem = λ k. 0 }

push_args-Laid_example :
    (s' : Stack) × (push_args ls_args 0 new_stack ≡ some s') × Laid ls_args 0 new_stack s'
push_args-Laid_example =
    push_args-Laid ls_args 0 new_stack (omega arith) (omega arith) (omega arith)

abbrev code_phdr : Elf32Phdr
code_phdr = record {
  p_type = 1;
  p_offset = 0;
  p_vaddr = 0x0804_8000;
  p_paddr = 0;
  p_filesz = 5000;
  p_memsz = 6000;
  p_flags = 5;
  p_align = 4096;
}

abbrev read_code : ℕ → Option Elf32Phdr
read_code ofs = if ofs == 52 then some code_phdr else none

abbrev code_ehdr : Elf32Ehdr
code_ehdr = record {
  e_ident = magic;
  e_type = 2;
  e_machine = 3;
  e_version = 1;
  e_entry = 0x0804_8010;
  e_phoff = 52;
  e_phentsize = 32;
  e_phnum = 1;
}

code_phdr-IsPhdr : IsPhdr code_phdr
code_phdr-IsPhdr = record {
  vaddr = omega arith;
  memsz = omega arith;
  filesz = omega arith;
  offset = omega arith;
}

read_code-IsPhdr : (o : ℕ) (h : Elf32Phdr) → read_code o ≡ some h → IsPhdr h
read_code-IsPhdr o h e = elim (Bool-cases (o == 52)) [
  | inl at ↦ subst IsPhdr (some-injective _ _ (sym (if_true _ _ at) ∙ e)) code_phdr-IsPhdr
  | inr no_header ↦ absurd cc
]

-- One segment of two pages
load-Loads_example :
    Loads read_code
      (λ i at. true)
      9000
      read_code-IsPhdr
      (some phys_base)
      (some code_ehdr)
      (load read_code (λ i at. true) 9000 (some phys_base) (some code_ehdr))
load-Loads_example =
    load-Loads read_code (λ i at. true) 9000 read_code-IsPhdr (some phys_base) (some code_ehdr)
