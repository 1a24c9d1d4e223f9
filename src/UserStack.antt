-- ===== src/UserStack.antt =====
-- userprog/process.c: the first page of a user stack, from setup_stack to push_args. The memory is a
-- function from addresses to bytes, a string its bytes before the null byte; addresses are numbers
-- below 2 ^ 32. push_args has no bound on the stack, and neither has the model; `none` is a store
-- past the end of its array `argv_addr`.
pub mod Layout
use pintos_nightmare.Base.{
  ltb, if◌then◌else◌, length, ◌>>=◌, ◌>>◌, assert, ℕ, ◌+◌, ◌-◌, ◌/◌, ◌%◌, ◌^◌, Bool, true, false,
  Option, none, some, List, [], ◌∷◌, ◌++◌,
}
use pintos_nightmare.Vaddr.{pgsize, phys_base}
use pintos_nightmare.Pagedir.{PageDir, pagedir_get_page, pagedir_set_page}
use pintos_nightmare.Text.{poke}

-- install_page, with the inputs of pagedir_set_page
unfoldable pub install_page :
    (init_ram_pages : ℕ) (fresh : Option ℕ) (upage kpage : ℕ) (writable : Bool)
    → PageDir
    → Option (PageDir × Bool)
install_page init_ram_pages fresh upage kpage writable m = do
  page ← pagedir_get_page m upage
  install_free page
  where
    install_free : Option ℕ → Option (PageDir × Bool)
    install_free none = pagedir_set_page init_ram_pages fresh upage kpage writable m
    install_free (some page) = some (m, false)

-- What setup_stack leaves: the stack pointer if it succeeds, and the page that it gives back
pub record NewStack : Type 0 where
  pub pagedir : PageDir
  pub stack_pointer : Option ℕ
  pub freed : Option ℕ

-- `kpage` is what palloc_get_page (PAL_USER | PAL_ZERO) returns.
unfoldable pub setup_stack :
    (init_ram_pages : ℕ) (fresh : Option ℕ) (kpage : Option ℕ) → PageDir → Option NewStack
setup_stack init_ram_pages fresh none m =
    some (record { pagedir = m; stack_pointer = none; freed = none })
setup_stack init_ram_pages fresh (some kpage) m = do
  (m, success) ← install_page init_ram_pages fresh (phys_base - pgsize) kpage true m
  some (record {
    pagedir = m;
    stack_pointer = if success then some phys_base else none;
    freed = if success then none else some kpage;
  })

-- The stack pointer, and the memory
pub record Stack : Type 0 where
  pub esp : ℕ
  pub mem : ℕ → ℕ

-- memcpy of bytes that do not overlap with where they go
unfoldable pub write_bytes : (mem : ℕ → ℕ) (at : ℕ) → List ℕ → ℕ → ℕ
write_bytes mem at [] = mem
write_bytes mem at (b ∷ bs) = write_bytes (poke mem at b) (at + 1) bs

-- `*esp -= size; memcpy (*esp, bytes, size);`
unfoldable pub push_bytes : List ℕ → Stack → Stack
push_bytes bs s =
    let at = (s.esp + 2 ^ 32 - length bs) % 2 ^ 32 in
    record { esp = at; mem = write_bytes s.mem at bs }

-- The bytes of a 32-bit word, lowest first
abbrev pub word : ℕ → List ℕ
word w = w % 256 ∷ w / 256 % 256 ∷ w / 65536 % 256 ∷ w / 16777216 % 256 ∷ []

-- The arguments, the last one first, and where they stand (argv_addr)
unfoldable pub push_strings : (argv : List (List ℕ)) → Stack → Stack × List ℕ
push_strings [] s = (s, [])
push_strings (arg ∷ argv) s =
    let (s, addrs) = push_strings argv s in
    let s = push_bytes (arg ++ 0 ∷ []) s in (s, s.esp ∷ addrs)

-- Padding to a multiple of 4
abbrev pub align : Stack → Stack
align s = record s { esp = s.esp - s.esp % 4 }

-- Words, the last one first
unfoldable pub push_words : List ℕ → Stack → Stack
push_words [] s = s
push_words (w ∷ ws) s = push_bytes (word w) (push_words ws s)

-- What push_args pushes, where `sentinel` is what `argv[argc]` has
unfoldable pub push_frame : (argv : List (List ℕ)) (sentinel : ℕ) → Stack → Stack
push_frame argv sentinel s =
    let (s, addrs) = push_strings argv s in
    let s = push_words (addrs ++ 0 ∷ []) (align s) in
    let s = push_bytes (word s.esp) s in
    let s = push_bytes (word (length argv)) s in push_bytes (word sentinel) s

-- push_args; `argv_addr` has 32 places, and the last store to it is at `argc`.
unfoldable pub push_args : (argv : List (List ℕ)) (sentinel : ℕ) → Stack → Option Stack
push_args argv sentinel s = do assert (ltb (length argv) 32); some (push_frame argv sentinel s)
