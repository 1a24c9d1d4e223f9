-- ===== src/Tests/Processes.antt =====
-- User pointers, processes and segments at concrete inputs.
use pintos_nightmare.Base.{
  ltb, leb, ◌==◌, if◌then◌else◌, length, ℕ, ◌+◌, ◌%◌, ◌^◌, ◌<◌, ◌≡◌, refl, ◌↔◌, ◌⊎◌, true, false,
  ◌&&◌, none, some, List, [], ◌∷◌, ◌++◌, arith, xor,
}
use pintos_nightmare.Syscall.{
  UserMemory, validate_pointer, validate_from, validate_buffer, no_files,
}
use pintos_nightmare.Syscall.Pointers.{IsUser, validate_buffer_iff}
use pintos_nightmare.Process.{
  minus_one, SharedMem, Process, new_shared_mem, execute_resume, find_child, returned, blocked,
  process_wait, wait_resume, child_exits,
}
use pintos_nightmare.Process.Wait.{child_runs, execute_resume-child_runs, wait-exits}
use pintos_nightmare.Syscall.Handler.{write, syscall_handler}
use pintos_nightmare.Syscall.Handler.Words.{syscall_handler-words}
use pintos_nightmare.Intq.{Intq, done, intq_putc}
use pintos_nightmare.Intq.Laws.{IsIntq, Waits, contents, intq_putc-contents}
use pintos_nightmare.Segment.{Elf32Phdr, validate_segment, region, load_segment}
use pintos_nightmare.Segment.Laws.{
  IsPhdr, IsInUserSpace, plan, install, page_count, load_segment-validate_segment,
}

-- One page of memory at 0xbffff000, of bytes 1
abbrev stack : UserMemory
stack a = if leb 0xbfff_f000 a && ltb a 0xc000_0000 then some 1 else none

validate_buffer_iff_example :
    (validate_buffer stack 0xbfff_fffe 2 ≡ true)
    ↔ ((i : ℕ) → i < 2 → IsUser stack ((0xbfff_fffe + i) % 2 ^ 32))
validate_buffer_iff_example = validate_buffer_iff stack 0xbfff_fffe 2

number : validate_buffer stack 0xbfff_fff8 4 ≡ true
unfolding validate_from validate_pointer
number = refl

execute_resume-child_runs_example :
    (children' : List SharedMem) × (execute_resume 7
        (child_runs true true 0 (new_shared_mem false))
        []
      ≡ some (children', none))
unfolding xor
execute_resume-child_runs_example = execute_resume-child_runs 7 0 true true false []

abbrev relation : SharedMem
relation = record {
  child_tid = some 7;
  exit_status = minus_one;
  alive_count = 2;
  sema_exec = 0;
  sema_wait = 0;
  waited = false;
}

abbrev parent : Process
parent = record {
  parent_relation = relation;
  child_relations = record relation { child_tid = some 6 } ∷ relation ∷ [];
  files = no_files;
  waiting = false;
  loaded = true;
}

child_7 : find_child 7 parent.child_relations ≡ some relation
unfolding find_child
child_7 = refl

wait-exits_example :
    (p₁ : Process) × (process_wait (some 7) parent ≡ (p₁, blocked))
    × (wait_resume 7 p₁ ≡ none)
    × ((p₂ : Process) × (wait_resume 7 (child_exits 7 42 p₁) ≡ some (p₂, 42))
        × (process_wait (some 7) p₂ ≡ (p₂, returned minus_one)))
wait-exits_example = wait-exits 7 42 relation parent child_7 refl refl refl refl

-- A text segment of 5000 bytes at 0x8048100, of which the file has 4500
abbrev text : Elf32Phdr
text = record {
  p_type = 1;
  p_offset = 0x100;
  p_vaddr = 0x0804_8100;
  p_paddr = 0;
  p_filesz = 4500;
  p_memsz = 5000;
  p_flags = 5;
  p_align = 0x1000;
}

text-IsPhdr : IsPhdr text
text-IsPhdr = record {
  vaddr = omega arith;
  memsz = omega arith;
  filesz = omega arith;
  offset = omega arith;
}

text_valid : validate_segment text 8000 ≡ true
unfolding validate_segment
text_valid = refl

load_segment-validate_segment_example :
    (load_segment (λ a. true) (region text)
      ≡ some (
          install
            (λ a. true)
            (plan
              (page_count text)
              (region text).writable
              (region text).ofs
              (region text).upage
              (region text).read_bytes)))
    × IsInUserSpace text (region text)
load_segment-validate_segment_example =
    load_segment-validate_segment text 8000 text-IsPhdr text_valid (λ a. true)

-- A stack that holds the call `write (1, 0xbffff000, 2)`
abbrev call_stack : UserMemory
call_stack a =
    if a == 0xbfff_fff0
    then some 9
    else if a == 0xbfff_fff4
    then some 1
    else if a == 0xbfff_fff9
    then some 0xf0
    else if a == 0xbfff_fffa
    then some 0xff
    else if a == 0xbfff_fffb
    then some 0xbf
    else if a == 0xbfff_fffc
    then some 2
    else if leb 0xbfff_f000 a && ltb a 0xc000_0000
    then some 0
    else none

call_valid : validate_buffer call_stack 0xbfff_fff0 16 ≡ true
unfolding validate_from validate_pointer
call_valid = refl

syscall_handler-words_example : syscall_handler call_stack 0xbfff_fff0 ≡ write 1 0xbfff_f000 2
syscall_handler-words_example =
    syscall_handler-words call_stack 0xbfff_fff0 (write 1 0xbfff_f000 2) call_valid refl

abbrev queue : Intq
queue = record {
  not_full = none;
  not_empty = some 3;
  lock = none;
  lock_waiters = [];
  buf = λ k. k;
  head = 1;
  tail = 63;
}

queue-IsIntq : IsIntq queue
queue-IsIntq = record { head = omega arith; tail = omega arith }

intq_putc-contents_example :
    ((length (contents queue) < 63)
      × ((q' : Intq) × (intq_putc 1 true 65 queue ≡ some (q', done tt (some 3)))
          × (contents q' ≡ contents queue ++ 65 ∷ [])
          × (q'.not_empty ≡ none)
          × IsIntq q'))
    ⊎ ((length (contents queue) ≡ 63)
        × Waits queue (record queue { not_full = some 1 }) 1 true (intq_putc 1 true 65 queue))
intq_putc-contents_example = intq_putc-contents queue queue-IsIntq 1 true 65
