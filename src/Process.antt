-- ===== src/Process.antt =====
-- userprog/process.c: starting, waiting for and ending processes, by the `shared_mem` that a parent
-- and a child have in common. Each function is one step, since its reads and writes of a
-- `shared_mem` are made under `alive_count_lock`, and a thread that blocks on a semaphore goes on in
-- a function of its own. An int is its 32 bits. `none` for a tid is TID_ERROR.
pub mod Wait
use pintos_nightmare.Base.{
  ◌==◌, if◌then◌else◌, ◌>>=◌, ◌>>◌, ℕ, ◌+◌, ◌-◌, ◌%◌, ◌^◌, Bool, true, false, Option, none, some,
  List, [], ◌∷◌, ◌++◌,
}
use pintos_nightmare.InodeTable.{FileSys, inode_close}
use pintos_nightmare.Syscall.{FileDescriptor, Files}

abbrev pub minus_one : ℕ
minus_one = 0xffff_ffff

-- `--` on an int
abbrev pub down : ℕ → ℕ
down n = (n + minus_one) % 2 ^ 32

-- struct shared_mem; a semaphore is its value.
pub record SharedMem : Type 0 where
  pub child_tid : Option ℕ
  pub exit_status : ℕ
  pub alive_count : ℕ
  pub sema_exec : ℕ
  pub sema_wait : ℕ
  pub waited : Bool

-- What `struct thread` keeps for a process; `loaded` says that it has a page directory.
pub record Process : Type 0 where
  pub parent_relation : SharedMem
  pub child_relations : List SharedMem
  pub files : Files
  pub waiting : Bool
  pub loaded : Bool

-- The `shared_mem` of process_execute. `garbage` is what its memory held at `waited`, which is not
-- set.
unfoldable pub new_shared_mem : (garbage : Bool) → SharedMem
new_shared_mem garbage = record {
  child_tid = none;
  exit_status = minus_one;
  alive_count = 1;
  sema_exec = 0;
  sema_wait = 0;
  waited = garbage;
}

-- start_process, after `load` returned `success`
unfoldable pub start_process : (success : Bool) → SharedMem → SharedMem
start_process true sm = record sm {
  alive_count = (sm.alive_count + 1) % 2 ^ 32;
  sema_exec = sm.sema_exec + 1;
}
start_process false sm = record sm { exit_status = minus_one; sema_exec = sm.sema_exec + 1 }

-- What process_exit does to the relation with the parent
unfoldable pub leave_parent : SharedMem → SharedMem
leave_parent sm =
    if down sm.alive_count == 0
    then record sm { alive_count = 0 }
    else record sm { alive_count = down sm.alive_count; sema_wait = sm.sema_wait + 1 }

-- The system call `exit`, as the parent sees it
unfoldable pub exit : (status : ℕ) → SharedMem → SharedMem
exit status sm = leave_parent (record sm { exit_status = status })

-- process_execute from its sema_down on: `none` while it blocks, else the relations and the result.
unfoldable pub execute_resume :
    (tid : ℕ) → SharedMem → List SharedMem → Option (List SharedMem × Option ℕ)
execute_resume tid sm children =
    if sm.sema_exec == 0
    then none
    else if sm.alive_count == 1
    then some (children, none)
    else some (
      children ++ record sm { child_tid = some tid; sema_exec = sm.sema_exec - 1 } ∷ [],
      some tid,
    )

abbrev pub is_child : ℕ → Option ℕ → Bool
is_child tid none = false
is_child tid (some t) = t == tid

-- The loop of process_wait
unfoldable pub find_child : ℕ → List SharedMem → Option SharedMem
find_child tid [] = none
find_child tid (sm ∷ rest) =
    let later = find_child tid rest in if is_child tid sm.child_tid then some sm else later

-- A change to the relation that find_child finds
unfoldable pub update_child : (SharedMem → SharedMem) → ℕ → List SharedMem → List SharedMem
update_child f tid [] = []
update_child f tid (sm ∷ rest) =
    let later = update_child f tid rest in
    if is_child tid sm.child_tid then f sm ∷ rest else sm ∷ later

-- How far process_wait gets: it returns, or it blocks on `sema_wait`.
pub data Waiting : Type 0 where
  returned : (status : ℕ) → Waiting
  blocked : Waiting

abbrev pub mark_waited : SharedMem → SharedMem
mark_waited sm = record sm { waited = true }

unfoldable pub wait_for : ℕ → Option SharedMem → Process → Process × Waiting
wait_for tid none p = (p, returned minus_one)
wait_for tid (some sm) p =
    if sm.waited
    then (p, returned minus_one)
    else if sm.alive_count == 1
    then (p, returned sm.exit_status)
    else (
      record p { waiting = true; child_relations = update_child mark_waited tid p.child_relations },
      blocked,
    )

-- process_wait up to its sema_down
unfoldable pub process_wait : Option ℕ → Process → Process × Waiting
process_wait none p = (p, returned minus_one)
process_wait (some tid) p =
    if p.waiting then (p, returned minus_one) else wait_for tid (find_child tid p.child_relations) p

abbrev pub take_wait : SharedMem → SharedMem
take_wait sm = record sm { sema_wait = sm.sema_wait - 1 }

unfoldable pub resume_with : ℕ → Option SharedMem → Process → Option (Process × ℕ)
resume_with tid none p = none
resume_with tid (some sm) p =
    if sm.sema_wait == 0
    then none
    else some (
      record p { waiting = false; child_relations = update_child take_wait tid p.child_relations },
      sm.exit_status,
    )

-- process_wait from its sema_down on: `none` while it blocks.
unfoldable pub wait_resume : ℕ → Process → Option (Process × ℕ)
wait_resume tid p = resume_with tid (find_child tid p.child_relations) p

-- A child's exit, in the relations of its parent
unfoldable pub child_exits : (tid status : ℕ) → Process → Process
child_exits tid status p = record p {
  child_relations = update_child (exit status) tid p.child_relations;
}

-- What process_exit does to the open files; the list is left as it is.
unfoldable pub close_all : List FileDescriptor → FileSys → Option FileSys
close_all [] fs = some fs
close_all (d ∷ ds) fs = do fs ← inode_close d.file.inode fs; close_all ds fs

-- What process_exit does to the relations with the children
unfoldable pub leave_children : List SharedMem → List SharedMem
leave_children [] = []
leave_children (sm ∷ rest) =
    let rest = leave_children rest in
    if down sm.alive_count == 0
    then rest
    else record sm { alive_count = down sm.alive_count } ∷ rest

unfoldable pub process_exit : Process → FileSys → Option (Process × FileSys)
process_exit p fs = do
  fs ← close_all p.files.file_descriptors fs
  some (
    record p {
      parent_relation = leave_parent p.parent_relation;
      child_relations = leave_children p.child_relations;
      loaded = false;
    },
    fs,
  )
