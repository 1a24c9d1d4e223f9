-- ===== src/Syscall.antt =====
-- userprog/syscall.c: the file descriptors of a process, the checks of user pointers, and the
-- arguments of a system call. A file is the inode's sector and a position (`struct file`). `none`
-- is a failed ASSERT, and `exit (-1)` of the process is the outcome `killed`.
pub mod Descriptors
pub mod Handler
pub mod Pointers
pub mod Transfer
use pintos_nightmare.Base.{
  ltb, leb, ◌==◌, if◌then◌else◌, ◌>>=◌, ◌>>◌, ℕ, zero, suc, ◌+◌, ◌*◌, ◌%◌, ◌^◌, Bool, true, false,
  not, ◌&&◌, ◌||◌, Option, none, some, List, [], ◌∷◌, ◌++◌,
}
use pintos_nightmare.InodeTable.{FileSys, Env, inode_close}
use pintos_nightmare.Directory.{filesys_open}
use pintos_nightmare.Vaddr.{phys_base, is_kernel_vaddr}

-- struct file
pub record File : Type 0 where
  pub inode : ℕ
  pub pos : ℕ

-- struct file_descriptor
pub record FileDescriptor : Type 0 where
  pub fd : ℕ
  pub file : File

-- What a process's `struct thread` keeps of its files
pub record Files : Type 0 where
  pub next_fd : ℕ
  pub file_descriptors : List FileDescriptor

-- MAX_FDS
abbrev pub max_fds : ℕ
max_fds = 130

abbrev pub bad_fd : ℕ → Bool
bad_fd fd = ltb fd 2 || leb max_fds fd

-- What init_thread sets
abbrev pub no_files : Files
no_files = record { next_fd = 2; file_descriptors = [] }

unfoldable pub find_fd : ℕ → List FileDescriptor → Option File
find_fd fd [] = none
find_fd fd (d ∷ ds) = let rest = find_fd fd ds in if d.fd == fd then some d.file else rest

-- get_file: `none` is NULL.
unfoldable pub get_file : ℕ → Files → Option File
get_file fd p = if bad_fd fd then none else find_fd fd p.file_descriptors

unfoldable pub drop_fd : ℕ → List FileDescriptor → List FileDescriptor
drop_fd fd [] = []
drop_fd fd (d ∷ ds) = let rest = drop_fd fd ds in if d.fd == fd then ds else d ∷ rest

-- open of a file that filesys_open found: the descriptor. Its memory is taken to be there.
unfoldable pub open_as : Option ℕ → Files → Files × Option ℕ
open_as none p = (p, none)
open_as (some inode) p = (
  record p {
    next_fd = p.next_fd + 1;
    file_descriptors =
        p.file_descriptors
        ++ record { fd = p.next_fd; file = record { inode = inode; pos = 0 } } ∷ [];
  },
  some p.next_fd,
)

-- open, of a valid string: the descriptor, or `none` for -1
unfoldable pub open_file : Env → List ℕ → Files → FileSys → Option (Files × FileSys × Option ℕ)
open_file env name p fs = if leb max_fds p.next_fd then some (p, fs, none) else (do
  (fs, inode) ← filesys_open env name fs
  let (p, fd) = open_as inode p
  some (p, fs, fd))

unfoldable pub close_found : ℕ → Option File → Files → FileSys → Option (Files × FileSys)
close_found fd none p fs = some (p, fs)
close_found fd (some f) p fs = do
  fs ← inode_close f.inode fs
  some (record p { file_descriptors = drop_fd fd p.file_descriptors }, fs)

-- close
unfoldable pub close_file : ℕ → Files → FileSys → Option (Files × FileSys)
close_file fd p fs = close_found fd (get_file fd p) p fs

-- Moving the position of a descriptor's file
unfoldable pub set_pos : ℕ → ℕ → List FileDescriptor → List FileDescriptor
set_pos fd pos [] = []
set_pos fd pos (d ∷ ds) =
    let rest = set_pos fd pos ds in
    if d.fd == fd then record d { file = record d.file { pos = pos } } ∷ ds else d ∷ rest

unfoldable pub seek_in : ℕ → ℕ → (file_length : ℕ → ℕ) → Option File → Files → Option Files
seek_in fd position file_length none p = none
seek_in fd position file_length (some f) p =
    if ltb (file_length f.inode) position
    then some p
    else some (record p { file_descriptors = set_pos fd position p.file_descriptors })

-- seek: the ASSERT is on the file not being NULL. `file_length` is the length of an inode.
unfoldable pub seek : ℕ → (position : ℕ) → (file_length : ℕ → ℕ) → Files → Option Files
seek fd position file_length p = seek_in fd position file_length (get_file fd p) p

-- tell: `none` is -1.
unfoldable pub tell : ℕ → Files → Option ℕ
tell fd p = elim (get_file fd p) [ none ↦ none | some f ↦ some f.pos ]

unfoldable pub filesize : ℕ → (file_length : ℕ → ℕ) → Files → Option ℕ
filesize fd file_length p =
    if bad_fd fd
    then none
    else elim (get_file fd p) [ none ↦ none | some f ↦ some (file_length f.inode) ]

-- The memory of a process: the byte at a mapped address, as pagedir_get_page finds it.
abbrev pub UserMemory : Type 0
UserMemory = ℕ → Option ℕ

abbrev pub is_mapped : Option ℕ → Bool
is_mapped none = false
is_mapped (some b) = true

-- validate_pointer: false is exit (-1).
unfoldable pub validate_pointer : UserMemory → ℕ → Bool
validate_pointer mem ptr = not (ptr == 0) && not (is_kernel_vaddr ptr) && is_mapped (mem ptr)

-- validate_buffer; an address past the last one of 32 bits is 0 again.
unfoldable pub validate_from : UserMemory → (count : ℕ) → ℕ → Bool
validate_from mem zero ptr = true
validate_from mem (suc n) ptr = validate_pointer mem (ptr % 2 ^ 32) && validate_from mem n (ptr + 1)

abbrev pub validate_buffer : UserMemory → (buffer size : ℕ) → Bool
validate_buffer mem buffer size = validate_from mem size buffer

abbrev pub validate_set_args : UserMemory → (esp amount : ℕ) → Bool
validate_set_args mem esp amount = validate_from mem (amount * 4) esp

-- validate_string, for `fuel` bytes: `none` runs out of fuel. The bytes walked are all below
-- PHYS_BASE, so as many rounds are enough.
unfoldable pub validate_string : UserMemory → (fuel : ℕ) → ℕ → Option Bool
validate_string mem zero ptr = none
validate_string mem (suc n) ptr =
    let rest = validate_string mem n (ptr + 1) in
    if not (validate_pointer mem (ptr % 2 ^ 32)) then some false else elim (mem (ptr % 2 ^ 32)) [
      | none ↦ some false
      | some b ↦ if b == 0 then some true else rest
    ]

-- The int at an address, the lowest byte first
abbrev pub byte_at : UserMemory → ℕ → ℕ
byte_at mem a = elim (mem (a % 2 ^ 32)) [ none ↦ 0 | some b ↦ b ]

abbrev pub int_at : UserMemory → ℕ → ℕ
int_at mem a =
    byte_at mem a
    + 256 * byte_at mem (a + 1)
    + 65536 * byte_at mem (a + 2)
    + 16777216 * byte_at mem (a + 3)

-- The loop of retrive_args1: `none` is exit (-1).
unfoldable pub fetch_args : UserMemory → (count arg_ptr : ℕ) → Option (List ℕ)
fetch_args mem zero arg_ptr = some []
fetch_args mem (suc n) arg_ptr =
    if validate_pointer mem (arg_ptr % 2 ^ 32)
    then (do rest ← fetch_args mem n (arg_ptr + 4); some (int_at mem (arg_ptr + 4) ∷ rest))
    else none

unfoldable pub retrive_args1 : UserMemory → (esp argc : ℕ) → Option (List ℕ)
retrive_args1 mem esp argc =
    if validate_set_args mem (esp + 4) argc then fetch_args mem argc esp else none
