-- ===== src/Syscall/Transfer.antt =====
-- The system calls read and write on files: userprog/syscall.c, with file_read and file_write of
-- filesys/file.c. `inodes` has the data of the open inodes, by sector. The text on
-- the console is not kept; `killed` is exit (-1).
pub mod Copies
use pintos_nightmare.Base.{
  ltb, leb, ◌==◌, if◌then◌else◌, ℕ, zero, suc, ◌+◌, ◌-◌, ◌^◌, Bool, ◌&&◌, Option, none, some,
}
use pintos_nightmare.Inode.{Disk, InodeDisk, read_at, write_at, byte}
use pintos_nightmare.Syscall.{File, Files, UserMemory, get_file, set_pos, validate_buffer, byte_at}

-- file_read: the file, the number of bytes, and the buffer
unfoldable pub file_read :
    (inodes : ℕ → InodeDisk) (malloc_ok : Bool)
    → Disk
    → File
    → (buffer : ℕ → ℕ) (size : ℕ) → File × ℕ × (ℕ → ℕ)
file_read inodes malloc_ok d file buffer size =
    let (bytes_read, buffer) = read_at malloc_ok d (inodes file.inode) buffer size file.pos in
    (record file { pos = file.pos + bytes_read }, bytes_read, buffer)

-- file_write: the file, the number of bytes, and the disk
unfoldable pub file_write :
    (inodes : ℕ → InodeDisk) (malloc_ok : Bool)
    → Disk
    → File
    → (buffer : ℕ → ℕ) (size : ℕ) → File × ℕ × Disk
file_write inodes malloc_ok d file buffer size =
    let (bytes_written, d) = write_at malloc_ok (inodes file.inode) buffer d size file.pos in
    (record file { pos = file.pos + bytes_written }, bytes_written, d)

-- An unsigned `size` as the off_t that file_read and file_write take. From 2 ^ 31 on that is
-- negative, and their loops, which run while the size is above 0, end at once as they do on 0.
unfoldable pub off_t_size : ℕ → ℕ
off_t_size size = if ltb size (2 ^ 31) then size else 0

-- The bytes of a user buffer
abbrev pub user_bytes : UserMemory → (buffer : ℕ) → ℕ → ℕ
user_bytes mem buffer k = byte_at mem (buffer + k)

-- What a call returns: the descriptors, the disk, the memory and the result, `none` being -1
pub record Transfer : Type 0 where
  pub files : Files
  pub disk : Disk
  pub memory : UserMemory
  pub result : Option ℕ

pub data Outcome : Type 0 where
  killed : Outcome
  returned : Transfer → Outcome

-- The memory after `size` bytes of it are set from the buffer
abbrev pub store : UserMemory → (buffer size : ℕ) → (ℕ → ℕ) → UserMemory
store mem buffer size bytes a =
    if leb buffer a && ltb a (buffer + size) then some (bytes (a - buffer)) else mem a

-- The bytes of an int, as `*(int *)` stores them, of a value below 256
abbrev pub int_bytes : ℕ → ℕ → ℕ
int_bytes value k = if k == 0 then value else 0

-- The loop of read on the keyboard, for `n` more bytes from the `i`-th on
unfoldable pub read_keys : (keys : ℕ → ℕ) (n i buffer : ℕ) → UserMemory → UserMemory
read_keys keys zero i buffer mem = mem
read_keys keys (suc n) i buffer mem =
    read_keys keys n (i + 1) buffer (store mem (buffer + i) 4 (int_bytes (keys i)))

module _ (inodes : ℕ → InodeDisk) (malloc_ok : Bool) where
  unfoldable pub write_file :
      (fd : ℕ) → Option File → (buffer size : ℕ) → Files → Disk → UserMemory → Transfer
  write_file fd none buffer size p d mem = record {
    files = p;
    disk = d;
    memory = mem;
    result = none;
  }
  write_file fd (some f) buffer size p d mem =
      let (f, bytes_written, d) =
        file_write inodes malloc_ok d f (user_bytes mem buffer) (off_t_size size) in
      record {
        files = record p { file_descriptors = set_pos fd f.pos p.file_descriptors };
        disk = d;
        memory = mem;
        result = some bytes_written;
      }

  -- write; what goes to the console on descriptor 1 is not kept.
  unfoldable pub write : (fd buffer size : ℕ) → Files → Disk → UserMemory → Outcome
  write fd buffer size p d mem =
      if validate_buffer mem buffer size
      then returned (
          if fd == 1
          then record { files = p; disk = d; memory = mem; result = some size }
          else write_file fd (get_file fd p) buffer size p d mem)
      else killed

  unfoldable pub read_file :
      (fd : ℕ) → Option File → (buffer size : ℕ) → Files → Disk → UserMemory → Transfer
  read_file fd none buffer size p d mem = record {
    files = p;
    disk = d;
    memory = mem;
    result = none;
  }
  read_file fd (some f) buffer size p d mem =
      let (f, bytes_read, bytes) =
        file_read inodes malloc_ok d f (user_bytes mem buffer) (off_t_size size) in
      record {
        files = record p { file_descriptors = set_pos fd f.pos p.file_descriptors };
        disk = d;
        memory = store mem buffer (off_t_size size) bytes;
        result = some bytes_read;
      }

  -- read; `keys` are the bytes that input_getc gives.
  unfoldable pub read : (keys : ℕ → ℕ) (fd buffer size : ℕ) → Files → Disk → UserMemory → Outcome
  read keys fd buffer size p d mem =
      if validate_buffer mem buffer size
      then returned (
          if fd == 0
          then record {
            files = p;
            disk = d;
            memory = read_keys keys size 0 buffer mem;
            result = some size;
          }
          else read_file fd (get_file fd p) buffer size p d mem)
      else killed
