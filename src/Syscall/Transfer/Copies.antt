-- ===== src/Syscall/Transfer/Copies.antt =====
-- What read finds in a file after write, from one user buffer to another.
use pintos_nightmare.Base.{ℕ, ◌+◌, ◌<◌, ◌≡◌, true, some}
use pintos_nightmare.Inode.{Disk, InodeDisk}
use pintos_nightmare.Inode.Chunk.{available}
use pintos_nightmare.Syscall.{File, Files, UserMemory, get_file, byte_at}
use pintos_nightmare.Syscall.Transfer.{Transfer, Outcome, off_t_size, read}

module _ (inodes : ℕ → InodeDisk) (d : Disk) (mem : UserMemory) (n : ℕ) (f : File)
    (keys : ℕ → ℕ) where
  abbrev size : ℕ
  size = off_t_size n

  abbrev there : ℕ
  there = available (inodes f.inode) size f.pos

  -- What write leaves, and what read then gives
  pub record Copied (fd src dst : ℕ) (q : Files) (fd' : ℕ) (o : Outcome) : Type 0 where
    pub written : Transfer
    pub writes : o ≡ Outcome.returned written
    pub count : written.result ≡ some there
    pub advanced : get_file fd written.files ≡ some (record f { pos = f.pos + there })
    pub got : Transfer
    pub reads : read inodes true keys fd' dst n q written.disk mem ≡ Outcome.returned got
    pub same_count : got.result ≡ some there
    pub bytes : (k : ℕ) → k < there → got.memory (dst + k) ≡ some (byte_at mem (src + k))
