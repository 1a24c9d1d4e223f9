-- ===== src/Tests/Transfers.antt =====
-- Reading what was written, through a second descriptor of the file.
use pintos_nightmare.Base.{ℕ, ◌%◌, some, [], ◌∷◌}
use pintos_nightmare.Inode.{Disk, InodeDisk}
use pintos_nightmare.Syscall.{File, Files, UserMemory}

abbrev small_file : ℕ → InodeDisk
small_file s = record { start = 5; length = 600 }

abbrev zeros : Disk
zeros s k = 0

abbrev numbered : UserMemory
numbered a = some (a % 256)

-- At the end of the file's first sector
abbrev at_508 : File
at_508 = record { inode = 9; pos = 508 }

abbrev two_files : Files
two_files = record {
  next_fd = 4;
  file_descriptors = record { fd = 2; file = at_508 } ∷ record { fd = 3; file = at_508 } ∷ [];
}
