-- ===== src/Inode/Chunk.antt =====
-- What one round of the loops of inode_read_at and inode_write_at covers.
use pintos_nightmare.Base.{◌==◌, ℕ, ◌+◌, ◌-◌, ◌/◌, ◌%◌, ◌≤◌, ◌<◌, ◌≡◌, true, false, ◌||◌, arith}
use pintos_nightmare.Inode.{Disk, InodeDisk, byte_to_sector, smaller, chunk_size, byte}

-- How many of `size` bytes at `offset` lie in the file.
abbrev pub available : InodeDisk → ℕ → ℕ → ℕ
available inode size offset = smaller size (inode.length - offset)

module _ (inode : InodeDisk) (size offset : ℕ) where
  abbrev chunk : ℕ
  chunk = chunk_size inode size offset

  pub record Round : Type 0 where
    pub some_bytes : 0 < chunk
    pub in_size : chunk ≤ size
    pub in_file : offset + chunk ≤ inode.length
    pub in_sector : offset % 512 + chunk ≤ 512
    pub rest : available inode size offset ≡ chunk + available inode (size - chunk) (offset + chunk)
    pub sector : byte_to_sector inode offset ≡ inode.start + offset / 512

  pub chunk-Round : (size == 0 || chunk == 0) ≡ false → Round
  unfolding chunk_size
  chunk-Round go = record {
    some_bytes = ground arith;
    in_size = ground arith;
    in_file = ground arith;
    in_sector = ground arith;
    rest = ground arith;
    sector = ground arith;
  }

  pub available-zero : (size == 0 || chunk == 0) ≡ true → available inode size offset ≡ 0
  unfolding chunk_size
  available-zero stop = ground arith

-- Inside a round the byte numbers run through one sector.
pub byte-in_sector :
    (d : Disk) (inode : InodeDisk) (offset j : ℕ)
    → offset % 512 + j < 512
    → byte d inode (offset + j) ≡ d (inode.start + offset / 512) (offset % 512 + j)
byte-in_sector d inode offset j h =
    let e : (offset + j) / 512 ≡ offset / 512 = omega arith in
    let e' : (offset + j) % 512 ≡ offset % 512 + j = omega arith in rw (e, e')
