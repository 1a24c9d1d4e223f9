-- ===== src/Inode.antt =====
-- filesys/inode.c: the bytes of a file on the device. A sector, a buffer and a bounce buffer are
-- functions from offsets to bytes. Sizes and offsets are off_t values that are not negative: a
-- negative size reads and writes nothing, as size 0 does. A reader or a writer has the semaphores
-- of the inode for the whole loop, so the loop is one step here.
pub mod Chunk
pub mod Read
pub mod Write
use pintos_nightmare.Base.{
  ltb, leb, ◌==◌, if◌then◌else◌, ℕ, zero, suc, ◌+◌, ◌-◌, ◌/◌, ◌%◌, ◌^◌, Bool, ◌&&◌, ◌||◌,
}

abbrev pub block_sector_size : ℕ
block_sector_size = 512

abbrev pub Sector : Type 0
Sector = ℕ → ℕ

-- The block device that holds the file system, by sector number.
abbrev pub Disk : Type 0
Disk = ℕ → Sector

-- block_write
abbrev pub block_write : Disk → ℕ → Sector → Disk
block_write d s v t = if s == t then v else d t

-- memcpy (dst + to, src + from, size)
abbrev pub memcpy : (ℕ → ℕ) → ℕ → (ℕ → ℕ) → ℕ → ℕ → ℕ → ℕ
memcpy dst to src from size k = if leb to k && ltb k (to + size) then src (k - to + from) else dst k

-- `data` of `struct inode`, as on disk
pub record InodeDisk : Type 0 where
  pub start : ℕ
  pub length : ℕ

-- DIV_ROUND_UP (size, BLOCK_SECTOR_SIZE)
abbrev pub bytes_to_sectors : ℕ → ℕ
bytes_to_sectors size = (size + block_sector_size - 1) / block_sector_size

-- `(block_sector_t) -1` is 2 ^ 32 - 1.
abbrev pub byte_to_sector : InodeDisk → ℕ → ℕ
byte_to_sector inode pos =
    if ltb pos inode.length then inode.start + pos / block_sector_size else 2 ^ 32 - 1

abbrev pub smaller : ℕ → ℕ → ℕ
smaller a b = if ltb a b then a else b

-- The number of bytes that a round of either loop copies. Past the end of the file the source
-- finds a negative number of bytes left, and 0 serves as well.
unfoldable pub chunk_size : InodeDisk → ℕ → ℕ → ℕ
chunk_size inode size offset =
    smaller size (smaller (inode.length - offset) (block_sector_size - offset % block_sector_size))

-- The loop of inode_read_at. `malloc_ok` tells whether a bounce buffer can be had.
read_loop :
    (malloc_ok : Bool) → Disk → InodeDisk → ℕ → (ℕ → ℕ) → (size offset bytes_read : ℕ) → ℕ × (ℕ → ℕ)
read_loop malloc_ok d inode zero buffer size offset bytes_read = (bytes_read, buffer)
read_loop malloc_ok d inode (suc fuel) buffer size offset bytes_read =
    let sector_idx = byte_to_sector inode offset in
    let sector_ofs = offset % block_sector_size in
    let chunk = chunk_size inode size offset in
    let full =
      read_loop malloc_ok d inode fuel (memcpy buffer bytes_read (d sector_idx) 0 block_sector_size)
        (size - chunk) (offset + chunk) (bytes_read + chunk) in
    let part =
      read_loop malloc_ok d inode fuel (memcpy buffer bytes_read (d sector_idx) sector_ofs chunk)
        (size - chunk) (offset + chunk) (bytes_read + chunk) in
    if size == 0 || chunk == 0
    then (bytes_read, buffer)
    else (if sector_ofs == 0 && chunk == block_sector_size
        then full
        else (if malloc_ok then part else (bytes_read, buffer)))

-- inode_read_at: the number of bytes read, and the buffer. Each round copies a byte at least, so
-- `size` rounds and the last test are enough.
unfoldable pub read_at :
    (malloc_ok : Bool) → Disk → InodeDisk → (ℕ → ℕ) → (size offset : ℕ) → ℕ × (ℕ → ℕ)
unfolding read_loop
read_at malloc_ok d inode buffer size offset =
    read_loop malloc_ok d inode (size + 1) buffer size offset 0

-- What the bounce buffer holds before the chunk is copied in.
abbrev pub bounce : Disk → ℕ → (sector_ofs chunk : ℕ) → Sector
bounce d s sector_ofs chunk =
    if ltb 0 sector_ofs || ltb chunk (block_sector_size - sector_ofs) then d s else λ k. 0

-- The loop of inode_write_at.
write_loop :
    (malloc_ok : Bool) → InodeDisk → (ℕ → ℕ) → ℕ → Disk → (size offset bytes_written : ℕ) → ℕ × Disk
write_loop malloc_ok inode buffer zero d size offset bytes_written = (bytes_written, d)
write_loop malloc_ok inode buffer (suc fuel) d size offset bytes_written =
    let sector_idx = byte_to_sector inode offset in
    let sector_ofs = offset % block_sector_size in
    let chunk = chunk_size inode size offset in
    let full =
      write_loop malloc_ok inode buffer fuel
        (block_write d sector_idx (λ k. buffer (bytes_written + k))) (size - chunk) (offset + chunk)
        (bytes_written + chunk) in
    let part =
      write_loop malloc_ok inode buffer fuel
        (block_write d sector_idx
          (memcpy (bounce d sector_idx sector_ofs chunk) sector_ofs buffer bytes_written chunk))
        (size - chunk) (offset + chunk) (bytes_written + chunk) in
    if size == 0 || chunk == 0
    then (bytes_written, d)
    else (if sector_ofs == 0 && chunk == block_sector_size
        then full
        else (if malloc_ok then part else (bytes_written, d)))

-- inode_write_at: the number of bytes written, and the device.
unfoldable pub write_at :
    (malloc_ok : Bool) → InodeDisk → (ℕ → ℕ) → Disk → (size offset : ℕ) → ℕ × Disk
unfolding write_loop
write_at malloc_ok inode buffer d size offset =
    write_loop malloc_ok inode buffer (size + 1) d size offset 0

-- Byte `pos` of the file.
abbrev pub byte : Disk → InodeDisk → ℕ → ℕ
byte d inode pos = d (inode.start + pos / block_sector_size) (pos % block_sector_size)
