-- ===== src/InodeTable.antt =====
-- filesys/inode.c: creating, opening, closing and removing inodes. The file system's locks are
-- seen from the running thread: `filesys_lock` and `dir_lock` say whether it holds them, and
-- acquiring a lock that it holds is a failed ASSERT. An open inode is named by its sector, since
-- a sector is open once at most. `none` is a panic.
pub mod Keep
pub mod Laws
pub mod OpenClose
use pintos_nightmare.Base.{
  ltb, ◌==◌, if◌then◌else◌, length, ◌>>=◌, ◌>>◌, assert, ℕ, zero, suc, ◌+◌, ◌-◌, ◌*◌, ◌/◌, ◌%◌, ◌^◌,
  Bool, true, false, not, Option, none, some, List, [], ◌∷◌,
}
use pintos_nightmare.FreeMap
use pintos_nightmare.FreeMap.{FreeMap}
use pintos_nightmare.Inode.{Disk, Sector, InodeDisk, block_write, bytes_to_sectors}

-- `struct inode`, less the semaphores of its readers and writers
pub record OpenInode : Type 0 where
  pub sector : ℕ
  pub open_cnt : ℕ
  pub removed : Bool
  pub info : InodeDisk

-- `struct dir_entry`; the name is its bytes before the terminator.
pub record DirEntry : Type 0 where
  pub inode_sector : ℕ
  pub name : List ℕ
  pub in_use : Bool

-- `entries` is the contents of the root directory's file, entry by entry.
pub record FileSys : Type 0 where
  pub free_map : FreeMap
  pub disk : Disk
  pub open_inodes : List OpenInode
  pub entries : List DirEntry
  pub filesys_lock : Bool
  pub dir_lock : Bool

-- Which allocations of a call succeed, and whether the free map and a directory entry can be
-- written.
pub record Env : Type 0 where
  pub inode_ok : Bool
  pub disk_inode_ok : Bool
  pub dir_ok : Bool
  pub file_ok : Bool
  pub write_ok : Bool
  pub entry_ok : Bool

-- The on-disk inode: `start` in bytes 0 to 3 of its sector and `length` in bytes 4 to 7, the lowest
-- first, then the magic number.
pub inode_magic : ℕ
inode_magic = 0x494e_4f44

abbrev pub word_byte : ℕ → ℕ → ℕ
word_byte w i = w / 256 ^ i % 256

unfoldable pub sector_of : InodeDisk → Sector
unfolding inode_magic
sector_of inode k =
    if ltb k 4
    then word_byte inode.start k
    else (if ltb k 8
        then word_byte inode.length (k - 4)
        else (if ltb k 12 then word_byte inode_magic (k - 8) else 0))

abbrev pub word_at : Sector → ℕ → ℕ
word_at s k = s k + 256 * s (k + 1) + 65536 * s (k + 2) + 16777216 * s (k + 3)

unfoldable pub inode_of : Sector → InodeDisk
inode_of s = record { start = word_at s 0; length = word_at s 4 }

abbrev pub acquire_filesys : FileSys → Option FileSys
acquire_filesys fs = do assert (not fs.filesys_lock); some (record fs { filesys_lock = true })

abbrev pub release_filesys : FileSys → FileSys
release_filesys fs = record fs { filesys_lock = false }

unfoldable pub find : ℕ → List OpenInode → Option OpenInode
find sector [] = none
find sector (i ∷ is) = let rest = find sector is in if i.sector == sector then some i else rest

-- Changing the open inode of a sector.
unfoldable pub change : (OpenInode → OpenInode) → ℕ → List OpenInode → List OpenInode
change f sector [] = []
change f sector (i ∷ is) =
    let rest = change f sector is in if i.sector == sector then f i ∷ is else i ∷ rest

-- list_remove
unfoldable pub drop_inode : ℕ → List OpenInode → List OpenInode
drop_inode sector [] = []
drop_inode sector (i ∷ is) =
    let rest = drop_inode sector is in if i.sector == sector then is else i ∷ rest

abbrev pub more_open : OpenInode → OpenInode
more_open i = record i { open_cnt = i.open_cnt + 1 }

abbrev pub less_open : OpenInode → OpenInode
less_open i = record i { open_cnt = i.open_cnt - 1 }

abbrev pub mark_removed : OpenInode → OpenInode
mark_removed i = record i { removed = true }

-- inode_reopen of an inode that is not NULL
unfoldable pub inode_reopen : ℕ → FileSys → FileSys
inode_reopen sector fs = record fs { open_inodes = change more_open sector fs.open_inodes }

abbrev pub opened : Disk → ℕ → OpenInode
opened d sector = record {
  sector = sector;
  open_cnt = 1;
  removed = false;
  info = inode_of (d sector);
}

unfoldable pub open_found : Option OpenInode → Env → ℕ → FileSys → FileSys × Bool
open_found (some i) env sector fs = (release_filesys (inode_reopen sector fs), true)
open_found none env sector fs =
    if env.inode_ok
    then (
      release_filesys (record fs { open_inodes = opened fs.disk sector ∷ fs.open_inodes }),
      true,
    )
    else (fs, false)

-- inode_open: whether the inode is not NULL. Where `malloc` fails the source returns with
-- `filesys_lock` held.
unfoldable pub inode_open : Env → ℕ → FileSys → Option (FileSys × Bool)
inode_open env sector fs = do
  fs ← acquire_filesys fs
  some (open_found (find sector fs.open_inodes) env sector fs)

-- What the last close of `i` does to the free map.
unfoldable pub give_back : OpenInode → FreeMap → Option FreeMap
give_back i m =
    if i.removed
    then (do
      m ← FreeMap.release m i.sector 1
      FreeMap.release m i.info.start (bytes_to_sectors i.info.length))
    else some m

-- inode_close of an inode that is not NULL
unfoldable pub inode_close : ℕ → FileSys → Option FileSys
inode_close sector fs = do
  fs ← acquire_filesys fs
  i ← find sector fs.open_inodes
  if i.open_cnt == 1
      then (do
        m ← give_back i fs.free_map
        some (
            release_filesys
              (record fs { free_map = m; open_inodes = drop_inode sector fs.open_inodes })))
      else some
          (release_filesys (record fs { open_inodes = change less_open sector fs.open_inodes }))

unfoldable pub inode_remove : ℕ → FileSys → Option FileSys
inode_remove sector fs = do
  fs ← acquire_filesys fs
  some (release_filesys (record fs { open_inodes = change mark_removed sector fs.open_inodes }))

-- Writing `n` sectors of zeros from `s` on.
unfoldable pub zero_sectors : ℕ → ℕ → Disk → Disk
zero_sectors zero s d = d
zero_sectors (suc n) s d = zero_sectors n (s + 1) (block_write d s (λ k. 0))

unfoldable pub fill_new : Option ℕ → (sector length : ℕ) → FileSys → FileSys × Bool
fill_new none sector length fs = (release_filesys fs, false)
fill_new (some s) sector length fs =
    let header = block_write fs.disk sector (sector_of (record { start = s; length = length })) in
    (release_filesys (record fs { disk = zero_sectors (bytes_to_sectors length) s header }), true)

unfoldable pub inode_create : Env → (sector length : ℕ) → FileSys → Option (FileSys × Bool)
inode_create env sector length fs = do
  fs ← acquire_filesys fs
  if not env.disk_inode_ok then some (release_filesys fs, false) else (do
    (m, start) ← FreeMap.allocate env.write_ok fs.free_map (bytes_to_sectors length)
    some (fill_new start sector length (record fs { free_map = m })))
