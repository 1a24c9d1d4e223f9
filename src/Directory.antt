-- ===== src/Directory.antt =====
-- filesys/directory.c and filesys/filesys.c: names and the files they stand for. The only
-- directory is the root, whose file has a fixed size: `entries` holds its slots, and a loop over
-- its offsets is a walk of the slots. The reads of that file are taken to succeed. `none` is a panic.
pub mod Laws
pub mod Remove
use pintos_nightmare.Base.{
  ltb, ◌==◌, if◌then◌else◌, length, set, take, drop, ◌>>=◌, ◌>>◌, assert, ℕ, ◌+◌, ◌-◌, Bool, true,
  false, not, ◌&&◌, ◌||◌, Option, none, some, List, [], ◌∷◌,
}
use pintos_nightmare.FreeMap
use pintos_nightmare.FreeMap.{root_dir_sector}
use pintos_nightmare.InodeTable.{
  DirEntry, FileSys, Env, inode_open, inode_close, inode_remove, inode_create,
}

-- NAME_MAX
abbrev pub name_max : ℕ
name_max = 14

-- strcmp (a, b) == 0
unfoldable pub same_name : List ℕ → List ℕ → Bool
same_name [] [] = true
same_name [] (y ∷ ys) = false
same_name (x ∷ xs) [] = false
same_name (x ∷ xs) (y ∷ ys) = (x == y) && same_name xs ys

-- strlcpy into a buffer of `size` bytes
unfoldable pub strlcpy : List ℕ → (size : ℕ) → List ℕ
strlcpy src size = take (size - 1) src

-- lookup: the first slot in use with that name, and its place.
unfoldable pub lookup_from : (slot : ℕ) → List ℕ → List DirEntry → Option (DirEntry × ℕ)
lookup_from slot name [] = none
lookup_from slot name (e ∷ es) =
    let rest = lookup_from (slot + 1) name es in
    if e.in_use && same_name name e.name then some (e, slot) else rest

abbrev pub lookup : List ℕ → List DirEntry → Option (DirEntry × ℕ)
lookup name es = lookup_from 0 name es

-- The slot that dir_add writes: the first that is free, else the end of the file.
unfoldable pub free_slot : (slot : ℕ) → List DirEntry → ℕ
free_slot slot [] = slot
free_slot slot (e ∷ es) = let rest = free_slot (slot + 1) es in if not e.in_use then slot else rest

-- dir_open of an inode: whether the directory is not NULL. Where `calloc` fails the inode is
-- closed again.
unfoldable pub dir_open : Env → Option ℕ → FileSys → Option (FileSys × Bool)
dir_open env none fs = some (fs, false)
dir_open env (some sector) fs =
    if env.dir_ok then some (fs, true) else (do fs ← inode_close sector fs; some (fs, false))

abbrev pub inode_of_open : ℕ → Bool → Option ℕ
inode_of_open sector true = some sector
inode_of_open sector false = none

unfoldable pub dir_open_root : Env → FileSys → Option (FileSys × Bool)
dir_open_root env fs = do
  (fs, ok) ← inode_open env root_dir_sector fs
  dir_open env (inode_of_open root_dir_sector ok) fs

-- dir_close; `dir` says that the directory is not NULL.
unfoldable pub dir_close : (dir : Bool) → FileSys → Option FileSys
dir_close dir fs = if dir then inode_close root_dir_sector fs else some fs

unfoldable pub look_in : Env → Option (DirEntry × ℕ) → FileSys → Option (FileSys × Option ℕ)
look_in env none fs = some (fs, none)
look_in env (some (e, slot)) fs = do
  (fs, ok) ← inode_open env e.inode_sector fs
  some (fs, inode_of_open e.inode_sector ok)

-- dir_lookup: the inode of that name, open
unfoldable pub dir_lookup : Env → List ℕ → FileSys → Option (FileSys × Option ℕ)
dir_lookup env name fs = look_in env (lookup name fs.entries) fs

-- Writing an entry to a slot: whether it was written. At the end of the file nothing is.
unfoldable pub write_entry : Env → (slot : ℕ) → DirEntry → List DirEntry → List DirEntry × Bool
write_entry env slot e es =
    if env.entry_ok && ltb slot (length es) then (set es slot e, true) else (es, false)

unfoldable pub add_entry :
    Env → List ℕ → (sector : ℕ) → Option (DirEntry × ℕ) → List DirEntry → List DirEntry × Bool
add_entry env name sector (some found) es = (es, false)
add_entry env name sector none es =
    write_entry env (free_slot 0 es)
      (record { inode_sector = sector; name = strlcpy name (name_max + 1); in_use = true }) es

abbrev pub acquire_dir : FileSys → Option FileSys
acquire_dir fs = do assert (not fs.dir_lock); some (record fs { dir_lock = true })

-- dir_add: on a name that is empty or too long it returns with `dir_lock` held.
unfoldable pub dir_add : Env → List ℕ → (sector : ℕ) → FileSys → Option (FileSys × Bool)
dir_add env name sector fs = do
  fs ← acquire_dir fs
  let (es, ok) = add_entry env name sector (lookup name fs.entries) fs.entries
  some (
      if (length name == 0) || ltb name_max (length name)
      then (fs, false)
      else (record fs { entries = es; dir_lock = false }, ok))

-- dir_remove after the entry's inode was opened
unfoldable pub erase :
    Env → DirEntry → (slot : ℕ) → (opened : Bool) → FileSys → Option (FileSys × Bool)
erase env e slot false fs = some (fs, false)
erase env e slot true fs = do
  let (es, ok) = write_entry env slot (record e { in_use = false }) fs.entries
  fs ← (if ok then inode_remove e.inode_sector (record fs { entries = es }) else some fs)
  fs ← inode_close e.inode_sector fs
  some (fs, ok)

unfoldable pub remove_found : Env → Option (DirEntry × ℕ) → FileSys → Option (FileSys × Bool)
remove_found env none fs = some (fs, false)
remove_found env (some (e, slot)) fs = do
  (fs, ok) ← inode_open env e.inode_sector fs
  erase env e slot ok fs

unfoldable pub dir_remove : Env → List ℕ → FileSys → Option (FileSys × Bool)
dir_remove env name fs = do
  fs ← acquire_dir fs
  (fs, ok) ← remove_found env (lookup name fs.entries) fs
  some (record fs { dir_lock = false }, ok)

-- dir_readdir from a slot on: the next slot to read, and the name
unfoldable pub readdir_from : (slot : ℕ) → List DirEntry → ℕ × Option (List ℕ)
readdir_from slot [] = (slot, none)
readdir_from slot (e ∷ es) =
    let rest = readdir_from (slot + 1) es in
    if e.in_use then (slot + 1, some (strlcpy e.name (name_max + 1))) else rest

unfoldable pub dir_readdir : (pos : ℕ) → FileSys → ℕ × Option (List ℕ)
dir_readdir pos fs = readdir_from pos (drop pos fs.entries)

-- file_open: whether the file is not NULL
unfoldable pub file_open : Env → Option ℕ → FileSys → Option (FileSys × Option ℕ)
file_open env none fs = some (fs, none)
file_open env (some sector) fs =
    if env.file_ok then some (fs, some sector) else (do fs ← inode_close sector fs; some (fs, none))

-- filesys_open: the inode of the new file
unfoldable pub filesys_open : Env → List ℕ → FileSys → Option (FileSys × Option ℕ)
filesys_open env name fs = do
  (fs, dir) ← dir_open_root env fs
  (fs, inode) ← (if dir then dir_lookup env name fs else some (fs, none))
  fs ← dir_close dir fs
  file_open env inode fs

unfoldable pub filesys_remove : Env → List ℕ → FileSys → Option (FileSys × Bool)
filesys_remove env name fs = do
  (fs, dir) ← dir_open_root env fs
  (fs, ok) ← (if dir then dir_remove env name fs else some (fs, false))
  fs ← dir_close dir fs
  some (fs, ok)

-- The && chain of filesys_create, with the sector of the inode where one was allocated
unfoldable pub create_in : Env → List ℕ → (size : ℕ) → Option ℕ → FileSys → Option (FileSys × Bool)
create_in env name size none fs = some (fs, false)
create_in env name size (some sector) fs = do
  (fs, made) ← inode_create env sector size fs
  (fs, added) ← (if made then dir_add env name sector fs else some (fs, false))
  if added || (sector == 0)
      then some (fs, added)
      else (do m ← FreeMap.release fs.free_map sector 1; some (record fs { free_map = m }, added))

unfoldable pub allocate_inode : Env → (dir : Bool) → FileSys → Option (FileSys × Option ℕ)
allocate_inode env false fs = some (fs, none)
allocate_inode env true fs = do
  (m, sector) ← FreeMap.allocate env.write_ok fs.free_map 1
  some (record fs { free_map = m }, sector)

unfoldable pub filesys_create :
    Env → List ℕ → (initial_size : ℕ) → FileSys → Option (FileSys × Bool)
filesys_create env name initial_size fs = do
  (fs, dir) ← dir_open_root env fs
  (fs, sector) ← allocate_inode env dir fs
  (fs, ok) ← create_in env name initial_size sector fs
  fs ← dir_close dir fs
  some (fs, ok)
