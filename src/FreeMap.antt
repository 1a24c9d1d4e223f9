-- ===== src/FreeMap.antt =====
-- filesys/free-map.c: which sectors of the file system device are in use. Each function holds
-- `free_map_lock` from its first line to its last, so a call is one step. What `bitmap_write`
-- answers is an argument, since it depends on the device. `none` is a panic.
pub mod Alloc
use pintos_nightmare.Base.{
  ◌==◌, if◌then◌else◌, ◌>>=◌, ◌>>◌, assert, ℕ, Bool, false, not, ◌&&◌, Option, none, some,
}
use pintos_nightmare.Bitmap
use pintos_nightmare.Bitmap.{Bitmap, bitmap_error, mark, scan_and_flip, set_multiple}

abbrev pub free_map_sector : ℕ
free_map_sector = 0

abbrev pub root_dir_sector : ℕ
root_dir_sector = 1

-- `file_open` says that `free_map_file` is not NULL.
pub record FreeMap : Type 0 where
  pub map : Bitmap
  pub file_open : Bool

-- free_map_init; `fresh` is what bitmap_create returns for the device.
unfoldable pub init : (fresh : Option Bitmap) → Option FreeMap
init fresh = do
  b ← fresh
  b ← mark b free_map_sector
  b ← mark b root_dir_sector
  some (record { map = b; file_open = false })

-- free_map_allocate: the new map, and the first sector if there is one.
unfoldable pub allocate : (write_ok : Bool) → FreeMap → ℕ → Option (FreeMap × Option ℕ)
allocate write_ok m cnt = do
  (sector, map) ← scan_and_flip m.map 0 cnt false
  if not (sector == bitmap_error) && (m.file_open && not write_ok)
      then (do map ← set_multiple map sector cnt false; some (record m { map = map }, none))
      else some (record m { map = map }, (if sector == bitmap_error then none else some sector))

-- free_map_release; the answer of bitmap_write is dropped.
unfoldable pub release : FreeMap → ℕ → ℕ → Option FreeMap
release m sector cnt = do
  used ← Bitmap.all m.map sector cnt
  assert used
  map ← set_multiple m.map sector cnt false
  some (record m { map = map })
