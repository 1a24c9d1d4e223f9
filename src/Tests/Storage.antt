-- ===== src/Tests/Storage.antt =====
-- Bitmaps, the free map and file contents at concrete inputs.
use pintos_nightmare.Base.{
  replicate, ℕ, ◌+◌, ◌*◌, ◌≡◌, refl, ◌⊎◌, true, false, not, ◌&&◌, none, some, [], ◌∷◌, arith,
}
use pintos_nightmare.Bitmap.{
  Bitmap, bitmap_error, set_multiple, scan_and_flip, flip, all, scan, scan_loop, contains,
  contains_loop, in_range, test, zip_bits, any_bit, bit_mask, one_hot, set_loop, set_bit, mark,
  reset, update,
}
use pintos_nightmare.Bitmap.Bits.{IsValid, Changed}
use pintos_nightmare.Bitmap.Range.{Filled, Uniform, Some, all-Uniform}
use pintos_nightmare.Bitmap.Single.{flip-Changed}
use pintos_nightmare.Bitmap.Scan.{FirstFit, NoFit, scan_and_flip-FirstFit}
use pintos_nightmare.FreeMap.{FreeMap, allocate}
use pintos_nightmare.FreeMap.Alloc.{Same, Allocated, allocate-Allocated}
use pintos_nightmare.Inode.{Disk, InodeDisk, chunk_size, read_at, write_at}
use pintos_nightmare.Inode.Chunk.{available}
use pintos_nightmare.Inode.Read.{Reads, read_at-Reads}
use pintos_nightmare.Inode.Write.{Writes, write_at-Writes}

-- 40 sectors, of which the first two are in use
abbrev device : Bitmap
device = record {
  bit_cnt = 40;
  bits = (true ∷ true ∷ replicate 30 false) ∷ replicate 32 false ∷ [];
}

device-IsValid : IsValid device
device-IsValid = record { fits = omega arith; sized = refl; full = (refl, (refl, tt)) }

flip-Changed_example : (b' : Bitmap) × (flip device 1 ≡ some b') × Changed device 1 false b'
flip-Changed_example = flip-Changed device-IsValid 1 (omega arith)

scan_and_flip-FirstFit_example :
    ((k : ℕ) × (b' : Bitmap) × (scan_and_flip device 0 3 false ≡ some (k, b'))
      × FirstFit device 0 3 false k
      × Filled device k 3 true b')
    ⊎ ((scan_and_flip device 0 3 false ≡ some (bitmap_error, device)) × NoFit device 0 3 false)
scan_and_flip-FirstFit_example = scan_and_flip-FirstFit device-IsValid 0 3 false (omega arith)

all-Uniform_example :
    ((all device 0 2 ≡ some true) × Uniform device 0 2 true)
    ⊎ ((all device 0 2 ≡ some false) × Some device 0 2 false)
all-Uniform_example = all-Uniform device-IsValid 0 2 (omega arith)

abbrev free_map : FreeMap
free_map = record { map = device; file_open = true }

allocate-Allocated_example :
    (((free_map.file_open && not true) ≡ false)
      × ((k : ℕ) × (m' : FreeMap) × (allocate true free_map 3 ≡ some (m', some k))
          × Allocated free_map 3 k m'))
    ⊎ ((NoFit free_map.map 0 3 false ⊎ ((free_map.file_open ≡ true) × (true ≡ false)))
        × (m' : FreeMap) × (allocate true free_map 3 ≡ some (m', none))
        × IsValid m'.map
        × Same free_map m')
allocate-Allocated_example = allocate-Allocated free_map device-IsValid 3 true

abbrev after : FreeMap
after = record {
  map = record {
    bit_cnt = 40;
    bits = (true ∷ true ∷ true ∷ true ∷ true ∷ replicate 27 false) ∷ replicate 32 false ∷ [];
  };
  file_open = true;
}

allocate_run : allocate true free_map 3 ≡ some (after, some 2)
unfolding allocate scan_and_flip scan scan_loop contains contains_loop in_range test zip_bits
    any_bit bit_mask one_hot set_multiple set_loop set_bit mark reset update
allocate_run = refl

-- A file of 600 bytes whose data starts at sector 10.
abbrev file : InodeDisk
file = record { start = 10; length = 600 }

abbrev disk : Disk
disk s k = s + k

abbrev buffer : ℕ → ℕ
buffer k = 7 * k

read_at-Reads_example :
    Reads disk file buffer 500 0 (available file 200 500) (read_at true disk file buffer 200 500)
read_at-Reads_example = read_at-Reads disk file buffer 200 500

write_at-Writes_example :
    Writes file buffer disk 500 0 (available file 200 500) (write_at true file buffer disk 200 500)
write_at-Writes_example = write_at-Writes disk file buffer 200 500

-- A short read: 100 of the 200 bytes asked for lie in the file.
read_at_short : (read_at true disk file buffer 200 500).0 ≡ 100
unfolding read_at chunk_size
read_at_short = refl

-- Without a bounce buffer the read stops before the first part of a sector.
read_at_no_memory : (read_at false disk file buffer 600 0).0 ≡ 512
unfolding read_at chunk_size
read_at_no_memory = refl
