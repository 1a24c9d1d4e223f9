-- ===== src/Tests/Paging.antt =====
-- Addresses, page table entries and the page allocator at concrete inputs.
use pintos_nightmare.Base.{
  replicate, ℕ, zero, suc, ◌+◌, ◌≤◌, ◌<◌, ◌≡◌, refl, ◌⊎◌, true, false, some, [], ◌∷◌, arith,
}
use pintos_nightmare.Bitmap.Bits.{bit, IsValid}
use pintos_nightmare.Bitmap.Scan.{NoFit}
use pintos_nightmare.Vaddr.{pgsize, pg_ofs, pg_round_up, pg_round_down}
use pintos_nightmare.Vaddr.Laws.{pg_round_bounds}
use pintos_nightmare.Palloc.{Pool, Flags, Memory, pool_of, get_multiple}
use pintos_nightmare.Palloc.Get.{IsPool, Got, Contents, other_pool, get_multiple-Got}
use pintos_nightmare.Palloc.Free.{IsMemory}

pg_round_bounds_example :
    (pg_ofs (pg_round_down 5000) ≡ 0)
    × (pg_ofs (pg_round_up 5000) ≡ 0)
    × (pg_round_down 5000 ≤ 5000)
    × (5000 < pg_round_down 5000 + pgsize)
    × (5000 ≤ pg_round_up 5000)
    × (pg_round_up 5000 < 5000 + pgsize)
pg_round_bounds_example = pg_round_bounds 5000 (omega arith)

-- Pools of 8 pages each, the first page of both in use.
abbrev pool : ℕ → Pool
pool base = record {
  used_map = record { bit_cnt = 8; bits = (true ∷ replicate 31 false) ∷ [] };
  base = base;
}

abbrev memory : Memory
memory = record { kernel_pool = pool 0xc010_0000; user_pool = pool 0xc020_0000; mem = λ a. a }

map-IsValid : (base : ℕ) → IsValid (pool base).used_map
map-IsValid base = record { fits = omega arith; sized = refl; full = (refl, tt) }

kernel-IsPool : IsPool memory.kernel_pool
kernel-IsPool = record {
  map_valid = map-IsValid 0;
  aligned = refl;
  not_null = omega arith;
  inside = omega arith;
}

user-IsPool : IsPool memory.user_pool
user-IsPool = record {
  map_valid = map-IsValid 0;
  aligned = refl;
  not_null = omega arith;
  inside = omega arith;
}

memory-IsMemory : IsMemory memory
memory-IsMemory = record { kernel = kernel-IsPool; user = user-IsPool; apart = omega arith }

abbrev zero_flag : Flags
zero_flag = record { pal_assert = false; pal_zero = true; pal_user = false }

get_multiple-Got_example :
    ((pages : ℕ) × (m' : Memory) × (get_multiple zero_flag 2 memory ≡ some (m', pages))
      × Got (pool_of zero_flag memory) 2 pages (pool_of zero_flag m')
      × (other_pool zero_flag m' ≡ other_pool zero_flag memory)
      × Contents zero_flag memory 2 pages m')
    ⊎ ((get_multiple zero_flag 2 memory ≡ some (memory, 0))
        × NoFit (pool_of zero_flag memory).used_map 0 2 false)
get_multiple-Got_example = get_multiple-Got zero_flag memory kernel-IsPool 1

first_used : (j : ℕ) → 0 ≤ j → j < 1 → bit (pool 0).used_map j ≡ true
first_used zero lo hi = refl
first_used (suc j) lo hi = absurd (omega arith)
