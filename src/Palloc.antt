-- ===== src/Palloc.antt =====
-- threads/palloc.c: the page allocator. A pool's lock is held around the search in
-- palloc_get_multiple, which is one step here. `mem` is the contents of memory by address, and
-- `none` is a panic.
pub mod Get
pub mod Free
use pintos_nightmare.Base.{
  ltb, leb, ◌==◌, if◌then◌else◌, ◌>>=◌, ◌>>◌, assert, ℕ, zero, suc, ◌+◌, ◌-◌, ◌*◌, ◌/◌, Bool, false,
  not, ◌&&◌, ◌||◌, Option, none, some, List, map,
}
use pintos_nightmare.Vaddr.{pgsize, pg_ofs, pg_no}
use pintos_nightmare.Bitmap
use pintos_nightmare.Bitmap.{
  Bitmap, Elem, bitmap_error, scan_and_flip, set_multiple, buf_size, create_in_buf,
}

pub record Pool : Type 0 where
  pub used_map : Bitmap
  pub base : ℕ

pub record Flags : Type 0 where
  pub pal_assert : Bool
  pub pal_zero : Bool
  pub pal_user : Bool

pub record Memory : Type 0 where
  pub kernel_pool : Pool
  pub user_pool : Pool
  pub mem : ℕ → ℕ

-- memset
abbrev pub memset : (ℕ → ℕ) → ℕ → ℕ → ℕ → ℕ → ℕ
memset mem start value size a = if leb start a && ltb a (start + size) then value else mem a

abbrev pub pool_of : Flags → Memory → Pool
pool_of flags m = if flags.pal_user then m.user_pool else m.kernel_pool

abbrev pub with_pool : Flags → Memory → Pool → Memory
with_pool flags m p =
    if flags.pal_user then record m { user_pool = p } else record m { kernel_pool = p }

-- PAL_ZERO
abbrev pub zeroed : Flags → Memory → ℕ → ℕ → Memory
zeroed flags m pages page_cnt =
    if flags.pal_zero then record m { mem = memset m.mem pages 0 (pgsize * page_cnt) } else m

-- palloc_get_multiple; a page is an address, and NULL is 0.
unfoldable pub get_multiple : Flags → ℕ → Memory → Option (Memory × ℕ)
get_multiple flags zero m = some (m, 0)
get_multiple flags (suc n) m = do
  let pool = pool_of flags m
  (page_idx, map) ← scan_and_flip pool.used_map 0 (suc n) false
  let m' = with_pool flags m (record pool { used_map = map })
  let pages = if page_idx == bitmap_error then 0 else pool.base + pgsize * page_idx
  if pages == 0
      then (do assert (not flags.pal_assert); some (m', 0))
      else some (zeroed flags m' pages (suc n), pages)

unfoldable pub get_page : Flags → Memory → Option (Memory × ℕ)
unfolding get_multiple
get_page flags m = get_multiple flags 1 m

unfoldable pub page_from_pool : Pool → ℕ → Bool
page_from_pool pool page =
    leb (pg_no pool.base) (pg_no page) && ltb (pg_no page) (pg_no pool.base + pool.used_map.bit_cnt)

-- The rest of palloc_free_multiple, once the pool is known.
unfoldable pub free_in : Pool → ℕ → ℕ → Option Pool
free_in pool pages page_cnt = do
  let page_idx = pg_no pages - pg_no pool.base
  used ← Bitmap.all pool.used_map page_idx page_cnt
  assert used
  map ← set_multiple pool.used_map page_idx page_cnt false
  some (record pool { used_map = map })

-- palloc_free_multiple; the freed pages are filled with 0xcc.
unfoldable pub free_multiple : ℕ → ℕ → Memory → Option Memory
unfolding free_in page_from_pool
free_multiple pages page_cnt m = do
  assert (pg_ofs pages == 0)
  let trashed = record m { mem = memset m.mem pages 0xcc (pgsize * page_cnt) }
  if pages == 0 || page_cnt == 0
      then some m
      else (if page_from_pool m.kernel_pool pages
          then (do
            p ← free_in m.kernel_pool pages page_cnt
            some (record trashed { kernel_pool = p }))
          else (if page_from_pool m.user_pool pages
              then (do
                p ← free_in m.user_pool pages page_cnt
                some (record trashed { user_pool = p }))
              else none))

unfoldable pub free_page : ℕ → Memory → Option Memory
unfolding free_multiple
free_page page m = free_multiple page 1 m

-- init_pool; `garbage` is what memory holds where the bitmap is put.
unfoldable pub init_pool : (garbage : List Elem) → ℕ → ℕ → Option Pool
init_pool garbage base page_cnt = do
  let bm_pages = (buf_size page_cnt + pgsize - 1) / pgsize
  assert (leb bm_pages page_cnt)
  map ← create_in_buf (page_cnt - bm_pages) garbage (bm_pages * pgsize)
  some (record { used_map = map; base = base + bm_pages * pgsize })
