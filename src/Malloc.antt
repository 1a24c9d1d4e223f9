-- ===== src/Malloc.antt =====
-- threads/malloc.c: blocks of a descriptor's size in arenas of a page, and big blocks of whole pages.
-- A block and an arena are addresses. What palloc_get_multiple returns is an argument, `got`; the
-- pages that a call frees are part of its result. The bytes of blocks are not modelled.
use pintos_nightmare.Base.{
  ltb, leb, ◌==◌, if◌then◌else◌, ◌>>=◌, ◌>>◌, assert, ℕ, zero, suc, ◌+◌, ◌-◌, ◌*◌, ◌/◌, ◌%◌, ◌^◌,
  Bool, true, false, not, ◌||◌, Option, none, some, List, [], ◌∷◌, ◌++◌,
}
pub mod Counts
pub mod Blocks
pub mod Change
pub mod Take
pub mod Allocate
pub mod Request
pub mod Release
pub mod Free
pub mod Start
use pintos_nightmare.Vaddr.{pgsize, pg_ofs, pg_round_down}

pub record Desc : Type 0 where
  pub block_size : ℕ
  pub blocks_per_arena : ℕ
  pub free_list : List ℕ
  pub locked : Bool

-- An arena whose magic number is set. `desc` is a number of a descriptor, `none` for a big block.
pub record Arena : Type 0 where
  pub desc : Option ℕ
  pub free_cnt : ℕ

pub record Heap : Type 0 where
  pub desc_cnt : ℕ
  pub descs : ℕ → Desc
  pub arenas : ℕ → Option Arena

-- sizeof (struct arena)
abbrev pub header : ℕ
header = 12

unfoldable pub set_desc : ℕ → Desc → Heap → Heap
set_desc d x h = record {
  desc_cnt = h.desc_cnt;
  descs = λ i. if i == d then x else h.descs i;
  arenas = h.arenas;
}

unfoldable pub set_arena : ℕ → Option Arena → Heap → Heap
set_arena a x h = record {
  desc_cnt = h.desc_cnt;
  descs = h.descs;
  arenas = λ i. if i == a then x else h.arenas i;
}

abbrev pub set_free_list : List ℕ → Desc → Desc
set_free_list l x = record {
  block_size = x.block_size;
  blocks_per_arena = x.blocks_per_arena;
  free_list = l;
  locked = x.locked;
}

abbrev pub set_locked : Bool → Desc → Desc
set_locked b x = record {
  block_size = x.block_size;
  blocks_per_arena = x.blocks_per_arena;
  free_list = x.free_list;
  locked = b;
}

abbrev pub set_lock : Bool → ℕ → Heap → Heap
set_lock b d h = set_desc d (set_locked b (h.descs d)) h

-- lock_acquire of a lock that the thread does not hold, and that no other thread holds
unfoldable pub lock_acquire : ℕ → Heap → Option Heap
lock_acquire d h = do assert (not (h.descs d).locked); some (set_lock true d h)

unfoldable pub lock_release : ℕ → Heap → Option Heap
lock_release d h = do assert (h.descs d).locked; some (set_lock false d h)

-- The descriptors of blocks of `size`, `2 * size` and so on below half a page
unfoldable pub init_loop : ℕ → ℕ → Heap → Option Heap
init_loop zero size h = none
init_loop (suc fuel) size h =
    let rest = init_loop fuel (size * 2) (record {
      desc_cnt = h.desc_cnt + 1;
      descs = λ i.
          if i == h.desc_cnt
          then record {
            block_size = size;
            blocks_per_arena = (pgsize - header) / size;
            free_list = [];
            locked = false;
          }
          else h.descs i;
      arenas = h.arenas;
    }) in
    if ltb size (pgsize / 2) then (assert (leb (h.desc_cnt + 1) 10) >> rest) else some h

unfoldable pub malloc_init : Heap → Option Heap
malloc_init = init_loop 8 16

-- The first descriptor from `d` on with blocks of at least `size` bytes
unfoldable pub find_desc : ℕ → ℕ → ℕ → Heap → Option ℕ
find_desc zero d size h = none
find_desc (suc n) d size h =
    if leb size ((h.descs d).block_size) then some d else find_desc n (d + 1) size h

-- block_to_arena, with the arena that is at the page's start
unfoldable pub block_to_arena : ℕ → Heap → Option (ℕ × Arena)
block_to_arena b h = do
  let a = pg_round_down b
  assert (not (a == 0))
  x ← h.arenas a
  elim x.desc [
    | none ↦ assert (pg_ofs b == header) >> some (a, x)
    | some d ↦
        assert ((pg_ofs b + 2 ^ 32 - header) % 2 ^ 32 % (h.descs d).block_size == 0) >> some (a, x)
  ]

-- The address of block number `idx` of an arena
abbrev pub block_address : ℕ → ℕ → ℕ → ℕ
block_address size a idx = a + header + idx * size

-- arena_to_block, with its ASSERTs; an arena with no descriptor has no blocks of its own.
unfoldable pub arena_to_block : (a idx : ℕ) → Heap → Option ℕ
arena_to_block a idx h = do
  assert (not (a == 0))
  x ← h.arenas a
  d ← x.desc
  assert (ltb idx (h.descs d).blocks_per_arena)
  some (block_address (h.descs d).block_size a idx)

-- The blocks that the loops of malloc and free go over, from number `i` on, `n` of them
unfoldable pub arena_blocks : (n i a : ℕ) → Heap → Option (List ℕ)
arena_blocks zero i a h = some []
arena_blocks (suc n) i a h = do
  b ← arena_to_block a i h
  bs ← arena_blocks n (i + 1) a h
  some (b ∷ bs)

-- A new arena at page `a`, its blocks on the free list
unfoldable pub new_arena : ℕ → ℕ → Heap → Option Heap
new_arena d a h = do
  let x = h.descs d
  let h1 = set_arena a (some (record { desc = some d; free_cnt = x.blocks_per_arena })) h
  bs ← arena_blocks x.blocks_per_arena 0 a h1
  some (set_desc d (set_free_list (x.free_list ++ bs) x) h1)

-- list_pop_front of a list that is not empty
unfoldable pub pop_front : List ℕ → Option (ℕ × List ℕ)
pop_front [] = none
pop_front (b ∷ l) = some (b, l)

-- `Get a block from free list and return it.`
unfoldable pub take_block : ℕ → Heap → Option (Heap × ℕ)
take_block d h = do
  let x = h.descs d
  (b, l) ← pop_front x.free_list
  let h1 = set_desc d (set_free_list l x) h
  (a, y) ← block_to_arena b h1
  h2 ← lock_release d (
      set_arena a (some (record { desc = y.desc; free_cnt = (y.free_cnt + 2 ^ 32 - 1) % 2 ^ 32 }))
        h1)
  some (h2, b)

abbrev pub is_empty : List ℕ → Bool
is_empty [] = true
is_empty (b ∷ l) = false

-- The rest of malloc, with the descriptor's lock held; the address is 0 for NULL
unfoldable pub malloc_locked : ℕ → Option ℕ → Heap → Option (Heap × ℕ)
malloc_locked d none h =
    if is_empty (h.descs d).free_list
    then (do h1 ← lock_release d h; some (h1, 0))
    else take_block d h
malloc_locked d (some a) h =
    if is_empty (h.descs d).free_list then (new_arena d a h >>= take_block d) else take_block d h

unfoldable pub malloc_small : ℕ → Option ℕ → Heap → Option (Heap × ℕ)
malloc_small d got h = lock_acquire d h >>= malloc_locked d got

-- `DIV_ROUND_UP (size + sizeof *a, PGSIZE)` in 32 bits
unfoldable pub big_pages : ℕ → ℕ
big_pages size = (size + header + pgsize - 1) % 2 ^ 32 / pgsize

unfoldable pub malloc_big : ℕ → Option ℕ → Heap → Heap × ℕ
malloc_big size none h = (h, 0)
malloc_big size (some a) h =
    (set_arena a (some (record { desc = none; free_cnt = big_pages size })) h, a + header)

unfoldable pub malloc : ℕ → Option ℕ → Heap → Option (Heap × ℕ)
malloc size got h = if size == 0 then some (h, 0) else elim (find_desc h.desc_cnt 0 size h) [
  | none ↦ some (malloc_big size got h)
  | some d ↦ malloc_small d got h
]

-- calloc, without its memset
unfoldable pub calloc : ℕ → ℕ → Option ℕ → Heap → Option (Heap × ℕ)
calloc a b got h =
    let size = a * b % 2 ^ 32 in if ltb size a || ltb size b then some (h, 0) else malloc size got h

-- The bytes of a block
unfoldable pub block_size : ℕ → Heap → Option ℕ
block_size b h = do
  (a, x) ← block_to_arena b h
  elim x.desc [
    | none ↦ some ((pgsize * x.free_cnt + 2 ^ 32 - pg_ofs b) % 2 ^ 32)
    | some d ↦ some (h.descs d).block_size
  ]

-- list_remove, whose ASSERT fails for an element that is not on the list
unfoldable pub list_remove : ℕ → List ℕ → Option (List ℕ)
list_remove b [] = none
list_remove b (x ∷ l) =
    let rest = (do l ← list_remove b l; some (x ∷ l)) in if x == b then some l else rest

unfoldable pub remove_blocks : List ℕ → List ℕ → Option (List ℕ)
remove_blocks [] l = some l
remove_blocks (b ∷ bs) l = list_remove b l >>= remove_blocks bs

-- The pages that palloc_free_multiple gets: the first, and how many
abbrev pub Freed : Type 0
Freed = Option (ℕ × ℕ)

-- `If the arena is now entirely unused, free it.`
unfoldable pub free_if_unused : ℕ → ℕ → ℕ → Heap → Option (Heap × Freed)
free_if_unused d a cnt h =
    let x = h.descs d in
    if leb x.blocks_per_arena cnt
    then (do
      assert (cnt == x.blocks_per_arena)
      bs ← arena_blocks x.blocks_per_arena 0 a h
      l ← remove_blocks bs x.free_list
      some (set_arena a none (set_desc d (set_free_list l x) h), some (a, 1)))
    else some (set_arena a (some (record { desc = some d; free_cnt = cnt })) h, none)

unfoldable pub free_small : ℕ → ℕ → ℕ → ℕ → Heap → Option (Heap × Freed)
free_small d a cnt b h = do
  h1 ← lock_acquire d h
  let x = h1.descs d
  (h2, f) ←
      free_if_unused d a ((cnt + 1) % 2 ^ 32) (set_desc d (set_free_list (b ∷ x.free_list) x) h1)
  h3 ← lock_release d h2
  some (h3, f)

unfoldable pub free : ℕ → Heap → Option (Heap × Freed)
free p h =
    if p == 0
    then some (h, none)
    else (block_to_arena p h >>= λ found. elim found.1.desc [
      | none ↦ some (set_arena found.0 none h, some (found.0, found.1.free_cnt))
      | some d ↦ free_small d found.0 found.1.free_cnt p h
    ])

-- `memcpy (new_block, old_block, min_size); free (old_block);`, with the number of bytes copied
unfoldable pub move_block : ℕ → ℕ → ℕ → Heap → Option (Heap × ℕ × ℕ)
move_block old_block new_block new_size h = do
  old_size ← block_size old_block h
  (h1, f) ← free old_block h
  some (h1, new_block, if ltb new_size old_size then new_size else old_size)

-- realloc, with the number of bytes that it copies
unfoldable pub realloc : ℕ → ℕ → Option ℕ → Heap → Option (Heap × ℕ × ℕ)
realloc old_block new_size got h =
    if new_size == 0
    then (do (h1, f) ← free old_block h; some (h1, 0, 0))
    else (malloc new_size got h >>= λ m.
        if (old_block == 0) || (m.1 == 0)
        then some (m.0, m.1, 0)
        else move_block old_block m.1 new_size m.0)
