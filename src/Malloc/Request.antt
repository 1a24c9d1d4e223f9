-- ===== src/Malloc/Request.antt =====
-- malloc of threads/malloc.c: the choice of a descriptor, and big blocks.
use pintos_nightmare.Base.{ℕ, ◌≤◌, ◌≡◌, ◌⊎◌, Option, none, some}
use pintos_nightmare.Malloc.{Heap, set_arena, block_size, big_pages}
use pintos_nightmare.Malloc.Blocks.{IsHeap, Allocated}
use pintos_nightmare.Malloc.Allocate.{IsFresh, arena_of}

-- A big block
module _ (h : Heap) (v : IsHeap h) (a size : ℕ) (f : IsFresh h a) where
  abbrev big_heap : Heap
  big_heap = set_arena a (some (arena_of none (big_pages size))) h

-- NULL for no bytes or without pages, or a block that was not in use and has room for the bytes
abbrev pub MallocResult : ℕ → Option ℕ → Heap → Heap → ℕ → Type 0
MallocResult size got h h' p =
    ((size ≡ 0) ⊎ (got ≡ none)) × (p ≡ 0) × (h' ≡ h)
    ⊎ ((s : ℕ) × (block_size p h' ≡ some s) × (size ≤ s)) × Allocated h h' p
