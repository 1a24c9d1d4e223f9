-- ===== src/Tests/Memory.antt =====
-- The block allocator at concrete inputs.
use pintos_nightmare.Base.{
  ◌==◌, if◌then◌else◌, Bool-cases, if_false, if_true, has, ◌>>=◌, ℕ, ◌+◌, ◌-◌, ◌*◌, ◌<◌, ◌≡◌, refl,
  sym, ap, ◌∙◌, subst, inl, inr, false, none, some, some-injective, [], ◌∷◌, arith,
}
use pintos_nightmare.Malloc.{
  Desc, Arena, Heap, Freed, malloc_init, init_loop, malloc, calloc, free, find_desc, malloc_big,
  lock_acquire, lock_release, block_to_arena, block_size, big_pages, set_desc, set_arena,
  free_small, free_if_unused, arena_blocks, arena_to_block, remove_blocks, list_remove,
}
use pintos_nightmare.Vaddr.{pg_round_down}
use pintos_nightmare.Malloc.Counts.{tally}
use pintos_nightmare.Malloc.Blocks.{IsBlock, IsHeap, IsApart, NoneIn, Released}
use pintos_nightmare.Malloc.Free.{free-Released}

-- An arena of three blocks at page 1, of which the first is in use
abbrev third_desc : Desc
third_desc = record {
  block_size = 1024;
  blocks_per_arena = 3;
  free_list = 5132 ∷ 6156 ∷ [];
  locked = false;
}

abbrev third_arena : Arena
third_arena = record { desc = some 0; free_cnt = 2 }

abbrev third : Heap
third = record {
  desc_cnt = 1;
  descs = λ d. third_desc;
  arenas = λ a. if a == 4096 then some third_arena else none;
}

third_arenas : (a : ℕ) (x : Arena) → third.arenas a ≡ some x → (a ≡ 4096) × (third_arena ≡ x)
third_arenas a x t = elim (Bool-cases (a == 4096)) [
  | inl e ↦ (
    ground (arith, e),
    some-injective _ _ (sym (if_true {b = a == 4096} (some third_arena) none e) ∙ t),
  )
  | inr e ↦ absurd (none_is (sym (if_false {b = a == 4096} (some third_arena) none e) ∙ t))
]
  where
    none_is : none ≡ some x → ⊥
    none_is z = cc

third_tally : tally (λ i. has (4096 + 12 + i * 1024) third_desc.free_list) 3 ≡ 2
unfolding tally
third_tally = refl

third-IsBlock : (d b i : ℕ) → d < 1 → i < 3 → b ≡ 4108 + i * 1024 → IsBlock third d 4096 i b
third-IsBlock d b i l o e = record {
  arena = third_arena;
  there = refl;
  owner = ap some zero_d;
  number = o;
  address = e;
}
  where
    zero_d : 0 ≡ d
    zero_d = omega (arith, l)

third-IsHeap : IsHeap third
third-IsHeap = record {
  sized = λ d l. record { positive = omega arith; some_blocks = omega arith; fits = omega arith };
  idle = λ d l. refl;
  once = λ d l. (refl, (refl, tt));
  pages = λ a x t. let (e, s) = third_arenas a x t in (omega (arith, e), omega (arith, e));
  counted = λ a d x t k.
      let (e, s) = third_arenas a x t in
      let z : 0 ≡ d = some-injective _ _ (ap (λ (y : Arena). y.desc) s ∙ k) in
      (
        omega (arith, z),
        sym (ap (λ (y : Arena). y.free_cnt) s)
            ∙ subst (λ (i : ℕ). 2 ≡ tally (λ j. has (i + 12 + j * 1024) third_desc.free_list) 3)
                (sym e) (sym third_tally),
      );
  found = λ d b l t. elim (Bool-cases (5132 == b)) [
    | inl e ↦ (4096, 1, third-IsBlock d b 1 l (omega arith) (ground (arith, e)))
    | inr e ↦ (4096, 2, third-IsBlock d b 2 l (omega arith) (ground (arith, e, t)))
  ];
}

-- It has no other arena.
third-IsApart : IsApart third
third-IsApart a b x y s t l =
    let (e, _) = third_arenas a x s in
    let (f, _) = third_arenas b y t in absurd (omega (arith, l, e, f))

free-Released_example :
    (h' : Heap) × (f : Freed) × (free 4108 third ≡ some (h', f))
    × Released third h' 4108 f
    × NoneIn h' f
free-Released_example =
    free-Released third 4108 third-IsHeap third-IsApart
      (4096, (third_arena, refl, (0, omega arith, refl, refl)))

-- The call frees the arena.
third_freed : (free 4108 third >>= λ r. some r.1) ≡ some (some (4096, 1))
unfolding free block_to_arena free_small free_if_unused lock_acquire lock_release set_desc set_arena
    pg_round_down arena_blocks arena_to_block remove_blocks list_remove
third_freed = refl

-- Seven descriptors, the last of blocks of 1 kB
seven :
    (malloc_init (record { desc_cnt = 0; descs = λ d. third_desc; arenas = λ a. none }) >>= λ h.
    some (h.desc_cnt + (h.descs 6).block_size))
    ≡ some 1031
unfolding malloc_init init_loop
seven = refl

-- A request for nearly 4 GB gets one page, since the number of bytes wraps around.
wrapped : (malloc 0xffff_fff8 (some 8192) third >>= λ r. block_size r.1 r.0) ≡ some 4084
unfolding malloc malloc_big big_pages find_desc block_size block_to_arena set_arena pg_round_down
wrapped = refl

-- So does calloc of 0x10001 times 0x10001 bytes, which passes its check of the product.
product_wraps :
    (calloc 0x1_0001 0x1_0001 (some 8192) third >>= λ r. block_size r.1 r.0) ≡ some (33 * 4096 - 12)
unfolding calloc malloc malloc_big big_pages find_desc block_size block_to_arena set_arena
    pg_round_down
product_wraps = refl
