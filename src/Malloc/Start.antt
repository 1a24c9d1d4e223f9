-- ===== src/Malloc/Start.antt =====
-- malloc_init of threads/malloc.c.
use pintos_nightmare.Base.{
  ltb, ◌==◌, if◌then◌else◌, ltb→lt, le→leb, le→ltb_false, Bool-cases, has, ℕ, zero, suc, ◌+◌, ◌-◌,
  ◌*◌, ◌/◌, ◌^◌, ◌≤◌, ◌<◌, ◌≡◌, refl, sym, ap, ◌∙◌, inl, inr, false, none, some, [], arith,
}
use pintos_nightmare.Malloc.{Desc, Heap, header, init_loop, malloc_init}
use pintos_nightmare.Vaddr.{pgsize}
use pintos_nightmare.Malloc.Blocks.{IsSized, IsHeap}
use pintos_nightmare.Malloc.Change.{none-some}
use pintos_nightmare.Malloc.Allocate.{true-false}
use native.Mathlib.Nat.{pow-suc, le-div_iff_mul-le, div-mul-le_self}

-- A heap with descriptors only
record IsNew (h : Heap) : Type 0 where
  pub sized : (d : ℕ) → d < h.desc_cnt → IsSized (h.descs d)
  pub idle : (d : ℕ) → d < h.desc_cnt → (h.descs d).locked ≡ false
  pub no_blocks : (d : ℕ) → d < h.desc_cnt → (h.descs d).free_list ≡ []
  pub no_arenas : (a : ℕ) → h.arenas a ≡ none

abbrev add_desc : ℕ → Heap → Heap
add_desc size h = record {
  desc_cnt = h.desc_cnt + 1;
  descs = λ i.
      if i == h.desc_cnt
      then record {
        block_size = size;
        blocks_per_arena = (pgsize - header) / size;
        free_list = [];
        locked = false;
      }
      else h.descs i;
  arenas = h.arenas;
}

add_desc-there :
    (size : ℕ) (h : Heap) (d : ℕ) (P : Desc → Type 0)
    → (d < h.desc_cnt → P (h.descs d))
    → P (record {
      block_size = size;
      blocks_per_arena = (pgsize - header) / size;
      free_list = [];
      locked = false;
    })
    → d < h.desc_cnt + 1
    → P ((add_desc size h).descs d)
add_desc-there size h d P old new l = elim (Bool-cases (d == h.desc_cnt)) [
  | inl e ↦ rw e new
  | inr e ↦ rw e (old (ground (arith, e, l)))
]

-- A size below half a page leaves room for blocks.
new-IsSized :
    (size : ℕ)
    → 16 ≤ size
    → size < pgsize / 2
    → IsSized (record {
      block_size = size;
      blocks_per_arena = (pgsize - header) / size;
      free_list = [];
      locked = false;
    })
new-IsSized size s l = record {
  positive = omega (arith, s);
  some_blocks = (le-div_iff_mul-le {k = size} (omega (arith, s))).1 (omega (arith, l));
  fits = omega (arith, div-mul-le_self (pgsize - header) size);
}

add_desc-IsNew :
    (size : ℕ) (h : Heap) → 16 ≤ size → size < pgsize / 2 → IsNew h → IsNew (add_desc size h)
add_desc-IsNew size h s l v = record {
  sized = λ d. add_desc-there size h d IsSized (v.sized d) (new-IsSized size s l);
  idle = λ d. add_desc-there size h d (λ x. x.locked ≡ false) (v.idle d) refl;
  no_blocks = λ d. add_desc-there size h d (λ x. x.free_list ≡ []) (v.no_blocks d) refl;
  no_arenas = v.no_arenas;
}

-- The loop ends within a round for each power of 2 below half a page.
init_loop-IsNew :
    (k size : ℕ) (h : Heap)
    → 16 ≤ size
    → pgsize / 2 ≤ size * 2 ^ k
    → h.desc_cnt + k ≤ 10
    → IsNew h
    → (h' : Heap) × (init_loop (suc k) size h ≡ some h') × IsNew h'
unfolding init_loop
init_loop-IsNew zero size h s b c v =
    (h, rw (le→ltb_false size (pgsize / 2) (omega (arith, b))) refl, v)
init_loop-IsNew (suc k) size h s b c v = elim (Bool-cases (ltb size (pgsize / 2))) [
  | inr e ↦ (h, rw e refl, v)
  | inl e ↦
      let (h', r, w) =
        init_loop-IsNew k (size * 2) (add_desc size h) (omega (arith, s)) double (omega (arith, c))
          (add_desc-IsNew size h s (ltb→lt size (pgsize / 2) e) v) in
      (h', rw (e, le→leb (h.desc_cnt + 1) 10 (omega (arith, c))) r, w)
]
  where
    grouped : size * (2 ^ k * 2) ≡ size * 2 * 2 ^ k
    grouped = grind arith

    double : pgsize / 2 ≤ size * 2 * 2 ^ k
    double = omega (arith, b, ap (λ (t : ℕ). size * t) (pow-suc 2 k), grouped)

-- From a state with no descriptors and no arenas malloc_init makes a heap with the invariant.
pub malloc_init-IsHeap :
    (descs : ℕ → Desc)
    → (h : Heap) × (malloc_init (record { desc_cnt = 0; descs = descs; arenas = λ a. none })
        ≡ some h)
      × IsHeap h
unfolding malloc_init
malloc_init-IsHeap descs =
    let (h, r, v) =
      init_loop-IsNew 7 16 (record { desc_cnt = 0; descs = descs; arenas = λ a. none })
        (omega arith) (omega arith) (omega arith)
        (record {
          sized = λ d l. absurd (omega (arith, l));
          idle = λ d l. absurd (omega (arith, l));
          no_blocks = λ d l. absurd (omega (arith, l));
          no_arenas = λ a. refl;
        }) in
    (
      h,
      r,
      record {
        sized = v.sized;
        idle = v.idle;
        once = λ d l. rw (v.no_blocks d l) tt;
        pages = λ a x t. absurd (none-some (sym (v.no_arenas a) ∙ t));
        counted = λ a d x t k. absurd (none-some (sym (v.no_arenas a) ∙ t));
        found = λ d b l t. absurd (true-false (sym t ∙ ap (has b) (v.no_blocks d l)));
      },
    )
