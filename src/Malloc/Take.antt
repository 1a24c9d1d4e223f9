-- ===== src/Malloc/Take.antt =====
-- threads/malloc.c takes a block off a free list.
use pintos_nightmare.Base.{
  ◌==◌, ==_iff, Bool-cases, has, Distinct, ℕ, suc, ◌+◌, ◌-◌, ◌*◌, ◌%◌, ◌^◌, ◌<◌, ◌≡◌, refl, sym, ap,
  ◌∙◌, subst, ◌≢◌, ◌↔◌, ◌⊎◌, inl, inr, true, false, some, List, ◌∷◌, arith,
}
use pintos_nightmare.Malloc.{
  Desc, Arena, Heap, header, set_free_list, set_locked, set_desc, set_arena, block_address,
  lock_release, block_to_arena, pop_front, take_block, block_size,
}
use pintos_nightmare.Vaddr.{pgsize, pg_round_down}
use pintos_nightmare.Malloc.Counts.{tally}
use pintos_nightmare.Malloc.Blocks.{
  listed, InArena, UsedAt, IsUsed, IsSized, IsHeap, Allocated, UsedAt-page, set_desc-there,
  set_desc-else, set_desc-arenas, set_desc-cnt, set_arena-there, set_arena-else, set_arena-descs,
  set_arena-cnt, block_room, pg_ofs-block, pg_round_down-block,
}
use pintos_nightmare.Malloc.Change.{Changed, IsFramed, UsedAt-there, UsedAt-else, Changed-IsHeap}
use native.Mathlib.Nat.{mul-mod_left}

-- block_to_arena finds the arena of each block of it.
pub block_to_arena-block :
    (h : Heap) (x : Desc) (d a i b cnt : ℕ)
    → h.descs d ≡ x
    → IsSized x
    → (a % pgsize ≡ 0) × (0 < a)
    → i < x.blocks_per_arena
    → b ≡ block_address x.block_size a i
    → h.arenas a ≡ some (record { desc = some d; free_cnt = cnt })
    → block_to_arena b h ≡ some (a, record { desc = some d; free_cnt = cnt })
unfolding block_to_arena
block_to_arena-block h x d a i b cnt q v p l e t =
    rw (page, t, ofs, nonzero, q, aligned)
      (ap (λ (z : ℕ). some (z, record { desc = some d; free_cnt = cnt })) page)
  where
    page : pg_round_down b ≡ a
    page = ap pg_round_down e ∙ pg_round_down-block v a i p.0 l

    ofs : b % pgsize ≡ header + i * x.block_size
    ofs = ap (λ (z : ℕ). z % pgsize) e ∙ pg_ofs-block v a i p.0 l

    nonzero : (a == 0) ≡ false
    nonzero = ground (arith, p)

    offset : (header + i * x.block_size + 2 ^ 32 - header) % 2 ^ 32 ≡ i * x.block_size
    offset = omega (arith, block_room v i l)

    aligned : ((header + i * x.block_size + 2 ^ 32 - header) % 2 ^ 32 % x.block_size == 0) ≡ true
    aligned = rw (offset, mul-mod_left i x.block_size) refl

-- `hh` is `h` with the lock of descriptor `d` held, and a block `b` of the arena at `a` first on its
-- free list.
pub record Ready (d a b n : ℕ) (l : List ℕ) (h hh : Heap) : Type 0 where
  pub same_cnt : hh.desc_cnt ≡ h.desc_cnt
  pub desc_there : hh.descs d ≡ record {
    block_size = (h.descs d).block_size;
    blocks_per_arena = (h.descs d).blocks_per_arena;
    free_list = b ∷ l;
    locked = true;
  }
  pub desc_else : (i : ℕ) → i ≢ d → hh.descs i ≡ h.descs i
  pub arena_there : hh.arenas a ≡ some (record { desc = some d; free_cnt = suc n })
  pub arena_else : (i : ℕ) → i ≢ a → hh.arenas i ≡ h.arenas i

module _ (d a b n i : ℕ) (l : List ℕ) (h hh : Heap) (s : IsSized (h.descs d))
    (p : (a % pgsize ≡ 0) × (0 < a)) (o : i < (h.descs d).blocks_per_arena)
    (e : b ≡ block_address (h.descs d).block_size a i) (m : n < 2 ^ 31)
    (r : Ready d a b n l h hh) where
  abbrev last : Desc
  last = record {
    block_size = (h.descs d).block_size;
    blocks_per_arena = (h.descs d).blocks_per_arena;
    free_list = l;
    locked = true;
  }

  popped : Heap
  popped = set_desc d last hh

  counted : Heap
  counted = set_arena a (some (record { desc = some d; free_cnt = n })) popped

  taken : Heap
  taken = set_desc d (set_locked false last) counted

  last-IsSized : IsSized last
  last-IsSized = record { positive = s.positive; some_blocks = s.some_blocks; fits = s.fits }

  popped_arena : block_to_arena b popped ≡ some (a, record { desc = some d; free_cnt = suc n })
  unfolding popped
  popped_arena =
      block_to_arena-block (set_desc d last hh) last d a i b (suc n) (set_desc-there hh d last)
        last-IsSized p o e (set_desc-arenas hh d last a ∙ r.arena_there)

  counted_there : counted.descs d ≡ last
  unfolding counted popped
  counted_there =
      set_arena-descs (set_desc d last hh) a (some (record { desc = some d; free_cnt = n })) d
      ∙ set_desc-there hh d last

  released : lock_release d counted ≡ some taken
  unfolding lock_release taken
  released = rw counted_there refl

  take_block-taken : take_block d hh ≡ some (taken, b)
  unfolding take_block pop_front popped counted
  take_block-taken = rw (r.desc_there, popped_arena, wrap, released) refl
    where
      wrap : (suc n + 2 ^ 32 - 1) % 2 ^ 32 ≡ n
      wrap = omega (arith, m)

  taken-Changed :
      (h.descs d).locked ≡ false
      → Changed d a l (some (record { desc = some d; free_cnt = n })) h taken
  unfolding taken popped counted
  taken-Changed q = record {
    same_cnt =
        set_desc-cnt counted d (set_locked false last)
        ∙ set_arena-cnt popped a _
        ∙ set_desc-cnt hh d last
        ∙ r.same_cnt;
    desc_there = set_desc-there counted d (set_locked false last) ∙ rw q refl;
    desc_else = λ j k.
        set_desc-else counted d (set_locked false last) j k
        ∙ set_arena-descs popped a _ j
        ∙ set_desc-else hh d last j k
        ∙ r.desc_else j k;
    arena_there = set_desc-arenas counted d (set_locked false last) a ∙ set_arena-there popped a _;
    arena_else = λ j k.
        set_desc-arenas counted d (set_locked false last) j
        ∙ set_arena-else popped a _ j k
        ∙ set_desc-arenas hh d last j
        ∙ r.arena_else j k;
  }

  module _ (v : IsHeap h) (od : d < h.desc_cnt) (once : Distinct (b ∷ l))
      (whole : n ≡ tally (listed (h.descs d) l a) (h.descs d).blocks_per_arena)
      (frame : IsFramed d a l h) (old : (y : Arena) → h.arenas a ≡ some y → y.desc ≡ some d)
      (mine : (q : ℕ)
        → has q l ≡ true
        → pg_round_down q ≡ a
        → (j : ℕ) × (j < (h.descs d).blocks_per_arena)
          × (q ≡ block_address (h.descs d).block_size a j))
      (used : (q : ℕ) → UsedAt h a q ↔ InArena (h.descs d) a (b ∷ l) q) where
    changed : Changed d a l (some (record { desc = some d; free_cnt = n })) h taken
    changed = taken-Changed (v.idle d od)

    taken-IsHeap : IsHeap taken
    taken-IsHeap =
        Changed-IsHeap d a l (some (record { desc = some d; free_cnt = n })) h taken v changed frame
          od once.1 n (inr p) old (inr (refl, whole))
          (λ q t u. let (j, w, x) = mine q t u in ((λ z. cc), j, w, x))

    taken_at : (q : ℕ) → UsedAt taken a q ↔ ((q ≡ b) ⊎ UsedAt h a q)
    taken_at q = (forth, back)
      where
        forth : UsedAt taken a q → (q ≡ b) ⊎ UsedAt h a q
        forth u =
            let (j, w, x, k) = (UsedAt-there changed q).0 u in
            elim (Bool-cases (b == q)) [
              | inl z ↦ inl (sym ((==_iff b q).0 z))
              | inr z ↦ inr ((used q).1 (j, w, x, ground (arith, z, k)))
            ]

        back : (q ≡ b) ⊎ UsedAt h a q → UsedAt taken a q
        back (inl z) = (UsedAt-there changed q).1 (i, o, z ∙ e, ap (λ (t : ℕ). has t l) z ∙ once.0)
        back (inr u) =
            let (j, w, x, k) = (used q).0 u in
            (UsedAt-there changed q).1 (j, w, x, ground (arith, k))

    else_at : (a' q : ℕ) → a' ≢ a → UsedAt h a' q ↔ UsedAt taken a' q
    else_at a' q =
        UsedAt-else d a l (some (record { desc = some d; free_cnt = n })) h taken v changed frame a'
          q

    taken-Allocated : Allocated h taken b
    taken-Allocated = record {
      valid = taken-IsHeap;
      fresh = λ (a', u).
          let here : a' ≡ a =
            sym (UsedAt-page h a' b v u) ∙ ap pg_round_down e ∙ pg_round_down-block s a i p.0 o in
          let (j, w, x, k) = (used b).0 (subst (λ (t : ℕ). UsedAt h t b) here u) in
          ground (arith, k);
      grows = λ q. (forth q, back q);
    }
      where
        forth : (q : ℕ) → IsUsed taken q → (q ≡ b) ⊎ IsUsed h q
        forth q (a', u) = elim (Bool-cases (a' == a)) [
          | inl z ↦
              elim ((taken_at q).0 (subst (λ (t : ℕ). UsedAt taken t q) ((==_iff a' a).0 z) u)) [
                | inl w ↦ inl w
                | inr w ↦ inr (a, w)
              ]
          | inr z ↦ inr (a', (else_at a' q (λ w. ground (arith, w, z))).1 u)
        ]

        back : (q : ℕ) → (q ≡ b) ⊎ IsUsed h q → IsUsed taken q
        back q (inl z) = (a, (taken_at q).1 (inl z))
        back q (inr (a', u)) = elim (Bool-cases (a' == a)) [
          | inl z ↦
              (a, (taken_at q).1 (inr (subst (λ (t : ℕ). UsedAt h t q) ((==_iff a' a).0 z) u)))
          | inr z ↦ (a', (else_at a' q (λ w. ground (arith, w, z))).0 u)
        ]

    taken_size : block_size b taken ≡ some (h.descs d).block_size
    unfolding block_size
    taken_size =
        rw
          (
            block_to_arena-block taken (set_free_list l (h.descs d)) d a i b n changed.desc_there
                (record { positive = s.positive; some_blocks = s.some_blocks; fits = s.fits }) p o e
                changed.arena_there,
            changed.desc_there,
          )
          refl

    pub take_block-Allocated :
        (h' : Heap) × (take_block d hh ≡ some (h', b))
        × (block_size b h' ≡ some (h.descs d).block_size)
        × Allocated h h' b
    take_block-Allocated = (taken, take_block-taken, taken_size, taken-Allocated)
