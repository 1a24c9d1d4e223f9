-- ===== src/Malloc/Blocks.antt =====
-- The invariant of threads/malloc.c, and the blocks in use.
use pintos_nightmare.Base.{
  ltb, ◌==◌, if◌then◌else◌, ltb→lt, ==_iff, Bool-cases, if_false, if_true, has, Distinct, ℕ, suc,
  ◌+◌, ◌*◌, ◌%◌, ◌≤◌, ◌<◌, ◌≡◌, refl, sym, ap, ◌∙◌, subst, ◌≢◌, ◌↔◌, ◌⊎◌, inl, inr, Bool, true,
  false, Option, none, some, List, arith,
}
use pintos_nightmare.Malloc.{Desc, Arena, Heap, Freed, header, set_desc, set_arena, block_address}
use pintos_nightmare.Vaddr.{pgsize, pg_round_down}
use pintos_nightmare.Malloc.Counts.{tally}
use mathlib.Core.Path.{fun_ext}
use native.Mathlib.Nat.{mul-le-mul_left, mul-le-mul_right}

-- Which blocks of arena `a` of a descriptor are on a list
abbrev pub listed : Desc → List ℕ → ℕ → ℕ → Bool
listed x l a i = has (block_address x.block_size a i) l

-- `q` is a block of an arena at `a` of a descriptor, and is not on a list.
abbrev pub InArena : Desc → ℕ → List ℕ → ℕ → Type 0
InArena x a l q =
    (i : ℕ) × (i < x.blocks_per_arena) × (q ≡ block_address x.block_size a i) × (has q l ≡ false)

-- `q` is a block of the arena at `a`, of the descriptor given, and is not free.
abbrev pub UsedBy : Heap → ℕ → ℕ → Option ℕ → Type 0
UsedBy h a q none = q ≡ a + header
UsedBy h a q (some d) = InArena (h.descs d) a (h.descs d).free_list q

abbrev pub UsedAt : Heap → ℕ → ℕ → Type 0
UsedAt h a q = (x : Arena) × (h.arenas a ≡ some x) × UsedBy h a q x.desc

-- `q` is a block that malloc returned and that is not freed.
abbrev pub IsUsed : Heap → ℕ → Type 0
IsUsed h q = (a : ℕ) × UsedAt h a q

-- A descriptor whose blocks fit in a page
pub record IsSized (x : Desc) : Type 0 where
  pub positive : 0 < x.block_size
  pub some_blocks : 0 < x.blocks_per_arena
  pub fits : header + x.blocks_per_arena * x.block_size ≤ pgsize

-- `b` is block number `i` of an arena at `a`, of descriptor `d`.
pub record IsBlock (h : Heap) (d a i b : ℕ) : Type 0 where
  pub arena : Arena
  pub there : h.arenas a ≡ some arena
  pub owner : arena.desc ≡ some d
  pub number : i < (h.descs d).blocks_per_arena
  pub address : b ≡ block_address (h.descs d).block_size a i

-- Arenas stand at the starts of pages, a free list has blocks of its descriptor's arenas, each
-- once, and no lock is held; an arena counts those of its blocks that are free.
pub record IsHeap (h : Heap) : Type 0 where
  pub sized : (d : ℕ) → d < h.desc_cnt → IsSized (h.descs d)
  pub idle : (d : ℕ) → d < h.desc_cnt → (h.descs d).locked ≡ false
  pub once : (d : ℕ) → d < h.desc_cnt → Distinct (h.descs d).free_list
  pub pages : (a : ℕ) (x : Arena) → h.arenas a ≡ some x → (a % pgsize ≡ 0) × (0 < a)
  pub counted :
      (a d : ℕ) (x : Arena)
      → h.arenas a ≡ some x
      → x.desc ≡ some d
      → (d < h.desc_cnt)
        × (x.free_cnt
            ≡ tally (listed (h.descs d) (h.descs d).free_list a) (h.descs d).blocks_per_arena)
  pub found :
      (d b : ℕ)
      → d < h.desc_cnt
      → has b (h.descs d).free_list ≡ true
      → (a : ℕ) × (i : ℕ) × IsBlock h d a i b

pub few_blocks : {x : Desc} → IsSized x → x.blocks_per_arena ≤ pgsize
few_blocks {x} v = omega (arith, v.fits, mul-le-mul_left x.blocks_per_arena v.positive)

module _ {x : Desc} (v : IsSized x) (i : ℕ) (l : i < x.blocks_per_arena) where
  pub block_room : header + i * x.block_size + x.block_size ≤ pgsize
  block_room = omega (arith, v.fits, mul-le-mul_right x.block_size l, step)
    where
      step : suc i * x.block_size ≡ i * x.block_size + x.block_size
      step = grind arith

module _ {x : Desc} (v : IsSized x) (a i : ℕ) (e : a % pgsize ≡ 0)
    (l : i < x.blocks_per_arena) where
  pub pg_ofs-block : block_address x.block_size a i % pgsize ≡ header + i * x.block_size
  pg_ofs-block = omega (arith, e, block_room v i l, v.positive)

  pub pg_round_down-block : pg_round_down (block_address x.block_size a i) ≡ a
  unfolding pg_round_down
  pg_round_down-block = omega (arith, e, block_room v i l, v.positive)

-- A store to a descriptor or an arena, and what it leaves
module _ (h : Heap) (d : ℕ) (x : Desc) where
  pub set_desc-there : (set_desc d x h).descs d ≡ x
  unfolding set_desc
  set_desc-there = if_true {b = d == d} _ _ (ground arith)

  pub set_desc-else : (i : ℕ) → i ≢ d → (set_desc d x h).descs i ≡ h.descs i
  unfolding set_desc
  set_desc-else i n = if_false {b = i == d} _ _ (ground (arith, n))

  pub set_desc-arenas : (i : ℕ) → (set_desc d x h).arenas i ≡ h.arenas i
  unfolding set_desc
  set_desc-arenas i = refl

  pub set_desc-cnt : (set_desc d x h).desc_cnt ≡ h.desc_cnt
  unfolding set_desc
  set_desc-cnt = refl

-- A descriptor that is stored again
pub set_desc-restore : (h : Heap) (d : ℕ) (x : Desc) → set_desc d (h.descs d) (set_desc d x h) ≡ h
unfolding set_desc
set_desc-restore h d x = ap with_descs (fun_ext same)
  where
    with_descs : (ℕ → Desc) → Heap
    with_descs f = record { desc_cnt = h.desc_cnt; descs = f; arenas = h.arenas }

    same : (i : ℕ) → (if i == d then h.descs d else (if i == d then x else h.descs i)) ≡ h.descs i
    same i = elim (Bool-cases (i == d)) [
      | inl e ↦ rw ((==_iff i d).0 e) (if_true {b = d == d} _ _ (ground arith))
      | inr e ↦ rw e refl
    ]

module _ (h : Heap) (a : ℕ) (x : Option Arena) where
  pub set_arena-there : (set_arena a x h).arenas a ≡ x
  unfolding set_arena
  set_arena-there = if_true {b = a == a} _ _ (ground arith)

  pub set_arena-else : (i : ℕ) → i ≢ a → (set_arena a x h).arenas i ≡ h.arenas i
  unfolding set_arena
  set_arena-else i n = if_false {b = i == a} _ _ (ground (arith, n))

  pub set_arena-descs : (i : ℕ) → (set_arena a x h).descs i ≡ h.descs i
  unfolding set_arena
  set_arena-descs i = refl

  pub set_arena-cnt : (set_arena a x h).desc_cnt ≡ h.desc_cnt
  unfolding set_arena
  set_arena-cnt = refl

-- A block in use is in the page of its arena.
pub UsedAt-page : (h : Heap) (a q : ℕ) → IsHeap h → UsedAt h a q → pg_round_down q ≡ a
unfolding pg_round_down
UsedAt-page h a q v (x, t, u) = by_desc x.desc refl u
  where
    by_desc : (o : Option ℕ) → x.desc ≡ o → UsedBy h a q o → pg_round_down q ≡ a
    by_desc none e u = omega (arith, u, (v.pages a x t).0)
    by_desc (some d) e (i, p, b, k) =
        ap pg_round_down b
        ∙ pg_round_down-block (v.sized d (v.counted a d x t e).0) a i (v.pages a x t).0 p

-- What a call of malloc did that returned block `p`: this was not in use, now it is, and the blocks
-- that were in use still are, and no others.
pub record Allocated (h h' : Heap) (p : ℕ) : Type 0 where
  pub valid : IsHeap h'
  pub fresh : IsUsed h p → ⊥
  pub grows : (q : ℕ) → IsUsed h' q ↔ ((q ≡ p) ⊎ IsUsed h q)

-- The pages of an arena
abbrev pub arena_pages : Option ℕ → (free_cnt : ℕ) → ℕ
arena_pages none free_cnt = free_cnt
arena_pages (some d) free_cnt = 1

-- No two arenas have a page in common, as the page allocator gives no page twice.
abbrev pub IsApart : Heap → Type 0
IsApart h =
    (a b : ℕ) (x y : Arena)
    → h.arenas a ≡ some x
    → h.arenas b ≡ some y
    → a < b
    → a + arena_pages x.desc x.free_cnt * pgsize ≤ b

-- What the pages have to do with block `p` that a call of free gives back, or does not: they are
-- those of the block's arena, which is gone, or the arena stays.
abbrev pub GivesBack : (h h' : Heap) (p : ℕ) → Freed → Type 0
GivesBack h h' p none = (x : Arena) × (h'.arenas (pg_round_down p) ≡ some x)
GivesBack h h' p (some (a, n)) =
    (a ≡ pg_round_down p)
    × (h'.arenas a ≡ none)
    × ((x : Arena) × (h.arenas a ≡ some x) × (n ≡ arena_pages x.desc x.free_cnt))

-- No block in use is in the pages that a call of free gives back.
abbrev pub NoneIn : Heap → Freed → Type 0
NoneIn h none = Unit
NoneIn h (some (a, n)) = (q : ℕ) → IsUsed h q → (q < a) ⊎ (a + n * pgsize ≤ q)

-- What a call of free did with block `p`: this is no longer in use, and the other blocks are as
-- before. The pages that it gives back, if any, are those of the block's arena.
pub record Released (h h' : Heap) (p : ℕ) (f : Freed) : Type 0 where
  pub valid : IsHeap h'
  pub shrinks : (q : ℕ) → IsUsed h' q ↔ (IsUsed h q × (q ≢ p))
  pub given_back : GivesBack h h' p f

round_le : (q : ℕ) → pg_round_down q ≤ q
unfolding pg_round_down
round_le q = omega arith

-- The pages of the arena have no block in use left.
pub Released-NoneIn :
    (h h' : Heap) (p : ℕ) (f : Freed) → IsHeap h → IsApart h → Released h h' p f → NoneIn h' f
Released-NoneIn h h' p none v t r = tt
Released-NoneIn h h' p (some (a, n)) v t r = outside
  where
    outside : (q : ℕ) → IsUsed h' q → (q < a) ⊎ (a + n * pgsize ≤ q)
    outside q (b', w) = by_page ((r.shrinks q).0 (b', w)).0
      where
        gone : b' ≢ a
        gone z = let (y, e, _) = w in cc (sym (ap h'.arenas z ∙ r.given_back.1) ∙ e)

        below :
            (b : ℕ) (y : Arena)
            → h.arenas b ≡ some y
            → b < a
            → pg_round_down q ≡ b
            → (x : Arena) → h.arenas a ≡ some x
            → q < a
        below b y e l here x k =
            let low : b % pgsize ≡ 0 = (v.pages b y e).0 in
            let high : a % pgsize ≡ 0 = (v.pages a x k).0 in
            unfold pg_round_down in omega (arith, low, high, l, here)

        by_page : IsUsed h q → (q < a) ⊎ (a + n * pgsize ≤ q)
        by_page (b, (y, e, u)) =
            let here : pg_round_down q ≡ b = UsedAt-page h b q v (y, e, u) in
            let there : pg_round_down q ≡ b' = UsedAt-page h' b' q r.valid w in
            let (x, k, m) = r.given_back.2 in
            elim (Bool-cases (ltb a b)) [
              | inl l ↦
                  let free_below : a + arena_pages x.desc x.free_cnt * pgsize ≤ b =
                    t a b x y k e (ltb→lt a b l) in
                  inr (
                    subst (λ (c : ℕ). a + c * pgsize ≤ q) (sym m)
                      (omega (arith, free_below, here, round_le q)))
              | inr l ↦ inl (below b y e (ground (arith, l, gone, here, there)) here x k)
            ]
