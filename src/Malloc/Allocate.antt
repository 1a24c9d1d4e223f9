-- ===== src/Malloc/Allocate.antt =====
-- malloc of threads/malloc.c on a valid heap.
use pintos_nightmare.Base.{
  Bool-cases, has, Distinct, ◌>>=◌, ℕ, zero, suc, ◌-◌, ◌%◌, ◌^◌, ◌<◌, ◌≡◌, refl, sym, ap, ◌∙◌,
  subst, ◌≢◌, ◌↔◌, ◌⊎◌, inl, inr, Bool, true, false, Option, none, some, some-injective, List, [],
  ◌∷◌, ◌++◌, arith,
}
use pintos_nightmare.Malloc.{
  Desc, Arena, Heap, set_free_list, set_locked, set_lock, set_desc, set_arena, is_empty,
  block_address, lock_acquire, lock_release, take_block, new_arena, arena_blocks, malloc_locked,
  block_size, malloc_small,
}
use pintos_nightmare.Vaddr.{pgsize, pg_round_down}
use pintos_nightmare.Malloc.Counts.{
  tally, tally-le, tally_all, tally_one, has-blocks_from, blocks_from, arena_blocks-some,
  blocks_from-has, blocks_from-Distinct, block_address-apart,
}
use pintos_nightmare.Malloc.Blocks.{
  listed, InArena, UsedBy, UsedAt, few_blocks, IsBlock, IsHeap, Allocated, set_desc-there,
  set_desc-restore, set_desc-else, set_desc-arenas, set_desc-cnt, set_arena-there, set_arena-else,
  set_arena-descs, set_arena-cnt, pg_round_down-block,
}
use pintos_nightmare.Malloc.Change.{IsFramed, none-some}
use pintos_nightmare.Malloc.Take.{Ready, take_block-Allocated}

List-cases : (l : List ℕ) → (l ≡ []) ⊎ ((b : ℕ) × (r : List ℕ) × (l ≡ b ∷ r))
List-cases [] = inl refl
List-cases (b ∷ r) = inr (b, r, refl)

-- A page that malloc may get from the page allocator
pub record IsFresh (h : Heap) (a : ℕ) : Type 0 where
  pub unknown : h.arenas a ≡ none
  pub aligned : a % pgsize ≡ 0
  pub not_null : 0 < a

abbrev pub arena_of : Option ℕ → ℕ → Arena
arena_of o c = record { desc = o; free_cnt = c }

pub true-false : true ≡ false → ⊥
true-false e = ground (arith, e)

swap_stores :
    (d a : ℕ) (x : Desc) (y : Option Arena) (h : Heap)
    → set_desc d x (set_arena a y h) ≡ set_arena a y (set_desc d x h)
unfolding set_desc set_arena
swap_stores d a x y h = refl

module _ (h : Heap) (d : ℕ) (v : IsHeap h) (od : d < h.desc_cnt) where
  acquired : lock_acquire d h ≡ some (set_lock true d h)
  unfolding lock_acquire
  acquired = rw (v.idle d od) refl

  module _ (b : ℕ) (l : List ℕ) (e : (h.descs d).free_list ≡ b ∷ l) (a i : ℕ)
      (k : IsBlock h d a i b) where
    abbrev left : ℕ
    left = tally (listed (h.descs d) l a) (h.descs d).blocks_per_arena

    page_b : pg_round_down b ≡ a
    page_b =
        ap pg_round_down k.address
        ∙ pg_round_down-block (v.sized d od) a i (v.pages a k.arena k.there).0 k.number

    once_bl : Distinct (b ∷ l)
    once_bl = subst Distinct e (v.once d od)

    listed_else : (j : ℕ) → j ≢ i → listed (h.descs d) l a j ≡ listed (h.descs d) (b ∷ l) a j
    listed_else j n =
        let m = block_address-apart (h.descs d).block_size a j i (v.sized d od).positive n in
        ground (arith, m, k.address)

    whole_cnt : k.arena.free_cnt ≡ suc left
    whole_cnt =
        (v.counted a d k.arena k.there k.owner).1
        ∙ ap (λ (t : List ℕ). tally (listed (h.descs d) t a) (h.descs d).blocks_per_arena) e
        ∙ tally_one _ _ _ i k.number (ap (λ (t : ℕ). has t l) (sym k.address) ∙ once_bl.0)
            (ground (arith, k.address)) (λ j n. listed_else j)

    few_left : left < 2 ^ 31
    few_left = omega (
      arith,
      tally-le (listed (h.descs d) l a) (h.descs d).blocks_per_arena,
      few_blocks (v.sized d od),
    )

    same_arena : k.arena ≡ record { desc = some d; free_cnt = suc left }
    same_arena =
        ap (arena_of k.arena.desc) whole_cnt ∙ ap (λ (o : Option ℕ). arena_of o (suc left)) k.owner

    nonempty-Ready : Ready d a b left l h (set_lock true d h)
    nonempty-Ready = record {
      same_cnt = set_desc-cnt h d (set_locked true (h.descs d));
      desc_there = set_desc-there h d (set_locked true (h.descs d)) ∙ rw e refl;
      desc_else = set_desc-else h d (set_locked true (h.descs d));
      arena_there =
          set_desc-arenas h d (set_locked true (h.descs d)) a ∙ k.there ∙ ap some same_arena;
      arena_else = λ j n. set_desc-arenas h d (set_locked true (h.descs d)) j;
    }

    frame : IsFramed d a l h
    frame q n =
        let m : b ≢ q = λ z. n (sym (ap pg_round_down z) ∙ page_b) in rw e (ground (arith, m))

    owned : (y : Arena) → h.arenas a ≡ some y → y.desc ≡ some d
    owned y t = ap (λ (z : Arena). z.desc) (some-injective _ _ (sym t ∙ k.there)) ∙ k.owner

    mine :
        (q : ℕ)
        → has q l ≡ true
        → pg_round_down q ≡ a
        → (j : ℕ) × (j < (h.descs d).blocks_per_arena)
          × (q ≡ block_address (h.descs d).block_size a j)
    mine q t u =
        let (a', j, w) = v.found d q od (rw e (ground (arith, t))) in
        let here : a' ≡ a =
          sym (
            ap pg_round_down w.address
            ∙ pg_round_down-block (v.sized d od) a' j (v.pages a' w.arena w.there).0 w.number)
          ∙ u in
        (j, w.number, w.address ∙ ap (λ (z : ℕ). block_address (h.descs d).block_size z j) here)

    used : (q : ℕ) → UsedAt h a q ↔ InArena (h.descs d) a (b ∷ l) q
    used q = (forth, back)
      where
        forth : UsedAt h a q → InArena (h.descs d) a (b ∷ l) q
        forth (y, t, u) =
            let u' : UsedBy h a q (some d) = subst (UsedBy h a q) (owned y t) u in
            subst (λ (z : List ℕ). InArena (h.descs d) a z q) e u'

        back : InArena (h.descs d) a (b ∷ l) q → UsedAt h a q
        back u =
            let u' : UsedBy h a q (some d) =
              subst (λ (z : List ℕ). InArena (h.descs d) a z q) (sym e) u in
            (k.arena, k.there, subst (UsedBy h a q) (sym k.owner) u')

    nonempty_result :
        (h' : Heap) × (take_block d (set_lock true d h) ≡ some (h', b))
        × (block_size b h' ≡ some (h.descs d).block_size)
        × Allocated h h' b
    nonempty_result =
        take_block-Allocated d a b left i l h (set_lock true d h) (v.sized d od)
          (v.pages a k.arena k.there) k.number k.address few_left nonempty-Ready v od once_bl refl
          frame owned mine used

  module _ (e : (h.descs d).free_list ≡ []) (a : ℕ) (f : IsFresh h a) where
    abbrev rest : List ℕ
    rest = blocks_from ((h.descs d).blocks_per_arena - 1) 1 (h.descs d).block_size a

    abbrev block : ℕ
    block = block_address (h.descs d).block_size a 0

    first_block : blocks_from (h.descs d).blocks_per_arena 0 (h.descs d).block_size a ≡ block ∷ rest
    unfolding blocks_from
    first_block = by_count (h.descs d).blocks_per_arena (v.sized d od).some_blocks
      where
        pred_suc : (n : ℕ) → n ≡ suc n - 1
        pred_suc n = omega arith

        by_count :
            (n : ℕ)
            → 0 < n
            → blocks_from n 0 (h.descs d).block_size a
              ≡ block ∷ blocks_from (n - 1) 1 (h.descs d).block_size a
        by_count zero p = absurd (omega (arith, p))
        by_count (suc n) p =
            ap (λ (m : ℕ). block ∷ blocks_from m 1 (h.descs d).block_size a) (pred_suc n)

    once_new : Distinct (block ∷ rest)
    once_new = subst Distinct first_block (
        blocks_from-Distinct (h.descs d).blocks_per_arena 0 (h.descs d).block_size a
          (v.sized d od).positive)

    all_listed :
        (j : ℕ) → j < (h.descs d).blocks_per_arena → listed (h.descs d) (block ∷ rest) a j ≡ true
    all_listed j o =
        subst (λ (t : List ℕ). has (block_address (h.descs d).block_size a j) t ≡ true) first_block
          (has-blocks_from (h.descs d).blocks_per_arena 0 (h.descs d).block_size a j (omega arith)
            (omega (arith, o)))

    skip : (j : ℕ) → j ≢ 0 → listed (h.descs d) rest a j ≡ listed (h.descs d) (block ∷ rest) a j
    skip j n =
        let m = block_address-apart (h.descs d).block_size a j 0 (v.sized d od).positive n in
        ground (arith, m)

    whole_new :
        (h.descs d).blocks_per_arena
        ≡ suc (tally (listed (h.descs d) rest a) (h.descs d).blocks_per_arena)
    whole_new =
        sym
          (tally_all (listed (h.descs d) (block ∷ rest) a) (h.descs d).blocks_per_arena all_listed)
        ∙ tally_one (listed (h.descs d) rest a) (listed (h.descs d) (block ∷ rest) a)
            (h.descs d).blocks_per_arena 0 (v.sized d od).some_blocks once_new.0
            (all_listed 0 (v.sized d od).some_blocks) (λ j o n. skip j n)

    abbrev locked_desc : Desc
    locked_desc = set_locked true (h.descs d)

    abbrev listed_heap : Heap
    listed_heap = set_desc d (set_free_list (block ∷ rest) locked_desc) (set_lock true d h)

    abbrev new_heap : Heap
    new_heap = set_arena a (some (arena_of (some d) (h.descs d).blocks_per_arena)) listed_heap

    abbrev started : Heap
    started =
        set_arena a (some (arena_of (some d) (h.descs d).blocks_per_arena)) (set_lock true d h)

    started_desc : started.descs d ≡ locked_desc
    started_desc = set_arena-descs (set_lock true d h) a _ d ∙ set_desc-there h d locked_desc

    started_blocks : arena_blocks (h.descs d).blocks_per_arena 0 a started ≡ some (block ∷ rest)
    started_blocks =
        arena_blocks-some started a d (arena_of (some d) (h.descs d).blocks_per_arena)
          (h.descs d).blocks_per_arena 0 f.not_null (set_arena-there (set_lock true d h) a _) refl
          (rw started_desc (omega arith))
        ∙ ap (λ (z : List ℕ). some z)
            (ap (λ (z : Desc). blocks_from (h.descs d).blocks_per_arena 0 z.block_size a)
                started_desc
              ∙ first_block)

    new_arena-new_heap : new_arena d a (set_lock true d h) ≡ some new_heap
    unfolding new_arena
    new_arena-new_heap =
        rw (set_desc-there h d locked_desc, started_blocks)
          (ap (λ (z : Heap). some z)
            (ap
                (λ (l : List ℕ).
                  set_desc d (set_free_list (l ++ (block ∷ rest)) locked_desc) started)
                e
              ∙ swap_stores d a _ _ (set_lock true d h)))

    new-Ready :
        Ready d a block
          (tally (listed (h.descs d) rest a) (h.descs d).blocks_per_arena)
          rest
          h
          new_heap
    new-Ready = record {
      same_cnt =
          set_arena-cnt listed_heap a _
          ∙ set_desc-cnt (set_lock true d h) d _
          ∙ set_desc-cnt h d locked_desc;
      desc_there = set_arena-descs listed_heap a _ d ∙ set_desc-there (set_lock true d h) d _;
      desc_else = λ j n.
          set_arena-descs listed_heap a _ j
          ∙ set_desc-else (set_lock true d h) d _ j n
          ∙ set_desc-else h d locked_desc j n;
      arena_there =
          set_arena-there listed_heap a _ ∙ ap (λ (c : ℕ). some (arena_of (some d) c)) whole_new;
      arena_else = λ j n.
          set_arena-else listed_heap a _ j n
          ∙ set_desc-arenas (set_lock true d h) d _ j
          ∙ set_desc-arenas h d locked_desc j;
    }

    few_rest : tally (listed (h.descs d) rest a) (h.descs d).blocks_per_arena < 2 ^ 31
    few_rest = omega (
      arith,
      tally-le (listed (h.descs d) rest a) (h.descs d).blocks_per_arena,
      few_blocks (v.sized d od),
    )

    new_mine :
        (q : ℕ)
        → has q rest ≡ true
        → pg_round_down q ≡ a
        → (j : ℕ) × (j < (h.descs d).blocks_per_arena)
          × (q ≡ block_address (h.descs d).block_size a j)
    new_mine q t u =
        let (j, p, o, z) = blocks_from-has _ 1 (h.descs d).block_size a q t in
        (j, omega (arith, o, (v.sized d od).some_blocks), z)

    new_frame : IsFramed d a rest h
    new_frame q n = rw e (elim (Bool-cases (has q rest)) [
      | inr t ↦ t
      | inl t ↦
          let (j, p, o, z) = blocks_from-has _ 1 (h.descs d).block_size a q t in
          absurd (
            n (
              ap pg_round_down z
              ∙ pg_round_down-block (v.sized d od) a j f.aligned
                  (omega (arith, o, (v.sized d od).some_blocks))))
    ])

    new_used : (q : ℕ) → UsedAt h a q ↔ InArena (h.descs d) a (block ∷ rest) q
    new_used q = (
      (λ (y, t, u). absurd (none-some (sym f.unknown ∙ t))),
      λ (j, o, z, t).
          absurd (true-false (sym (ap (λ (u : ℕ). has u (block ∷ rest)) z ∙ all_listed j o) ∙ t)),
    )

    new_result :
        (h' : Heap) × (take_block d new_heap ≡ some (h', block))
        × (block_size block h' ≡ some (h.descs d).block_size)
        × Allocated h h' block
    new_result =
        take_block-Allocated d a block
          (tally (listed (h.descs d) rest a) (h.descs d).blocks_per_arena) 0 rest h new_heap
          (v.sized d od) (f.aligned, f.not_null) (v.sized d od).some_blocks refl few_rest new-Ready
          v od once_new refl new_frame (λ y t. absurd (none-some (sym f.unknown ∙ t))) new_mine
          new_used

  -- When no page can be had, nothing changes.
  closed : (h.descs d).free_list ≡ [] → malloc_locked d none (set_lock true d h) ≡ some (h, 0)
  unfolding malloc_locked lock_release
  closed e =
      rw (set_desc-there h d (set_locked true (h.descs d)), ap is_empty e)
        (ap (λ (t : Heap). some (t, 0))
          (ap (λ (t : Desc). set_desc d t (set_lock true d h)) reopened
            ∙ set_desc-restore h d (set_locked true (h.descs d))))
    where
      reopened : set_locked false (h.descs d) ≡ h.descs d
      reopened = ap (λ (t : Bool). set_locked t (h.descs d)) (sym (v.idle d od))

  -- What malloc does from a descriptor
  abbrev pub SmallResult : Option ℕ → Heap → ℕ → Type 0
  SmallResult got h' p =
      (got ≡ none) × (p ≡ 0) × (h' ≡ h)
      ⊎ (block_size p h' ≡ some (h.descs d).block_size) × Allocated h h' p

  from_list :
      (got : Option ℕ) (b : ℕ) (l : List ℕ)
      → (h.descs d).free_list ≡ b ∷ l
      → malloc_locked d got (set_lock true d h) ≡ take_block d (set_lock true d h)
  unfolding malloc_locked
  from_list none b l e = rw (set_desc-there h d (set_locked true (h.descs d)), e) refl
  from_list (some a) b l e = rw (set_desc-there h d (set_locked true (h.descs d)), e) refl

  from_page :
      (a : ℕ)
      → (h.descs d).free_list ≡ []
      → malloc_locked d (some a) (set_lock true d h)
        ≡ (new_arena d a (set_lock true d h) >>= take_block d)
  unfolding malloc_locked
  from_page a e = rw (set_desc-there h d (set_locked true (h.descs d)), e) refl

  pub malloc_small-Allocated :
      (got : Option ℕ)
      → ((a : ℕ) → got ≡ some a → IsFresh h a)
      → (h' : Heap) × (p : ℕ) × (malloc_small d got h ≡ some (h', p)) × SmallResult got h' p
  unfolding malloc_small
  malloc_small-Allocated got f = elim (List-cases (h.descs d).free_list) [
    | inr (b, l, e) ↦
        let (a, i, k) = v.found d b od (rw e (ground arith)) in
        let (h', r, s, t) = nonempty_result b l e a i k in
        (h', b, rw acquired (from_list got b l e ∙ r), inr (s, t))
    | inl e ↦ by_page got f e
  ]
    where
      by_page :
          (got : Option ℕ)
          → ((a : ℕ) → got ≡ some a → IsFresh h a)
          → (h.descs d).free_list ≡ []
          → (h' : Heap) × (p : ℕ) × (malloc_small d got h ≡ some (h', p)) × SmallResult got h' p
      by_page none f e = (h, 0, rw acquired (closed e), inl (refl, refl, refl))
      by_page (some a) f e =
          let (h', r, s, t) = new_result e a (f a refl) in
          (
            h',
            block e a (f a refl),
            rw acquired (
                from_page a e
                ∙ ap (λ o. o >>= take_block d) (new_arena-new_heap e a (f a refl))
                ∙ r),
            inr (s, t),
          )
