-- ===== src/Malloc/Release.antt =====
-- free of threads/malloc.c: a block of a descriptor goes back to the free list.
use pintos_nightmare.Base.{
  leb, ◌==◌, ==_iff, Bool-cases, has, Distinct, ◌>>=◌, ℕ, suc, ◌+◌, ◌%◌, ◌^◌, ◌≤◌, ◌<◌, ◌≡◌, refl,
  sym, ap, ◌∙◌, subst, ◌≢◌, ◌↔◌, inl, inr, Bool, true, false, not, ◌&&◌, Option, none, some,
  some-injective, List, ◌∷◌, arith,
}
use pintos_nightmare.Malloc.{
  Desc, Arena, Heap, set_free_list, set_locked, set_lock, set_desc, set_arena, block_address,
  lock_acquire, lock_release, arena_blocks, remove_blocks, Freed, free_if_unused, free_small,
}
use pintos_nightmare.Vaddr.{pg_round_down}
use pintos_nightmare.Malloc.Counts.{
  tally, tally-le, all_tally, tally_one, has-without_blocks, without_blocks-Distinct,
  has-blocks_from, blocks_from-has, block_address-apart, blocks_from, without_blocks,
  blocks_from-Distinct, arena_blocks-some, remove_blocks-some,
}
use pintos_nightmare.Malloc.Blocks.{
  listed, InArena, UsedBy, UsedAt, IsUsed, few_blocks, IsBlock, IsHeap, UsedAt-page, Released,
  arena_pages, set_desc-there, set_desc-else, set_desc-arenas, set_desc-cnt, set_arena-there,
  set_arena-else, set_arena-descs, set_arena-cnt, pg_round_down-block,
}
use pintos_nightmare.Malloc.Change.{
  Changed, IsFramed, none-some, UsedAt-there, UsedAt-else, Changed-IsHeap,
}

-- Only descriptor `d` and the arena at `a` may differ.
record OnlyAt (d a : ℕ) (h h' : Heap) : Type 0 where
  pub same_cnt : h'.desc_cnt ≡ h.desc_cnt
  pub desc_else : (i : ℕ) → i ≢ d → h'.descs i ≡ h.descs i
  pub arena_else : (i : ℕ) → i ≢ a → h'.arenas i ≡ h.arenas i

OnlyAt-refl : (d a : ℕ) (h : Heap) → OnlyAt d a h h
OnlyAt-refl d a h = record { same_cnt = refl; desc_else = λ i n. refl; arena_else = λ i n. refl }

set_desc-OnlyAt :
    (d a : ℕ) (x : Desc) (h h' : Heap) → OnlyAt d a h h' → OnlyAt d a h (set_desc d x h')
set_desc-OnlyAt d a x h h' o = record {
  same_cnt = set_desc-cnt h' d x ∙ o.same_cnt;
  desc_else = λ i n. set_desc-else h' d x i n ∙ o.desc_else i n;
  arena_else = λ i n. set_desc-arenas h' d x i ∙ o.arena_else i n;
}

set_arena-OnlyAt :
    (d a : ℕ) (x : Option Arena) (h h' : Heap) → OnlyAt d a h h' → OnlyAt d a h (set_arena a x h')
set_arena-OnlyAt d a x h h' o = record {
  same_cnt = set_arena-cnt h' a x ∙ o.same_cnt;
  desc_else = λ i n. set_arena-descs h' a x i ∙ o.desc_else i n;
  arena_else = λ i n. set_arena-else h' a x i n ∙ o.arena_else i n;
}

module _ (h : Heap) (d a i p : ℕ) (v : IsHeap h) (od : d < h.desc_cnt) (k : IsBlock h d a i p)
    (out : has p (h.descs d).free_list ≡ false) where
  abbrev cnt : ℕ
  cnt = k.arena.free_cnt

  -- `p` is pushed to the free list, and the lock is held.
  abbrev pushed_desc : Desc
  pushed_desc = set_locked true (set_free_list (p ∷ (h.descs d).free_list) (h.descs d))

  abbrev pushed : Heap
  pushed = set_desc d pushed_desc (set_lock true d h)

  pushed-OnlyAt : OnlyAt d a h pushed
  pushed-OnlyAt = set_desc-OnlyAt d a _ h _ (set_desc-OnlyAt d a _ h h (OnlyAt-refl d a h))

  more :
      suc cnt
      ≡ tally (listed (h.descs d) (p ∷ (h.descs d).free_list) a) (h.descs d).blocks_per_arena
  more =
      ap suc (v.counted a d k.arena k.there k.owner).1
      ∙ sym (
          tally_one _ _ _ i k.number
            (ap (λ (t : ℕ). has t (h.descs d).free_list) (sym k.address) ∙ out)
            (ground (arith, k.address)) (λ j o n. listed_else j n))
    where
      listed_else :
          (j : ℕ)
          → j ≢ i
          → listed (h.descs d) (h.descs d).free_list a j
            ≡ listed (h.descs d) (p ∷ (h.descs d).free_list) a j
      listed_else j n =
          let m = block_address-apart (h.descs d).block_size a j i (v.sized d od).positive n in
          ground (arith, m, k.address)

  cnt_most : suc cnt ≤ (h.descs d).blocks_per_arena
  cnt_most = omega (
    arith,
    more,
    tally-le (listed (h.descs d) (p ∷ (h.descs d).free_list) a) (h.descs d).blocks_per_arena,
  )

  -- The arena has further blocks in use, or not.
  abbrev counted_heap : Heap
  counted_heap = set_arena a (some (record { desc = some d; free_cnt = suc cnt })) pushed

  abbrev all_blocks : List ℕ
  all_blocks = blocks_from (h.descs d).blocks_per_arena 0 (h.descs d).block_size a

  abbrev swept : List ℕ
  swept = without_blocks all_blocks (p ∷ (h.descs d).free_list)

  abbrev swept_heap : Heap
  swept_heap =
      set_arena a none (set_desc d (set_locked true (set_free_list swept (h.descs d))) pushed)

  page_p : pg_round_down p ≡ a
  page_p =
      ap pg_round_down k.address
      ∙ pg_round_down-block (v.sized d od) a i (v.pages a k.arena k.there).0 k.number

  once_p : Distinct (p ∷ (h.descs d).free_list)
  once_p = (out, v.once d od)

  frame_p : IsFramed d a (p ∷ (h.descs d).free_list) h
  frame_p q n = let m : p ≢ q = λ z. n (sym (ap pg_round_down z) ∙ page_p) in ground (arith, m)

  owned : (y : Arena) → h.arenas a ≡ some y → y.desc ≡ some d
  owned y t = ap (λ (z : Arena). z.desc) (some-injective _ _ (sym t ∙ k.there)) ∙ k.owner

  in_arena :
      (q : ℕ)
      → has q (p ∷ (h.descs d).free_list) ≡ true
      → pg_round_down q ≡ a
      → (j : ℕ) × (j < (h.descs d).blocks_per_arena)
        × (q ≡ block_address (h.descs d).block_size a j)
  in_arena q t u = elim (Bool-cases (p == q)) [
    | inl e ↦ (i, k.number, sym ((==_iff p q).0 e) ∙ k.address)
    | inr e ↦
        let (a', j, w) = v.found d q od (ground (arith, t, e)) in
        let here : a' ≡ a =
          sym (
            ap pg_round_down w.address
            ∙ pg_round_down-block (v.sized d od) a' j (v.pages a' w.arena w.there).0 w.number)
          ∙ u in
        (j, w.number, w.address ∙ ap (λ (z : ℕ). block_address (h.descs d).block_size z j) here)
  ]

  -- An arena of which all blocks are free has none in use.
  swept_all :
      suc cnt ≡ (h.descs d).blocks_per_arena
      → (j : ℕ) → j < (h.descs d).blocks_per_arena
      → listed (h.descs d) (p ∷ (h.descs d).free_list) a j ≡ true
  swept_all e = all_tally _ (h.descs d).blocks_per_arena (sym more ∙ e)

  used : (q : ℕ) → UsedAt h a q ↔ InArena (h.descs d) a (h.descs d).free_list q
  used q = (
    (λ (y, t, u). subst (UsedBy h a q) (owned y t) u),
    λ u. (k.arena, k.there, subst (UsedBy h a q) (sym k.owner) u),
  )

  -- From the arena and from others to all
  module _ (l : List ℕ) (x : Option Arena) (h' : Heap) (c : Changed d a l x h h')
      (f : IsFramed d a l h) (there : (q : ℕ) → UsedAt h' a q ↔ (UsedAt h a q × (q ≢ p))) where
    shrinks_all : (q : ℕ) → IsUsed h' q ↔ (IsUsed h q × (q ≢ p))
    shrinks_all q = (forth, back)
      where
        else_at : (a' : ℕ) → a' ≢ a → UsedAt h a' q ↔ UsedAt h' a' q
        else_at a' = UsedAt-else d a l x h h' v c f a' q

        forth : IsUsed h' q → IsUsed h q × (q ≢ p)
        forth (a', u) = elim (Bool-cases (a' == a)) [
          | inl z ↦
              let (u', n) = (there q).0 (subst (λ (t : ℕ). UsedAt h' t q) ((==_iff a' a).0 z) u) in
              ((a, u'), n)
          | inr z ↦
              let n : a' ≢ a = λ w. ground (arith, w, z) in
              let u' = (else_at a' n).1 u in
              ((a', u'), λ w. n (sym (UsedAt-page h a' q v u') ∙ ap pg_round_down w ∙ page_p))
        ]

        back : IsUsed h q × (q ≢ p) → IsUsed h' q
        back ((a', u), n) = elim (Bool-cases (a' == a)) [
          | inl z ↦ (a, (there q).1 (subst (λ (t : ℕ). UsedAt h t q) ((==_iff a' a).0 z) u, n))
          | inr z ↦ (a', (else_at a' (λ w. ground (arith, w, z))).0 u)
        ]

  -- An arena that stays
  abbrev kept : Heap
  kept = set_desc d (set_locked false pushed_desc) counted_heap

  kept-Changed :
      Changed d a
        (p ∷ (h.descs d).free_list)
        (some (record { desc = some d; free_cnt = suc cnt }))
        h
        kept
  kept-Changed =
      let o = set_desc-OnlyAt d a (set_locked false pushed_desc) h counted_heap (
        set_arena-OnlyAt d a (some (record { desc = some d; free_cnt = suc cnt })) h pushed
          pushed-OnlyAt) in
      record {
        same_cnt = o.same_cnt;
        desc_there =
            set_desc-there counted_heap d (set_locked false pushed_desc)
            ∙ ap
                (λ (t : Bool). set_locked t (set_free_list (p ∷ (h.descs d).free_list) (h.descs d)))
                (sym (v.idle d od));
        desc_else = o.desc_else;
        arena_there =
            set_desc-arenas counted_heap d (set_locked false pushed_desc) a
            ∙ set_arena-there pushed a _;
        arena_else = o.arena_else;
      }

  kept_there : (q : ℕ) → UsedAt kept a q ↔ (UsedAt h a q × (q ≢ p))
  kept_there q = (forth, back)
    where
      forth : UsedAt kept a q → UsedAt h a q × (q ≢ p)
      forth u =
          let (j, w, e, n) = (UsedAt-there kept-Changed q).0 u in
          ((used q).1 (j, w, e, ground (arith, n)), λ z. ground (arith, n, z))

      back : UsedAt h a q × (q ≢ p) → UsedAt kept a q
      back (u, n) =
          let (j, w, e, m) = (used q).0 u in
          (UsedAt-there kept-Changed q).1 (j, w, e, ground (arith, n, m))

  kept-Released : Released h kept p none
  kept-Released = record {
    valid =
        Changed-IsHeap d a (p ∷ (h.descs d).free_list)
          (some (record { desc = some d; free_cnt = suc cnt })) h kept v kept-Changed frame_p od
          once_p (suc cnt) (inr (v.pages a k.arena k.there)) owned (inr (refl, more))
          (λ q t u. let (j, w, e) = in_arena q t u in ((λ z. cc), j, w, e));
    shrinks = shrinks_all (p ∷ (h.descs d).free_list) _ kept kept-Changed frame_p kept_there;
    given_back = (
      record { desc = some d; free_cnt = suc cnt },
      ap kept.arenas page_p ∙ kept-Changed.arena_there,
    );
  }

  -- An arena that goes
  abbrev gone : Heap
  gone = set_desc d (set_locked false (set_free_list swept (h.descs d))) swept_heap

  gone-Changed : Changed d a swept none h gone
  gone-Changed =
      let o =
        set_desc-OnlyAt d a (set_locked false (set_free_list swept (h.descs d))) h swept_heap (
          set_arena-OnlyAt d a none h _ (
            set_desc-OnlyAt d a (set_locked true (set_free_list swept (h.descs d))) h pushed
              pushed-OnlyAt)) in
      record {
        same_cnt = o.same_cnt;
        desc_there =
            set_desc-there swept_heap d _
            ∙ ap (λ (t : Bool). set_locked t (set_free_list swept (h.descs d))) (sym (v.idle d od));
        desc_else = o.desc_else;
        arena_there =
            set_desc-arenas swept_heap d _ a
            ∙ set_arena-there
                (set_desc d (set_locked true (set_free_list swept (h.descs d))) pushed) a none;
        arena_else = o.arena_else;
      }

  has-swept : (q : ℕ) → has q swept ≡ (has q (p ∷ (h.descs d).free_list) && not (has q all_blocks))
  has-swept q = has-without_blocks q all_blocks (p ∷ (h.descs d).free_list) once_p

  frame_swept : IsFramed d a swept h
  frame_swept q n = elim (Bool-cases (has q all_blocks)) [
    | inl t ↦
        let (j, w, o, e) = blocks_from-has _ 0 (h.descs d).block_size a q t in
        absurd (
          n (
            ap pg_round_down e
            ∙ pg_round_down-block (v.sized d od) a j (v.pages a k.arena k.there).0
                (omega (arith, o))))
    | inr t ↦ has-swept q ∙ rw t (ground (arith, frame_p q n))
  ]

  none_swept : (q : ℕ) → has q swept ≡ true → pg_round_down q ≡ a → ⊥
  none_swept q t u =
      let both = sym (has-swept q) ∙ t in
      let (j, w, e) = in_arena q (ground (arith, both)) u in
      let mine =
        ap (λ (z : ℕ). has z all_blocks) e
        ∙ has-blocks_from (h.descs d).blocks_per_arena 0 (h.descs d).block_size a j (omega arith)
            (omega (arith, w)) in
      ground (arith, both, mine)

  module _ (e : suc cnt ≡ (h.descs d).blocks_per_arena) where
    gone_there : (q : ℕ) → UsedAt gone a q ↔ (UsedAt h a q × (q ≢ p))
    gone_there q = (forth, back)
      where
        forth : UsedAt gone a q → UsedAt h a q × (q ≢ p)
        forth (y, t, u) = absurd (none-some (sym gone-Changed.arena_there ∙ t))

        back : UsedAt h a q × (q ≢ p) → UsedAt gone a q
        back (u, n) =
            let (j, w, z, m) = (used q).0 u in
            let all = ap (λ (t : ℕ). has t (p ∷ (h.descs d).free_list)) z ∙ swept_all e j w in
            absurd (ground (arith, all, m, n))

    gone-Released : Released h gone p (some (a, 1))
    gone-Released = record {
      valid =
          Changed-IsHeap d a swept none h gone v gone-Changed frame_swept od
            (without_blocks-Distinct all_blocks (p ∷ (h.descs d).free_list) once_p) 0 (inl refl)
            owned (inl refl) (λ q t u. absurd (none_swept q t u));
      shrinks = shrinks_all swept none gone gone-Changed frame_swept gone_there;
      given_back = (
        sym page_p,
        gone-Changed.arena_there,
        (k.arena, k.there, ap (λ (o : Option ℕ). arena_pages o k.arena.free_cnt) (sym k.owner)),
      );
    }

  running :
      free_small d a cnt p h
      ≡ (free_if_unused d a (suc cnt) pushed >>= λ r. lock_release d r.0 >>= λ t. some (t, r.1))
  unfolding free_small lock_acquire
  running = rw (v.idle d od, set_desc-there h d (set_locked true (h.descs d)), wrap) refl
    where
      wrap : (cnt + 1) % 2 ^ 32 ≡ suc cnt
      wrap = omega (arith, cnt_most, few_blocks (v.sized d od))

  pushed_there : pushed.descs d ≡ pushed_desc
  pushed_there = set_desc-there (set_lock true d h) d pushed_desc

  swept_blocks : arena_blocks (h.descs d).blocks_per_arena 0 a pushed ≡ some all_blocks
  swept_blocks =
      arena_blocks-some pushed a d k.arena (h.descs d).blocks_per_arena 0
        (v.pages a k.arena k.there).1
        (set_desc-arenas (set_lock true d h) d _ a ∙ set_desc-arenas h d _ a ∙ k.there) k.owner
        (rw pushed_there (omega arith))
      ∙ ap (λ (z : Desc). some (blocks_from (h.descs d).blocks_per_arena 0 z.block_size a))
          pushed_there

  swept_list :
      suc cnt ≡ (h.descs d).blocks_per_arena
      → remove_blocks all_blocks (p ∷ (h.descs d).free_list) ≡ some swept
  swept_list e =
      remove_blocks-some all_blocks (p ∷ (h.descs d).free_list)
        (blocks_from-Distinct (h.descs d).blocks_per_arena 0 (h.descs d).block_size a
          (v.sized d od).positive)
        once_p there
    where
      there : (q : ℕ) → has q all_blocks ≡ true → has q (p ∷ (h.descs d).free_list) ≡ true
      there q t =
          let (j, l, o, z) =
            blocks_from-has (h.descs d).blocks_per_arena 0 (h.descs d).block_size a q t in
          ap (λ (u : ℕ). has u (p ∷ (h.descs d).free_list)) z ∙ swept_all e j (omega (arith, o))

  pub free_small-Released :
      (h' : Heap) × (f : Freed) × (free_small d a cnt p h ≡ some (h', f)) × Released h h' p f
  unfolding free_if_unused lock_release
  free_small-Released = elim (Bool-cases (leb (h.descs d).blocks_per_arena (suc cnt))) [
    | inl t ↦
        let full : suc cnt ≡ (h.descs d).blocks_per_arena = ground (arith, t, cnt_most) in
        let same : (suc cnt == (h.descs d).blocks_per_arena) ≡ true = ground (arith, full) in
        (
          gone,
          some (a, 1),
          running ∙ rw (pushed_there, t, same, swept_blocks, swept_list full, gone_desc) refl,
          gone-Released full,
        )
    | inr t ↦ (kept, none, running ∙ rw (pushed_there, t, kept_desc) refl, kept-Released)
  ]
    where
      gone_desc : swept_heap.descs d ≡ set_locked true (set_free_list swept (h.descs d))
      gone_desc = set_arena-descs _ a none d ∙ set_desc-there pushed d _

      kept_desc : counted_heap.descs d ≡ pushed_desc
      kept_desc = set_arena-descs pushed a _ d ∙ pushed_there
