-- ===== src/Malloc/Change.antt =====
-- What a call does to one descriptor and one arena of threads/malloc.c, and what that keeps.
use pintos_nightmare.Base.{
  ◌==◌, ==_iff, Bool-cases, has, Distinct, ℕ, ◌%◌, ◌<◌, ◌≡◌, refl, sym, ap, ◌∙◌, subst, ◌≢◌, ◌↔◌,
  ◌⊎◌, inl, inr, true, false, Option, none, some, some-injective, List, arith,
}
use pintos_nightmare.Malloc.{Desc, Arena, Heap, set_free_list, block_address}
use pintos_nightmare.Vaddr.{pgsize, pg_round_down}
use pintos_nightmare.Malloc.Counts.{tally, tally_congr}
use pintos_nightmare.Malloc.Blocks.{
  listed, InArena, UsedBy, UsedAt, IsSized, IsBlock, IsHeap, pg_round_down-block,
}

-- What a call did to descriptor `d` and the arena at page `a`
pub record Changed (d a : ℕ) (l : List ℕ) (x : Option Arena) (h h' : Heap) : Type 0 where
  pub same_cnt : h'.desc_cnt ≡ h.desc_cnt
  pub desc_there : h'.descs d ≡ set_free_list l (h.descs d)
  pub desc_else : (i : ℕ) → i ≢ d → h'.descs i ≡ h.descs i
  pub arena_there : h'.arenas a ≡ x
  pub arena_else : (i : ℕ) → i ≢ a → h'.arenas i ≡ h.arenas i

-- The new free list has what it had of other arenas.
abbrev pub IsFramed : ℕ → ℕ → List ℕ → Heap → Type 0
IsFramed d a l h = (q : ℕ) → pg_round_down q ≢ a → has q l ≡ has q (h.descs d).free_list

pub none-some {ℓ} : {A : Type ℓ} {y : A} → none ≡ some y → ⊥
none-some z = cc

-- The blocks in use of the arena that a call has changed, where it is still there
pub UsedAt-there :
    {d a n : ℕ} {l : List ℕ} {h h' : Heap}
    → Changed d a l (some (record { desc = some d; free_cnt = n })) h h'
    → (q : ℕ) → UsedAt h' a q ↔ InArena (h.descs d) a l q
UsedAt-there {d} {a} {n} {l} {h} {h'} c q = (forth, back)
  where
    forth : UsedAt h' a q → InArena (h.descs d) a l q
    forth (y, t, u) =
        let same : y ≡ record { desc = some d; free_cnt = n } =
          some-injective _ _ (sym t ∙ c.arena_there) in
        let u' : UsedBy h' a q (some d) = subst (λ (z : Arena). UsedBy h' a q z.desc) same u in
        subst (λ (z : Desc). InArena z a z.free_list q) c.desc_there u'

    back : InArena (h.descs d) a l q → UsedAt h' a q
    back u = (
      _,
      c.arena_there,
      subst (λ (z : Desc). InArena z a z.free_list q) {x = set_free_list l (h.descs d)}
          (sym c.desc_there) u,
    )

module _ (d a : ℕ) (l : List ℕ) (x : Option Arena) (h h' : Heap) (v : IsHeap h)
    (c : Changed d a l x h h') (f : IsFramed d a l h) where
  same_shape :
      (i : ℕ)
      → ((h'.descs i).block_size ≡ (h.descs i).block_size)
        × ((h'.descs i).blocks_per_arena ≡ (h.descs i).blocks_per_arena)
  same_shape i = elim (Bool-cases (i == d)) [
    | inl e ↦ rw ((==_iff i d).0 e, c.desc_there) (refl, refl)
    | inr e ↦ rw (c.desc_else i (λ z. ground (arith, e, z))) (refl, refl)
  ]

  same_has :
      (i q : ℕ) → pg_round_down q ≢ a → has q (h'.descs i).free_list ≡ has q (h.descs i).free_list
  same_has i q n = elim (Bool-cases (i == d)) [
    | inl e ↦ rw ((==_iff i d).0 e, c.desc_there) (f q n)
    | inr e ↦ rw (c.desc_else i (λ z. ground (arith, e, z))) refl
  ]

  -- A block of an arena elsewhere
  page_else :
      (a' i d' q : ℕ) (y : Arena)
      → a' ≢ a
      → h.arenas a' ≡ some y
      → y.desc ≡ some d'
      → i < (h.descs d').blocks_per_arena
      → q ≡ block_address (h.descs d').block_size a' i
      → pg_round_down q ≢ a
  page_else a' i d' q y n e o p b z = n (
      sym (pg_round_down-block (v.sized d' (v.counted a' d' y e o).0) a' i (v.pages a' y e).0 p)
      ∙ ap pg_round_down (sym b)
      ∙ z)

  IsBlock-page : (d' a' i b : ℕ) → d' < h.desc_cnt → IsBlock h d' a' i b → pg_round_down b ≡ a'
  IsBlock-page d' a' i b o k =
      ap pg_round_down k.address
      ∙ pg_round_down-block (v.sized d' o) a' i (v.pages a' k.arena k.there).0 k.number

  IsBlock-else : (d' a' i b : ℕ) → a' ≢ a → IsBlock h d' a' i b → IsBlock h' d' a' i b
  IsBlock-else d' a' i b n k =
      let (s, r) = same_shape d' in
      record {
        arena = k.arena;
        there = c.arena_else a' n ∙ k.there;
        owner = k.owner;
        number = rw r k.number;
        address = rw s k.address;
      }

  -- Nothing changes for the blocks of other arenas.
  pub UsedAt-else : (a' q : ℕ) → a' ≢ a → UsedAt h a' q ↔ UsedAt h' a' q
  UsedAt-else a' q n = (forth, back)
    where
      forth_by :
          (y : Arena) (o : Option ℕ)
          → h.arenas a' ≡ some y
          → y.desc ≡ o
          → UsedBy h a' q o
          → UsedBy h' a' q o
      forth_by y none e k u = u
      forth_by y (some d') e k (i, p, b, t) =
          let (s, r) = same_shape d' in
          (i, rw r p, rw s b, same_has d' q (page_else a' i d' q y n e k p b) ∙ t)

      back_by :
          (y : Arena) (o : Option ℕ)
          → h.arenas a' ≡ some y
          → y.desc ≡ o
          → UsedBy h' a' q o
          → UsedBy h a' q o
      back_by y none e k u = u
      back_by y (some d') e k (i, p, b, t) =
          let (s, r) = same_shape d' in
          let p' : i < (h.descs d').blocks_per_arena = rw (← r) p in
          let b' : q ≡ block_address (h.descs d').block_size a' i = rw (← s) b in
          (i, p', b', sym (same_has d' q (page_else a' i d' q y n e k p' b')) ∙ t)

      forth : UsedAt h a' q → UsedAt h' a' q
      forth (y, e, u) = (y, c.arena_else a' n ∙ e, forth_by y y.desc e refl u)

      back : UsedAt h' a' q → UsedAt h a' q
      back (y, e, u) = let e' = sym (c.arena_else a' n) ∙ e in (y, e', back_by y y.desc e' refl u)

  module _ (o : d < h.desc_cnt) (once : Distinct l) (cnt : ℕ)
      (page : (x ≡ none) ⊎ ((a % pgsize ≡ 0) × (0 < a)))
      (old : (y : Arena) → h.arenas a ≡ some y → y.desc ≡ some d)
      (new : (x ≡ none)
        ⊎ (x ≡ some (record { desc = some d; free_cnt = cnt }))
          × (cnt ≡ tally (listed (h.descs d) l a) (h.descs d).blocks_per_arena))
      (mine : (b : ℕ)
        → has b l ≡ true
        → pg_round_down b ≡ a
        → (x ≢ none)
          × (i : ℕ) × (i < (h.descs d).blocks_per_arena)
          × (b ≡ block_address (h.descs d).block_size a i)) where
    sized' : (i : ℕ) → i < h'.desc_cnt → IsSized (h'.descs i)
    sized' i p = elim (Bool-cases (i == d)) [
      | inl e ↦
          let s = v.sized d o in
          rw ((==_iff i d).0 e, c.desc_there)
            (record { positive = s.positive; some_blocks = s.some_blocks; fits = s.fits })
      | inr e ↦
          rw (c.desc_else i (λ z. ground (arith, e, z))) (v.sized i (omega (arith, p, c.same_cnt)))
    ]

    idle' : (i : ℕ) → i < h'.desc_cnt → (h'.descs i).locked ≡ false
    idle' i p = elim (Bool-cases (i == d)) [
      | inl e ↦ rw ((==_iff i d).0 e, c.desc_there) (v.idle d o)
      | inr e ↦
          rw (c.desc_else i (λ z. ground (arith, e, z))) (v.idle i (omega (arith, p, c.same_cnt)))
    ]

    once' : (i : ℕ) → i < h'.desc_cnt → Distinct (h'.descs i).free_list
    once' i p = elim (Bool-cases (i == d)) [
      | inl e ↦ rw ((==_iff i d).0 e, c.desc_there) once
      | inr e ↦
          rw (c.desc_else i (λ z. ground (arith, e, z))) (v.once i (omega (arith, p, c.same_cnt)))
    ]

    pages' : (i : ℕ) (y : Arena) → h'.arenas i ≡ some y → (i % pgsize ≡ 0) × (0 < i)
    pages' i y e = elim (Bool-cases (i == a)) [
      | inl t ↦
          let here : i ≡ a = (==_iff i a).0 t in
          elim page [
            | inl z ↦ absurd (none-some (sym z ∙ sym c.arena_there ∙ ap h'.arenas (sym here) ∙ e))
            | inr p ↦ rw here p
          ]
      | inr t ↦ v.pages i y (sym (c.arena_else i (λ z. ground (arith, t, z))) ∙ e)
    ]

    counted' :
        (i d' : ℕ) (y : Arena)
        → h'.arenas i ≡ some y
        → y.desc ≡ some d'
        → (d' < h'.desc_cnt)
          × (y.free_cnt
              ≡ tally
                  (listed (h'.descs d') (h'.descs d').free_list i)
                  (h'.descs d').blocks_per_arena)
    counted' i d' y e k = elim (Bool-cases (i == a)) [
      | inl t ↦ here ((==_iff i a).0 t)
      | inr t ↦ away (λ z. ground (arith, t, z))
    ]
      where
        at_d :
            (z : Arena)
            → d' ≡ d
            → i ≡ a
            → z.free_cnt ≡ tally (listed (h.descs d) l a) (h.descs d).blocks_per_arena
            → z.free_cnt
              ≡ tally
                  (listed (h'.descs d') (h'.descs d').free_list i)
                  (h'.descs d').blocks_per_arena
        at_d z q r t = rw (q, r, c.desc_there) t

        here :
            i ≡ a
            → (d' < h'.desc_cnt)
              × (y.free_cnt
                  ≡ tally
                      (listed (h'.descs d') (h'.descs d').free_list i)
                      (h'.descs d').blocks_per_arena)
        here z = elim new [
          | inl w ↦ absurd (none-some (sym w ∙ sym c.arena_there ∙ ap h'.arenas (sym z) ∙ e))
          | inr (w, t) ↦
              let same : record { desc = some d; free_cnt = cnt } ≡ y =
                some-injective _ _ (sym w ∙ sym c.arena_there ∙ ap h'.arenas (sym z) ∙ e) in
              let same_d : d' ≡ d =
                some-injective _ _ (sym k ∙ ap (λ (u : Arena). u.desc) (sym same)) in
              (
                omega (arith, same_d, o, c.same_cnt),
                at_d y same_d z (sym (ap (λ (u : Arena). u.free_cnt) same) ∙ t),
              )
        ]

        away :
            i ≢ a
            → (d' < h'.desc_cnt)
              × (y.free_cnt
                  ≡ tally
                      (listed (h'.descs d') (h'.descs d').free_list i)
                      (h'.descs d').blocks_per_arena)
        away n =
            let e' = sym (c.arena_else i n) ∙ e in
            let (p, t) = v.counted i d' y e' k in
            let (s, r) = same_shape d' in
            (
              omega (arith, p, c.same_cnt),
              t
                  ∙ rw (s, r)
                      (tally_congr _ _ _ λ j u. sym (
                        same_has d' (block_address (h.descs d').block_size i j)
                          (page_else i j d' _ y n e' k u refl))),
            )

    found' :
        (d' b : ℕ)
        → d' < h'.desc_cnt
        → has b (h'.descs d').free_list ≡ true
        → (i : ℕ) × (j : ℕ) × IsBlock h' d' i j b
    found' d' b p t = elim (Bool-cases (pg_round_down b == a)) [
      | inl z ↦ elim (Bool-cases (d' == d)) [
        | inl q ↦ here ((==_iff d' d).0 q) ((==_iff (pg_round_down b) a).0 z)
        | inr q ↦
            let n : d' ≢ d = λ y. ground (arith, q, y) in
            let p' : d' < h.desc_cnt = omega (arith, p, c.same_cnt) in
            let (i, j, k) =
              v.found d' b p' (ap (λ (u : Desc). has b u.free_list) (sym (c.desc_else d' n)) ∙ t) in
            let at : i ≡ a = sym (IsBlock-page d' i j b p' k) ∙ (==_iff (pg_round_down b) a).0 z in
            absurd
              (n (some-injective _ _ (sym k.owner ∙ old k.arena (ap h.arenas (sym at) ∙ k.there))))
      ]
      | inr z ↦
          let n : pg_round_down b ≢ a = λ y. ground (arith, z, y) in
          let p' : d' < h.desc_cnt = omega (arith, p, c.same_cnt) in
          let (i, j, k) = v.found d' b p' (sym (same_has d' b n) ∙ t) in
          (i, j, IsBlock-else d' i j b (λ y. n (IsBlock-page d' i j b p' k ∙ y)) k)
    ]
      where
        at_d :
            d' ≡ d
            → (j : ℕ) → j < (h.descs d).blocks_per_arena
            → b ≡ block_address (h.descs d).block_size a j
            → (j < (h'.descs d').blocks_per_arena)
              × (b ≡ block_address (h'.descs d').block_size a j)
        at_d e j r s = rw (e, c.desc_there) (r, s)

        listed_there : d' ≡ d → has b l ≡ true
        listed_there e =
            ap (λ (u : Desc). has b u.free_list) (sym (ap h'.descs e ∙ c.desc_there)) ∙ t

        here : d' ≡ d → pg_round_down b ≡ a → (i : ℕ) × (j : ℕ) × IsBlock h' d' i j b
        here e z =
            let (w, j, r, s) = mine b (listed_there e) z in
            elim new [
              | inl y ↦ absurd (w y)
              | inr (y, u) ↦ (
                a,
                j,
                record {
                  arena = record { desc = some d; free_cnt = cnt };
                  there = c.arena_there ∙ y;
                  owner = ap some (sym e);
                  number = (at_d e j r s).0;
                  address = (at_d e j r s).1;
                },
              )
            ]

    -- The invariant is kept when the free list and the arena fit each other.
    pub Changed-IsHeap : IsHeap h'
    Changed-IsHeap = record {
      sized = sized';
      idle = idle';
      once = once';
      pages = pages';
      counted = counted';
      found = found';
    }
