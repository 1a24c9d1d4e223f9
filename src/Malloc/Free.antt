-- ===== src/Malloc/Free.antt =====
-- free of threads/malloc.c on any block in use.
use pintos_nightmare.Base.{
  ◌==◌, ==_iff, Bool-cases, ℕ, ◌+◌, ◌%◌, ◌≤◌, ◌≡◌, refl, sym, ap, ◌∙◌, subst, ◌≢◌, inl, inr, false,
  Option, none, some, some-injective, arith,
}
use pintos_nightmare.Malloc.{Arena, Heap, Freed, header, set_arena, block_to_arena, free}
use pintos_nightmare.Vaddr.{pgsize, pg_round_down}
use pintos_nightmare.Malloc.Blocks.{
  UsedBy, IsUsed, IsHeap, Released, IsApart, NoneIn, Released-NoneIn, UsedAt-page, set_arena-there,
  set_arena-else,
}
use pintos_nightmare.Malloc.Change.{none-some}
use pintos_nightmare.Malloc.Take.{block_to_arena-block}
use pintos_nightmare.Malloc.Release.{free_small-Released}

module _ (h : Heap) (a cnt : ℕ) (v : IsHeap h)
    (e : h.arenas a ≡ some (record { desc = none; free_cnt = cnt })) where
  abbrev without : Heap
  without = set_arena a none h

  still : (i : ℕ) (y : Arena) → without.arenas i ≡ some y → (i ≢ a) × (h.arenas i ≡ some y)
  still i y t = elim (Bool-cases (i == a)) [
    | inl z ↦ absurd (
        none-some (sym (set_arena-there h a none) ∙ ap without.arenas (sym ((==_iff i a).0 z)) ∙ t))
    | inr z ↦
        let n : i ≢ a = λ w. ground (arith, z, w) in (n, sym (set_arena-else h a none i n) ∙ t)
  ]

  owned_else : (i : ℕ) (y : Arena) (d : ℕ) → h.arenas i ≡ some y → y.desc ≡ some d → i ≢ a
  owned_else i y d t k z =
      none-some
        (ap (λ (w : Arena). w.desc) (some-injective _ _ (sym e ∙ ap h.arenas (sym z) ∙ t)) ∙ k)

  page : pg_round_down (a + header) ≡ a
  unfolding pg_round_down
  page = omega (arith, (v.pages a (record { desc = none; free_cnt = cnt }) e).0)

  found_big : block_to_arena (a + header) h ≡ some (a, record { desc = none; free_cnt = cnt })
  unfolding block_to_arena
  found_big =
      rw (page, e, nonzero, ofs)
        (ap (λ (z : ℕ). some (z, record { desc = none; free_cnt = cnt })) page)
    where
      nonzero : (a == 0) ≡ false
      nonzero = ground (arith, (v.pages a (record { desc = none; free_cnt = cnt }) e).1)

      ofs : (a + header) % pgsize ≡ header
      ofs = omega (arith, (v.pages a (record { desc = none; free_cnt = cnt }) e).0)

  without-IsHeap : IsHeap without
  unfolding set_arena
  without-IsHeap = record {
    sized = v.sized;
    idle = v.idle;
    once = v.once;
    pages = λ i y t. v.pages i y (still i y t).1;
    counted = λ i d y t. v.counted i d y (still i y t).1;
    found = λ d b o t.
        let (i, j, k) = v.found d b o t in
        (
          i,
          j,
          record {
            arena = k.arena;
            there = set_arena-else h a none i (owned_else i k.arena d k.there k.owner) ∙ k.there;
            owner = k.owner;
            number = k.number;
            address = k.address;
          },
        );
  }

  used_forth : (i q : ℕ) (o : Option ℕ) → UsedBy without i q o → UsedBy h i q o
  unfolding set_arena
  used_forth i q none u = u
  used_forth i q (some d) u = u

  used_back : (i q : ℕ) (o : Option ℕ) → UsedBy h i q o → UsedBy without i q o
  unfolding set_arena
  used_back i q none u = u
  used_back i q (some d) u = u

  only_big :
      (i q : ℕ) (y : Arena) → UsedBy h i q y.desc → i ≡ a → h.arenas i ≡ some y → q ≡ a + header
  only_big i q y u z t =
      let none_owner : none ≡ y.desc =
        ap (λ (w : Arena). w.desc) (some-injective _ _ (sym e ∙ ap h.arenas (sym z) ∙ t)) in
      let u' : UsedBy h i q none = subst (UsedBy h i q) (sym none_owner) u in
      u' ∙ ap (λ (w : ℕ). w + header) z

  without-Released : Released h without (a + header) (some (a, cnt))
  without-Released = record {
    valid = without-IsHeap;
    shrinks = λ q. (forth q, back q);
    given_back =
        (sym page, set_arena-there h a none, (record { desc = none; free_cnt = cnt }, e, refl));
  }
    where
      forth : (q : ℕ) → IsUsed without q → IsUsed h q × (q ≢ a + header)
      forth q (i, (y, t, u)) =
          let (n, t') = still i y t in
          let u' = used_forth i q y.desc u in
          (
            (i, (y, t', u')),
            λ z. n (sym (UsedAt-page h i q v (y, t', u')) ∙ ap pg_round_down z ∙ page),
          )

      back : (q : ℕ) → IsUsed h q × (q ≢ a + header) → IsUsed without q
      back q ((i, (y, t, u)), n) = (
        i,
        (y, set_arena-else h a none i (λ z. n (only_big i q y u z t)) ∙ t, used_back i q y.desc u),
      )

abbrev record_of : Option ℕ → ℕ → Arena
record_of o c = record { desc = o; free_cnt = c }

pg_round_down-le : (p : ℕ) → pg_round_down p ≤ p
unfolding pg_round_down
pg_round_down-le p = omega arith

free_lem :
    (h : Heap) (p : ℕ)
    → IsHeap h
    → IsUsed h p
    → (h' : Heap) × (f : Freed) × (free p h ≡ some (h', f)) × Released h h' p f
unfolding free
free_lem h p v (a, (y, t, u)) = by_desc y.desc refl u
  where
    nonzero : (p == 0) ≡ false
    nonzero = ground (arith, pg_round_down-le p, UsedAt-page h a p v (y, t, u), (v.pages a y t).1)

    by_desc :
        (o : Option ℕ)
        → y.desc ≡ o
        → UsedBy h a p o
        → (h' : Heap) × (f : Freed) × (free p h ≡ some (h', f)) × Released h h' p f
    by_desc none k e =
        let big = t ∙ ap (λ (o : Option ℕ). some (record_of o y.free_cnt)) k in
        (
          without h a y.free_cnt v big,
          some (a, y.free_cnt),
          rw (nonzero, ap (λ (q : ℕ). block_to_arena q h) e ∙ found_big h a y.free_cnt v big) refl,
          subst (λ (q : ℕ). Released h (without h a y.free_cnt v big) q (some (a, y.free_cnt)))
              (sym e) (without-Released h a y.free_cnt v big),
        )
    by_desc (some d) k (i, w, z, n) =
        let od = (v.counted a d y t k).0 in
        let (h', f, r, s) =
          free_small-Released h d a i p v od
            (record { arena = y; there = t; owner = k; number = w; address = z }) n in
        (
          h',
          f,
          rw
              (
                nonzero,
                block_to_arena-block h (h.descs d) d a i p y.free_cnt refl (v.sized d od)
                    (v.pages a y t) w z
                    (t ∙ ap (λ (o : Option ℕ). some (record_of o y.free_cnt)) k),
              )
              r,
          s,
        )

-- free of a block in use, on a heap with the invariant whose arenas have no page in common, fails no
-- ASSERT and keeps the invariant: the block is no longer in use, and the other blocks in use still are.
-- If it gives back pages, they are exactly those of the block's arena, which is gone, and no block
-- that is still in use is in any of them; otherwise the arena stays.
pub free-Released :
    (h : Heap) (p : ℕ)
    → IsHeap h
    → IsApart h
    → IsUsed h p
    → (h' : Heap) × (f : Freed) × (free p h ≡ some (h', f)) × Released h h' p f × NoneIn h' f
free-Released h p v t u =
    let (h', f, e, r) = free_lem h p v u in (h', f, e, r, Released-NoneIn h h' p f v t r)
