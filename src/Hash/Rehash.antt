-- ===== src/Hash/Rehash.antt =====
-- rehash keeps what a hash table holds.
use pintos_nightmare.Base.{
  ltb, leb, ◌==◌, if◌then◌else◌, Bool-cases, if_true, length, ℕ, ◌+◌, ◌^◌, ◌≤◌, ◌<◌, ◌≡◌, refl, sym,
  ap, ◌∙◌, ◌≢◌, inl, inr, Bool, not, ◌&&◌, ◌||◌, some, List, [], arith,
}
use pintos_nightmare.Hash.{
  Hash, find_elem, find_bucket, move_bucket, move_buckets, rehash_to, rehash, all_elems, hash_apply,
  hash_find,
}
use pintos_nightmare.Hash.Power.{new_bucket_cnt-total}
use pintos_nightmare.Hash.Elems.{IsKey, count}
use pintos_nightmare.Hash.Move.{
  total_empty, home-lt, move_buckets-all_elems, count-move, find-move, IsPlaced, count-all_elems,
  find-all_elems, total-move,
}

module _ (hash : ℕ → ℕ) (less : ℕ → ℕ → Bool) (key : IsKey hash less) where
  -- A table whose elements are in their buckets and counted
  pub record IsHash (h : Hash) : Type 0 where
    pub power : (k : ℕ) × (h.bucket_cnt ≡ 2 ^ k)
    pub word : h.bucket_cnt < 2 ^ 32
    pub placed : IsPlaced hash less key h.bucket_cnt h.buckets
    pub counted : length (hash_apply h) ≡ h.elem_cnt
    pub few : h.elem_cnt < 2 ^ 32

  module _ (h : Hash) (v : IsHash h) (k : ℕ) (small : 2 ^ k < 2 ^ 32) where
    elems : List ℕ
    elems = all_elems h.buckets h.bucket_cnt 0

    moved : Hash
    moved = record h {
      bucket_cnt = 2 ^ k;
      buckets = move_buckets hash (2 ^ k) h.buckets h.bucket_cnt 0 (λ i. []);
    }

    moved_cnt : moved.bucket_cnt ≡ 2 ^ k
    unfolding moved
    moved_cnt = refl

    moved_buckets : moved.buckets ≡ move_bucket hash (2 ^ k) elems (λ i. [])
    unfolding moved elems
    moved_buckets = move_buckets-all_elems hash less key (2 ^ k) h.buckets h.bucket_cnt 0 (λ i. [])

    old_home : (q : ℕ) → find_bucket hash h.bucket_cnt q < h.bucket_cnt
    old_home q = home-lt hash less key h.bucket_cnt q v.power v.word

    elsewhere :
        (q i : ℕ)
        → i < 0 + h.bucket_cnt
        → i ≢ find_bucket hash h.bucket_cnt q
        → count less q (h.buckets i) ≡ 0
    elsewhere q i l d = (v.placed q i (omega (arith, l))).1 d

    old : ℕ → List ℕ
    old q = h.buckets (find_bucket hash h.bucket_cnt q)

    count-elems : (q : ℕ) → count less q elems ≡ count less q (old q)
    unfolding elems old
    count-elems q = ground (
      arith,
      count-all_elems hash less key q (find_bucket hash h.bucket_cnt q) h.buckets h.bucket_cnt 0
          (elsewhere q),
      old_home q,
    )

    find-elems : (q : ℕ) → find_elem less elems q ≡ find_elem less (old q) q
    unfolding elems old
    find-elems q =
        find-all_elems hash less key q (find_bucket hash h.bucket_cnt q) h.buckets h.bucket_cnt 0
          (elsewhere q)
        ∙ if_true
            {b = leb 0 (find_bucket hash h.bucket_cnt q)
              && ltb (find_bucket hash h.bucket_cnt q) (0 + h.bucket_cnt)}
            _ _ (ground (arith, old_home q))

    count_one : (q : ℕ) → count less q elems ≤ 1
    count_one q = omega (arith, count-elems q, one)
      where
        one : count less q (old q) ≤ 1
        one = unfold old in (v.placed q _ (old_home q)).0

    count-moved :
        (q j : ℕ)
        → count less q (moved.buckets j)
          ≡ (if j == find_bucket hash (2 ^ k) q then count less q elems else 0)
    count-moved q j =
        rw moved_buckets (omega (arith, count-move hash less key (2 ^ k) elems (λ i. []) q j))

    find-moved : (q : ℕ) → hash_find hash less moved q ≡ hash_find hash less h q
    unfolding hash_find find_elem moved old
    find-moved q =
        ap (λ B. find_elem less (B (find_bucket hash (2 ^ k) q)) q) moved_buckets
        ∙ find-move hash less key (2 ^ k) elems (λ i. []) q (omega (arith, count_one q))
        ∙ find-elems q

    moved_counted : length (hash_apply moved) ≡ moved.elem_cnt
    unfolding hash_apply
    moved_counted =
        rw (moved_buckets, moved_cnt)
          (omega (
            arith,
            total-move hash less key (2 ^ k) k refl small elems (λ i. []),
            total_empty (2 ^ k) 0,
            size,
          ))
      where
        size : length elems ≡ moved.elem_cnt
        size = unfold elems moved in (sym all ∙ v.counted)
          where
            all : length (hash_apply h) ≡ length (all_elems h.buckets h.bucket_cnt 0)
            all = unfold hash_apply in refl

    moved-IsHash : IsHash moved
    moved-IsHash = record {
      power = (k, unfold moved in refl);
      word = unfold moved in small;
      placed = λ q i l. rw moved_cnt (ground (arith, count-moved q i, count_one q));
      counted = moved_counted;
      few = unfold moved in v.few;
    }

  -- What a table becomes that keeps what it holds
  pub record Keeps (h h' : Hash) : Type 0 where
    pub valid : IsHash h'
    pub finds : (q : ℕ) → hash_find hash less h' q ≡ hash_find hash less h q
    pub size : h'.elem_cnt ≡ h.elem_cnt

  pub rehash-Keeps :
      (memory : Bool) (h : Hash)
      → IsHash h
      → (h' : Hash) × (rehash hash memory h ≡ some h') × Keeps h h'
  unfolding rehash rehash_to
  rehash-Keeps memory h v =
      let (k, found, four, most, least) = new_bucket_cnt-total h.elem_cnt v.few in
      elim (Bool-cases ((2 ^ k == h.bucket_cnt) || not memory)) [
        | inl e ↦ (h, rw (found, e) refl, record { valid = v; finds = λ q. refl; size = refl })
        | inr e ↦
            let small : 2 ^ k < 2 ^ 32 = omega (arith, most, v.few) in
            (
              moved h v k small,
              rw (found, e) (unfold moved in refl),
              record {
                valid = moved-IsHash h v k small;
                finds = find-moved h v k small;
                size = unfold moved in refl;
              },
            )
      ]
