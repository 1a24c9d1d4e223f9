-- ===== src/Hash/Map.antt =====
-- A hash table as a map: what the operations return and what is found after them.
use pintos_nightmare.Base.{
  if◌then◌else◌, lt→ltb, if_true, ℕ, ◌+◌, ◌-◌, ◌^◌, ◌<◌, ◌≡◌, refl, ap, ◌∙◌, subst, Bool, true,
  Option, none, some, List, arith,
}
use pintos_nightmare.Hash.{
  Hash, is_same, find_elem, find_bucket, insert_elem, remove_elem, all_elems, hash_apply, hash_find,
  rehash, add_new, drop_old, delete_found, hash_insert, hash_replace, hash_delete, hash_init,
  hash_clear,
}
use pintos_nightmare.Hash.Elems.{IsKey, find_elem-some, same_self, same_congr}
use pintos_nightmare.Hash.Move.{home-lt}
use pintos_nightmare.Hash.Rehash.{IsHash, rehash-Keeps}
use pintos_nightmare.Hash.Change.{
  find-congr, inserted-IsHash, inserted-find, here, removed_size, removed-IsHash, removed-find,
}

-- How many elements were found
abbrev pub held : Option ℕ → ℕ
held none = 0
held (some o) = 1

module _ (less : ℕ → ℕ → Bool) where
  -- The map that finds `new` for what is equal to it
  abbrev pub map_put : ℕ → (ℕ → Option ℕ) → ℕ → Option ℕ
  map_put new f q = if is_same less new q then some new else f q

  abbrev pub map_delete : ℕ → (ℕ → Option ℕ) → ℕ → Option ℕ
  map_delete e f q = if is_same less e q then none else f q

  abbrev pub map_insert : (old : Option ℕ) → ℕ → (ℕ → Option ℕ) → ℕ → Option ℕ
  map_insert none new f = map_put new f
  map_insert (some o) new f = f

module _ (hash : ℕ → ℕ) (less : ℕ → ℕ → Bool) (key : IsKey hash less) where
  -- The table that an operation leaves: what is found in it, and its size
  pub record Becomes (f : ℕ → Option ℕ) (size : ℕ) (h' : Hash) : Type 0 where
    pub valid : IsHash hash less key h'
    pub finds : (q : ℕ) → hash_find hash less h' q ≡ f q
    pub elems : h'.elem_cnt ≡ size

  resized :
      (f g : ℕ → Option ℕ) (m n : ℕ) (h : Hash)
      → Becomes f m h
      → ((q : ℕ) → f q ≡ g q)
      → m ≡ n
      → Becomes g n h
  resized f g m n h b e s = record {
    valid = b.valid;
    finds = λ q. b.finds q ∙ e q;
    elems = b.elems ∙ s;
  }

  module _ (h : Hash) (v : IsHash hash less key h) where
    abbrev f : ℕ → Option ℕ
    f = hash_find hash less h

    unchanged : Becomes f h.elem_cnt h
    unchanged = record { valid = v; finds = λ q. refl; elems = refl }

    pub insert_elem-Becomes :
        (new : ℕ)
        → h.elem_cnt + 1 < 2 ^ 32
        → hash_find hash less h new ≡ none
        → Becomes
            (map_put less new f)
            (h.elem_cnt + 1)
            (insert_elem h (find_bucket hash h.bucket_cnt new) new)
    insert_elem-Becomes new small absent = record {
      valid = inserted-IsHash hash less key h v new absent small;
      finds = inserted-find hash less key h v new absent small;
      elems = unfold insert_elem in omega (arith, small);
    }

    add_new-Becomes :
        (new : ℕ) (old : Option ℕ)
        → h.elem_cnt + 1 < 2 ^ 32
        → hash_find hash less h new ≡ old
        → Becomes (map_insert less old new f) (h.elem_cnt + 1 - held old) (add_new hash h new old)
    unfolding add_new
    add_new-Becomes new none small e =
        resized _ _ _ _ _ (insert_elem-Becomes new small e) (λ q. refl) (omega arith)
    add_new-Becomes new (some o) small e = resized _ _ _ _ _ unchanged (λ q. refl) (omega arith)

    drop_old-Becomes :
        (q : ℕ) (old : Option ℕ)
        → hash_find hash less h q ≡ old
        → Becomes (map_delete less q f) (h.elem_cnt - held old) (drop_old h old)
    unfolding drop_old
    drop_old-Becomes q none e =
        resized _ _ _ _ _ unchanged (λ x. ground (arith, find-congr hash less key h q x, e))
          (omega arith)
    drop_old-Becomes q (some o) e = record {
      valid = removed-IsHash hash less key h v q o e;
      finds = λ x. ground (arith, removed-find hash less key h v q o e x, same x);
      elems = omega (arith, removed_size hash less key h v q o e);
    }
      where
        same : (x : ℕ) → is_same less o x ≡ is_same less q x
        same x =
            same_congr hash less key o q x
              (find_elem-some hash less key _ q o (here hash less key h v q o e))

    drop_old-bucket_cnt : (old : Option ℕ) → (drop_old h old).bucket_cnt ≡ h.bucket_cnt
    unfolding drop_old remove_elem
    drop_old-bucket_cnt none = refl
    drop_old-bucket_cnt (some o) = refl

    module _ (memory : Bool) where
      then_rehash :
          (h₁ : Hash) (f : ℕ → Option ℕ) (n : ℕ)
          → Becomes f n h₁
          → (h' : Hash) × (rehash hash memory h₁ ≡ some h') × Becomes f n h'
      then_rehash h₁ f n b =
          let (h', e, k) = rehash-Keeps hash less key memory h₁ b.valid in
          (
            h',
            e,
            record {
              valid = k.valid;
              finds = λ q. k.finds q ∙ b.finds q;
              elems = k.size ∙ b.elems;
            },
          )

      -- In a table whose elements are in their buckets and counted, with an order and a hash that agree
      -- and a count that does not overflow, hash_insert returns what the table has that is equal to
      -- the new element, and then finds what it found before, else it also finds the new element.
      pub hash_insert-Becomes :
          (new : ℕ)
          → h.elem_cnt + 1 < 2 ^ 32
          → (h' : Hash) × (hash_insert hash less memory h new ≡ some (h', f new))
            × Becomes (map_insert less (f new) new f) (h.elem_cnt + 1 - held (f new)) h'
      hash_insert-Becomes new small =
          let (h', e, b) = then_rehash _ _ _ (add_new-Becomes new (f new) small refl) in
          (h', unfold hash_insert in rw e refl, b)

      delete_found-Becomes :
          (q : ℕ) (old : Option ℕ)
          → hash_find hash less h q ≡ old
          → (h' : Hash) × (delete_found hash memory h old ≡ some h')
            × Becomes (map_delete less q f) (h.elem_cnt - held old) h'
      unfolding delete_found drop_old
      delete_found-Becomes q none e = (h, refl, drop_old-Becomes q none e)
      delete_found-Becomes q (some o) e = then_rehash _ _ _ (drop_old-Becomes q (some o) e)

      -- In a table whose elements are in their buckets and counted hash_delete returns what the table has that is
      -- equal to the element, and finds this no more, and everything else as before.
      pub hash_delete-Becomes :
          (e : ℕ)
          → (h' : Hash) × (hash_delete hash less memory h e ≡ some (h', f e))
            × Becomes (map_delete less e f) (h.elem_cnt - held (f e)) h'
      hash_delete-Becomes e =
          let (h', found, b) = delete_found-Becomes e (f e) refl in
          (h', unfold hash_delete in rw found refl, b)

  module _ (h : Hash) (v : IsHash hash less key h) (memory : Bool) where
    abbrev g : ℕ → Option ℕ
    g = hash_find hash less h

    -- hash_replace returns what the table has that is equal to the new element, and puts the new
    -- element in its place.
    pub hash_replace-Becomes :
        (new : ℕ)
        → h.elem_cnt + 1 < 2 ^ 32
        → (h' : Hash) × (hash_replace hash less memory h new ≡ some (h', g new))
          × Becomes (map_put less new g) (h.elem_cnt - held (g new) + 1) h'
    hash_replace-Becomes new small =
        let (h', e, b) = then_rehash h v memory _ _ _ put in
        (h', unfold hash_replace in rw (subst (at h') (drop_old-bucket_cnt h v (g new)) e) refl, b)
      where
        d : Becomes (map_delete less new g) (h.elem_cnt - held (g new)) (drop_old h (g new))
        d = drop_old-Becomes h v new (g new) refl

        put : Becomes (map_put less new g) (h.elem_cnt - held (g new) + 1) (
            insert_elem
              (drop_old h (g new))
              (find_bucket hash (drop_old h (g new)).bucket_cnt new)
              new)
        put =
            resized _ _ _ _ _
              (insert_elem-Becomes (drop_old h (g new)) d.valid new (omega (arith, small, d.elems))
                (d.finds new ∙ if_true _ _ (same_self hash less key new)))
              (λ q. ground (arith, d.finds q)) (ap (λ (n : ℕ). n + 1) d.elems)

        at : Hash → ℕ → Type 0
        at h' n =
            rehash hash memory (insert_elem (drop_old h (g new)) (find_bucket hash n new) new)
            ≡ some h'

  -- The table that hash_init makes
  abbrev pub first : (ℕ → List ℕ) → Hash
  first buckets = hash_clear (record { elem_cnt = 0; bucket_cnt = 4; buckets = buckets })

  -- hash_init leaves a table that finds nothing.
  pub hash_init-first :
      (buckets : ℕ → List ℕ)
      → (hash_init true buckets ≡ some (first buckets)) × Becomes (λ q. none) 0 (first buckets)
  unfolding hash_init hash_clear hash_apply all_elems
  hash_init-first buckets = (
    refl,
    record {
      valid = record {
        power = (2, refl);
        word = omega arith;
        placed = λ q i l. rw (lt→ltb i 4 l) (omega arith, λ d. refl);
        counted = refl;
        few = omega arith;
      };
      finds = λ q.
          unfold hash_find find_elem in
          rw (lt→ltb (find_bucket hash 4 q) 4 (home-lt hash less key 4 q (2, refl) (omega arith)))
            refl;
      elems = refl;
    },
  )
