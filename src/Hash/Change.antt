-- ===== src/Hash/Change.antt =====
-- A hash table after an element is put in or taken out.
use pintos_nightmare.Base.{
  if◌then◌else◌, length, ℕ, ◌+◌, ◌^◌, ◌≤◌, ◌<◌, ◌≡◌, refl, ◌≢◌, Bool, true, none, some, ◌∷◌, arith,
}
use pintos_nightmare.Hash.{
  Hash, write_bucket, is_same, find_elem, find_bucket, remove, insert_elem, remove_elem, hash_apply,
  hash_find,
}
use pintos_nightmare.Hash.Elems.{
  IsKey, count, count-congr, count-remove, length-remove, find_elem-remove, find_elem-some,
  find_elem-none, find_elem-congr, remove-absent,
}
use pintos_nightmare.Hash.Move.{home-lt, home_congr, total, total_congr, total-write}
use pintos_nightmare.Hash.Rehash.{IsHash}

module _ (hash : ℕ → ℕ) (less : ℕ → ℕ → Bool) (key : IsKey hash less) where
  pub find-congr :
      (h : Hash) (a q : ℕ)
      → is_same less a q ≡ true
      → hash_find hash less h a ≡ hash_find hash less h q
  unfolding hash_find
  find-congr h a q e =
      rw (home_congr hash less key h.bucket_cnt a q e) (find_elem-congr hash less key a q _ e)

  module _ (h : Hash) (v : IsHash hash less key h) where
    home : ℕ → ℕ
    home = find_bucket hash h.bucket_cnt

    home_small : (q : ℕ) → home q < h.bucket_cnt
    unfolding home
    home_small q = home-lt hash less key h.bucket_cnt q v.power v.word

    module _ (e : ℕ) (absent : hash_find hash less h e ≡ none)
        (small : h.elem_cnt + 1 < 2 ^ 32) where
      none_equal : count less e (h.buckets (find_bucket hash h.bucket_cnt e)) ≡ 0
      none_equal = find_elem-none hash less key _ e (unfold hash_find in absent)

      pub inserted-IsHash : IsHash hash less key (insert_elem h (find_bucket hash h.bucket_cnt e) e)
      unfolding insert_elem hash_apply home
      inserted-IsHash = record {
        power = v.power;
        word = v.word;
        placed = λ q i l. ground (
          arith,
          v.placed q i l,
          none_equal,
          home_congr hash less key h.bucket_cnt e q,
          count-congr hash less key e q (h.buckets i),
        );
        counted = omega (
          arith,
          v.counted,
          small,
          total-write h.buckets (home e) (e ∷ h.buckets (home e)) h.bucket_cnt 0 (omega arith)
              (omega (arith, home_small e)),
        );
        few = omega (arith, small);
      }

      pub inserted-find :
          (q : ℕ)
          → hash_find hash less (insert_elem h (find_bucket hash h.bucket_cnt e) e) q
            ≡ (if is_same less e q then some e else hash_find hash less h q)
      unfolding insert_elem hash_find find_elem
      inserted-find q = ground (arith, home_congr hash less key h.bucket_cnt e q)

    module _ (q₀ e : ℕ) (found : hash_find hash less h q₀ ≡ some e) where
      pub here : find_elem less (h.buckets (find_bucket hash h.bucket_cnt q₀)) q₀ ≡ some e
      here = unfold hash_find in found

      home_same : find_bucket hash h.bucket_cnt e ≡ find_bucket hash h.bucket_cnt q₀
      home_same =
          home_congr hash less key h.bucket_cnt e q₀ (find_elem-some hash less key _ q₀ e here)

      -- The other buckets do not have it.
      remove-at :
          (i : ℕ)
          → i < h.bucket_cnt
          → remove e (h.buckets i)
            ≡ write_bucket h.buckets
                (find_bucket hash h.bucket_cnt q₀)
                (remove e (h.buckets (find_bucket hash h.bucket_cnt q₀)))
                i
      remove-at i l =
          ground (arith, v.placed e i l, home_same, remove-absent hash less key e (h.buckets i))

      size : total (λ i. remove e (h.buckets i)) h.bucket_cnt 0 + 1 ≡ total h.buckets h.bucket_cnt 0
      unfolding home
      size = omega (
        arith,
        total_congr (λ i. remove e (h.buckets i)) _ h.bucket_cnt 0
            (λ i z l. remove-at i (omega (arith, l))),
        total-write h.buckets (home q₀) (remove e (h.buckets (home q₀))) h.bucket_cnt 0
            (omega arith) (omega (arith, home_small q₀)),
        length-remove hash less key q₀ e (h.buckets (home q₀)) here,
      )

      removed_count :
          (q i : ℕ)
          → i < h.bucket_cnt
          → (count less q (remove e (h.buckets i)) ≤ 1)
            × (i ≢ find_bucket hash h.bucket_cnt q → count less q (remove e (h.buckets i)) ≡ 0)
      removed_count q i l = ground (
        arith,
        remove-at i l,
        v.placed q i l,
        count-remove hash less key q₀ e (h.buckets (find_bucket hash h.bucket_cnt q₀)) q here,
      )

      pub removed_size : (remove_elem h e).elem_cnt + 1 ≡ h.elem_cnt
      unfolding remove_elem
      removed_size = omega (arith, size, all, v.counted, v.few)
        where
          all : length (hash_apply h) ≡ total h.buckets h.bucket_cnt 0
          all = unfold hash_apply in refl

      pub removed-IsHash : IsHash hash less key (remove_elem h e)
      unfolding remove_elem hash_apply
      removed-IsHash = record {
        power = v.power;
        word = v.word;
        placed = removed_count;
        counted = omega (arith, size, v.counted, v.few);
        few = omega arith;
      }

      pub removed-find :
          (q : ℕ)
          → hash_find hash less (remove_elem h e) q
            ≡ (if is_same less e q then none else hash_find hash less h q)
      unfolding remove_elem hash_find
      removed-find q = ground (
        arith,
        remove-at (find_bucket hash h.bucket_cnt q) (unfold home in home_small q),
        v.placed q (find_bucket hash h.bucket_cnt q) (unfold home in home_small q),
        find_elem-remove hash less key q₀ e (h.buckets (find_bucket hash h.bucket_cnt q₀)) q here,
        home_congr hash less key h.bucket_cnt e q,
        home_same,
      )
