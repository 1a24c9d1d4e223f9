-- ===== src/Lists/Sequence.antt =====
-- A list as the sequence of its elements: what the operations do to it.
use pintos_nightmare.Base.{
  ◌==◌, if_true, has, Distinct, has-append, Distinct-append, length, ℕ, zero, suc, ◌<◌, ◌≡◌, refl,
  sym, ap, ◌∙◌, subst, true, false, ◌||◌, some, List, [], ◌∷◌, ◌++◌, append-nil, append_assoc,
  arith,
}
use pintos_nightmare.Lists.{
  Heap, LinkedList, is_head, is_interior, is_tail, link_in, link_out, list_init, list_insert,
  list_push_front, list_push_back, list_remove, list_front, list_pop_front, size_from, list_size,
}
use pintos_nightmare.Lists.Chains.{
  Chain, Chain-append, Chain-split, Chain-last, Chain-next, Chain-prev, link_in-Chain,
  link_in-after, link_out-Chain,
}

-- The elements of a list in order, which are different from each other, from its head and its
-- tail, and from NULL
pub record IsList (s : Heap) (l : LinkedList) (xs : List ℕ) : Type 0 where
  pub chain : Chain s l.head xs l.tail
  pub different : Distinct (l.head ∷ (xs ++ l.tail ∷ []))
  pub not_null : has 0 (l.head ∷ (xs ++ l.tail ∷ [])) ≡ false
  pub head_prev : s.prev l.head ≡ 0
  pub tail_next : s.next l.tail ≡ 0

-- The element at which `ys` begins in a list, or the tail
abbrev pub first_of : LinkedList → List ℕ → ℕ
first_of l [] = l.tail
first_of l (y ∷ ys) = y

-- list_init makes an empty list.
pub list_init-IsList :
    (l : LinkedList) (s : Heap)
    → (l.head == l.tail) ≡ false
    → (l.head == 0) ≡ false
    → (l.tail == 0) ≡ false
    → IsList (list_init l s) l []
unfolding list_init
list_init-IsList l s d h t = record {
  chain = ground (arith, d);
  different = ground (arith, d);
  not_null = ground (arith, h, t);
  head_prev = ground (arith, d);
  tail_next = ground (arith, d);
}

has_parts :
    (k : ℕ) (xs ys : List ℕ) (t : ℕ)
    → has k ((xs ++ ys) ++ t ∷ []) ≡ (has k xs || has k (ys ++ t ∷ []))
has_parts k xs ys t = ap (has k) (append_assoc xs ys (t ∷ [])) ∙ has-append k xs (ys ++ t ∷ [])

-- The elements before and after a place are different, and none is the head or the tail.
record Parted (h : ℕ) (xs ys : List ℕ) (t : ℕ) : Type 0 where
  front_once : Distinct (h ∷ xs)
  back_once : Distinct (ys ++ t ∷ [])
  parted : (k : ℕ) → has k (h ∷ xs) ≡ true → has k (ys ++ t ∷ []) ≡ false

Distinct-Parted :
    (h : ℕ) (xs ys : List ℕ) (t : ℕ) → Distinct (h ∷ ((xs ++ ys) ++ t ∷ [])) → Parted h xs ys t
Distinct-Parted h [] ys t (o, d) = record {
  front_once = (refl, tt);
  back_once = d;
  parted = λ k i. ground (arith, i, o);
}
Distinct-Parted h (x ∷ xs) ys t (o, d) =
    let p = Distinct-Parted x xs ys t d in
    record {
      front_once = (ground (arith, o, has_parts h xs ys t), p.front_once);
      back_once = p.back_once;
      parted = λ k i. ground (arith, i, o, has_parts h xs ys t, p.parted k);
    }

Parted-Distinct :
    (h : ℕ) (xs ys : List ℕ) (t : ℕ) → Parted h xs ys t → Distinct (h ∷ ((xs ++ ys) ++ t ∷ []))
Parted-Distinct h xs ys t p =
    subst (λ (z : List ℕ). Distinct (h ∷ z)) (sym (append_assoc xs ys (t ∷ [])))
      (Distinct-append (h ∷ xs) (ys ++ t ∷ []) p.front_once p.back_once p.parted)

Chain-first :
    (s : Heap) (a : ℕ) (l : LinkedList) (ys : List ℕ)
    → Chain s a ys l.tail
    → s.next a ≡ first_of l ys
Chain-first s a l [] c = c.0
Chain-first s a l (y ∷ ys) c = c.0

first_of-has : (l : LinkedList) (ys : List ℕ) → has (first_of l ys) (ys ++ l.tail ∷ []) ≡ true
first_of-has l [] = ground arith
first_of-has l (y ∷ ys) = ground arith

tail_has : (t : ℕ) (ys : List ℕ) → has t (ys ++ t ∷ []) ≡ true
tail_has t ys = ground (arith, has-append t ys (t ∷ []))

module _ (s : Heap) (l : LinkedList) (e : ℕ) (xs : List ℕ) (not_null : (e == 0) ≡ false) where
  -- The chain before and after the place, for a place before an element and at the end
  insert-Chain :
      (ys : List ℕ)
      → Chain s l.head (xs ++ ys) l.tail
      → Parted l.head xs ys l.tail
      → has e (l.head ∷ xs) ≡ false
      → has e (ys ++ l.tail ∷ []) ≡ false
      → Chain (link_in (first_of l ys) e s) l.head (xs ++ e ∷ ys) l.tail
        × (has (s.prev (first_of l ys)) (l.head ∷ xs) ≡ true)
  insert-Chain [] c p fx fy =
      let c' = subst (λ (z : List ℕ). Chain s l.head z l.tail) (append-nil xs) c in
      (
        link_in-Chain s e l.tail (ground (arith, fy)) l.head xs c' fx
            (ground (arith, p.parted l.tail)),
        Chain-prev s l.head xs l.tail c',
      )
  insert-Chain (y ∷ ys) c p fx fy =
      let (before, after) = Chain-split s l.head xs y ys l.tail c in
      (
        subst (λ (z : List ℕ). Chain (link_in y e s) l.head z l.tail)
            (append_assoc xs (e ∷ []) (y ∷ ys))
            (Chain-append (link_in y e s) l.head (xs ++ e ∷ []) y ys l.tail
              (link_in-Chain s e y (ground (arith, fy)) l.head xs before fx
                (ground (arith, p.parted y)))
              (link_in-after s e y (ground (arith, fy)) ys l.tail after
                (Chain-last s l.head xs y before) (ground (arith, fy)) p.back_once.0)),
        Chain-prev s l.head xs y before,
      )

  -- list_insert puts an element that is not NULL and not on the list before any element of it, or at
  -- its end, and the list is then the sequence with the element there.
  pub list_insert-IsList :
      (ys : List ℕ)
      → IsList s l (xs ++ ys)
      → has e (l.head ∷ ((xs ++ ys) ++ l.tail ∷ [])) ≡ false
      → (list_insert (first_of l ys) e s ≡ some (link_in (first_of l ys) e s))
        × IsList (link_in (first_of l ys) e s) l (xs ++ e ∷ ys)
  list_insert-IsList ys v new = (
    unfold list_insert in rw (linked, not_null) refl,
    record {
      chain = c.0;
      different = Parted-Distinct l.head xs (e ∷ ys) l.tail record {
        front_once = p.front_once;
        back_once = (fy, p.back_once);
        parted = λ k i. ground (arith, i, p.parted k, fx);
      };
      not_null =
          ground
            (arith, v.not_null, not_null, has_parts 0 xs ys l.tail, has_parts 0 xs (e ∷ ys) l.tail);
      head_prev = unfold link_in in ground (arith, v.head_prev, new, p.parted l.head, place);
      tail_next =
          unfold link_in in
          ground (
            arith,
            v.tail_next,
            fy,
            place,
            c.1,
            p.parted (s.prev (first_of l ys)),
            tail_has l.tail ys,
          );
    },
  )
    where
      p : Parted l.head xs ys l.tail
      p = Distinct-Parted l.head xs ys l.tail v.different

      fx : has e (l.head ∷ xs) ≡ false
      fx = ground (arith, new, has_parts e xs ys l.tail)

      fy : has e (ys ++ l.tail ∷ []) ≡ false
      fy = ground (arith, new, has_parts e xs ys l.tail)

      place : has (first_of l ys) (ys ++ l.tail ∷ []) ≡ true
      place = first_of-has l ys

      c :
          Chain (link_in (first_of l ys) e s) l.head (xs ++ e ∷ ys) l.tail
          × (has (s.prev (first_of l ys)) (l.head ∷ xs) ≡ true)
      c = insert-Chain ys v.chain p fx fy

      linked : (is_interior s (first_of l ys) || is_tail s (first_of l ys)) ≡ true
      linked = ground (arith, v.not_null, has_parts 0 xs ys l.tail, place, c.1)

module _ (s : Heap) (l : LinkedList) (e : ℕ) (xs ys : List ℕ) (v : IsList s l (xs ++ e ∷ ys)) where
  -- list_remove takes an element out of a list wherever it stands, returns the one after it or the
  -- tail, and the list is then the sequence without it.
  pub list_remove-IsList :
      (list_remove e s ≡ some (link_out e s, first_of l ys)) × IsList (link_out e s) l (xs ++ ys)
  list_remove-IsList = (
    unfold list_remove in rw linked (ap (λ k. some (link_out e s, k)) following),
    record {
      chain =
          link_out-Chain s e ys l.tail both.1 p.back_once.0 p.back_once.1 l.head xs both.0
            (ground (arith, p.parted e)) (λ k i. ground (arith, p.parted k i));
      different = Parted-Distinct l.head xs ys l.tail record {
        front_once = p.front_once;
        back_once = p.back_once.1;
        parted = λ k i. ground (arith, p.parted k i);
      };
      not_null =
          ground (arith, v.not_null, has_parts 0 xs ys l.tail, has_parts 0 xs (e ∷ ys) l.tail);
      head_prev = unfold link_out in ground (arith, v.head_prev, p.parted l.head, next_has);
      tail_next =
          unfold link_out in
          ground (arith, v.tail_next, p.parted (s.prev e), tail_has l.tail ys, prev_has);
    },
  )
    where
      both : Chain s l.head xs e × Chain s e ys l.tail
      both = Chain-split s l.head xs e ys l.tail v.chain

      p : Parted l.head xs (e ∷ ys) l.tail
      p = Distinct-Parted l.head xs (e ∷ ys) l.tail v.different

      prev_has : has (s.prev e) (l.head ∷ xs) ≡ true
      prev_has = Chain-prev s l.head xs e both.0

      next_has : has (s.next e) (ys ++ l.tail ∷ []) ≡ true
      next_has = Chain-next s e ys l.tail e both.1 (ground arith)

      linked : is_interior s e ≡ true
      linked = ground (arith, v.not_null, has_parts 0 xs (e ∷ ys) l.tail, prev_has, next_has)

      following : (link_out e s).next e ≡ first_of l ys
      following = unfold link_out in ground (arith, Chain-first s e l ys both.1)

module _ (s : Heap) (l : LinkedList) where
  -- A new element pushed in front is the first of the sequence.
  pub list_push_front-IsList :
      (e : ℕ) (xs : List ℕ)
      → (e == 0) ≡ false
      → IsList s l xs
      → has e (l.head ∷ (xs ++ l.tail ∷ [])) ≡ false
      → (s' : Heap) × (list_push_front l e s ≡ some s') × IsList s' l (e ∷ xs)
  unfolding list_push_front
  list_push_front-IsList e xs nz v new =
      let (done, v') = list_insert-IsList s l e [] nz xs v new in
      (_, rw (Chain-first s l.head l xs v.chain) done, v')

  -- A new element pushed at the back is the last of the sequence.
  pub list_push_back-IsList :
      (e : ℕ) (xs : List ℕ)
      → (e == 0) ≡ false
      → IsList s l xs
      → has e (l.head ∷ (xs ++ l.tail ∷ [])) ≡ false
      → (s' : Heap) × (list_push_back l e s ≡ some s') × IsList s' l (xs ++ e ∷ [])
  unfolding list_push_back
  list_push_back-IsList e xs nz v new =
      let same = sym (append-nil xs) in
      let (done, v') =
        list_insert-IsList s l e xs nz [] (subst (IsList s l) same v)
          (subst (λ (z : List ℕ). has e (l.head ∷ (z ++ l.tail ∷ [])) ≡ false) same new) in
      (_, done, v')

  -- list_pop_front takes out the first element and returns it.
  pub list_pop_front-IsList :
      (e : ℕ) (xs : List ℕ)
      → IsList s l (e ∷ xs)
      → (s' : Heap) × (list_pop_front l s ≡ some (s', e)) × IsList s' l xs
  unfolding list_pop_front list_front
  list_pop_front-IsList e xs v =
      let (done, v') = list_remove-IsList s l e [] xs v in
      (_, rw (v.chain.0, different) (rw done refl), v')
    where
      different : (e == l.tail) ≡ false
      different = ground (arith, v.different.1.0, tail_has l.tail xs)

  size_from-length :
      (fuel : ℕ) (a : ℕ) (xs : List ℕ)
      → Chain s a xs l.tail
      → Distinct (xs ++ l.tail ∷ [])
      → has 0 (a ∷ (xs ++ l.tail ∷ [])) ≡ false
      → length xs < fuel
      → size_from fuel (s.next a) l.tail s ≡ some (length xs)
  unfolding size_from
  size_from-length zero a xs c d z f = absurd (omega (arith, f))
  size_from-length (suc fuel) a [] c d z f =
      rw c.0 (if_true {b = l.tail == l.tail} _ _ (ground arith))
  size_from-length (suc fuel) a (x ∷ xs) c d z f =
      rw
        (
          c.0,
          other,
          linked,
          size_from-length fuel x xs c.2 d.1 (ground (arith, z)) (omega (arith, f)),
        )
        (ap some (omega arith))
    where
      linked : (is_head s x || is_interior s x) ≡ true
      linked = ground (arith, z, c.1, Chain-next s x xs l.tail x c.2 (ground arith))

      other : (x == l.tail) ≡ false
      other = ground (arith, d.0, tail_has l.tail xs)

  -- list_size counts the elements, on any fuel above their number.
  pub list_size-length :
      (fuel : ℕ) (xs : List ℕ)
      → IsList s l xs
      → length xs < fuel
      → list_size fuel l s ≡ some (length xs)
  unfolding list_size
  list_size-length fuel xs v f = size_from-length fuel l.head xs v.chain v.different.1 v.not_null f
