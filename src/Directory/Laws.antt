-- ===== src/Directory/Laws.antt =====
-- What dir_add does to the names of a directory, and where it fails.
use pintos_nightmare.Base.{
  ltb, ◌==◌, if◌then◌else◌, lt→ltb, Bool-cases, length, set, take, ℕ, zero, suc, ◌+◌, ◌-◌, ◌≤◌, ◌<◌,
  ◌≡◌, refl, sym, ap, subst, inl, inr, Bool, true, false, ◌&&◌, ◌||◌, none, some, List, [], ◌∷◌,
  arith,
}
use pintos_nightmare.InodeTable.{DirEntry, FileSys, Env}
use pintos_nightmare.Directory.{
  name_max, same_name, strlcpy, lookup_from, lookup, free_slot, write_entry, add_entry, dir_add,
}

pub same_name_refl : (xs : List ℕ) → same_name xs xs ≡ true
unfolding same_name
same_name_refl [] = refl
same_name_refl (x ∷ xs) = ground (arith, same_name_refl xs)

take_all : (n : ℕ) (xs : List ℕ) → length xs ≤ n → take n xs ≡ xs
take_all zero [] h = refl
take_all zero (x ∷ xs) h = absurd (omega (arith, h))
take_all (suc n) [] h = refl
take_all (suc n) (x ∷ xs) h = ap (◌∷◌ x) (take_all n xs (omega (arith, h)))

free_slot-≥ : (k : ℕ) (es : List DirEntry) → k ≤ free_slot k es
unfolding free_slot
free_slot-≥ k [] = omega arith
free_slot-≥ k (e ∷ es) = ground (arith, free_slot-≥ (k + 1) es)

set-suc :
    (e x : DirEntry) (es : List DirEntry) (n m : ℕ) → n ≡ suc m → set (e ∷ es) n x ≡ e ∷ set es m x
set-suc e x es n m h = rw h refl

step_back :
    (k : ℕ) (es : List DirEntry) → free_slot (k + 1) es - k ≡ suc (free_slot (k + 1) es - (k + 1))
step_back k es = omega (arith, free_slot-≥ (k + 1) es)

-- Writing an entry to the first free slot of the slots from the `k`-th on.
abbrev filled : ℕ → DirEntry → List DirEntry → List DirEntry
filled k x es = set es (free_slot k es - k) x

filled-free :
    (k : ℕ) (x e : DirEntry) (es : List DirEntry) → e.in_use ≡ false → filled k x (e ∷ es) ≡ x ∷ es
unfolding free_slot
filled-free k x e es h = rw (h, zero_back) refl
  where
    zero_back : k - k ≡ 0
    zero_back = omega arith

filled-busy :
    (k : ℕ) (x e : DirEntry) (es : List DirEntry)
    → e.in_use ≡ true
    → filled k x (e ∷ es) ≡ e ∷ filled (k + 1) x es
unfolding free_slot
filled-busy k x e es h = set-suc e x es _ _ (rw h (step_back k es))

module _ (x : DirEntry) (used : x.in_use ≡ true) where
  lookup-filled :
      (k : ℕ) (es : List DirEntry)
      → lookup_from k x.name es ≡ none
      → free_slot k es < k + length es
      → lookup_from k x.name (filled k x es) ≡ some (x, free_slot k es)
  unfolding lookup_from free_slot
  lookup-filled k [] h in_file = absurd (omega (arith, in_file))
  lookup-filled k (e ∷ es) h in_file = elim (Bool-cases e.in_use) [
    | inr free ↦
        subst (λ l. lookup_from k x.name l ≡ some (x, free_slot k (e ∷ es)))
          (sym (filled-free k x e es free)) (rw (used, same_name_refl x.name, free) refl)
    | inl busy ↦
        let missed = Bool-cases (same_name x.name e.name) in
        subst (λ l. lookup_from k x.name l ≡ some (x, free_slot k (e ∷ es)))
          (sym (filled-busy k x e es busy))
          (elim missed [
            | inl same ↦ cc (rw (busy, same) at h)
            | inr other ↦
                rw (busy, other)
                  (lookup-filled (k + 1) es (rw (busy, other) at h)
                    (omega (arith, rw busy at in_file)))
          ])
  ]

lookup-other :
    (x : DirEntry) (k : ℕ) (es : List DirEntry) (other : List ℕ)
    → same_name other x.name ≡ false
    → lookup_from k other (filled k x es) ≡ lookup_from k other es
unfolding lookup_from
lookup-other x k [] other h = refl
lookup-other x k (e ∷ es) other h = elim (Bool-cases e.in_use) [
  | inr free ↦
      subst (λ l. lookup_from k other l ≡ lookup_from k other (e ∷ es))
        (sym (filled-free k x e es free)) (rw (free, h) (not_here (x.in_use)))
  | inl busy ↦
      subst (λ l. lookup_from k other l ≡ lookup_from k other (e ∷ es))
        (sym (filled-busy k x e es busy))
        (ap (λ r. if e.in_use && same_name other e.name then some (e, k) else r)
          (lookup-other x (k + 1) es other h))
]
  where
    not_here :
        (b : Bool)
        → (if b && false then some (x, k) else lookup_from (k + 1) other es)
          ≡ lookup_from (k + 1) other es
    not_here b = ground arith

module _ (env : Env) (name : List ℕ) (sector : ℕ) (fs : FileSys) (free : fs.dir_lock ≡ false) where
  -- On a name that is empty or longer than NAME_MAX, dir_add returns false with `dir_lock` still
  -- held, and whatever the thread adds to the directory next, it panics.
  pub dir_add_keeps_lock :
      ((length name == 0) || ltb name_max (length name)) ≡ true
      → (fs' : FileSys) × (dir_add env name sector fs ≡ some (fs', false))
        × (fs'.dir_lock ≡ true)
        × ((env' : Env) (n : List ℕ) (s : ℕ) → dir_add env' n s fs' ≡ none)
  unfolding dir_add
  dir_add_keeps_lock bad =
      (record fs { dir_lock = true }, rw (free, bad) refl, refl, λ env' n s. refl)

  -- Adding a valid name that the directory does not have, while it has a free slot that can be
  -- written: the name then stands for the given sector, in the first slot that was free, every
  -- other name for what it stood for, and `dir_lock` is given back.
  pub dir_add-Added :
      ((length name == 0) || ltb name_max (length name)) ≡ false
      → lookup name fs.entries ≡ none
      → env.entry_ok ≡ true
      → free_slot 0 fs.entries < length fs.entries
      → (fs' : FileSys) × (dir_add env name sector fs ≡ some (fs', true))
        × (lookup name fs'.entries
            ≡ some (
              record { inode_sector = sector; name = name; in_use = true },
              free_slot 0 fs.entries,
            ))
        × ((other : List ℕ)
            → same_name other name ≡ false
            → lookup other fs'.entries ≡ lookup other fs.entries)
        × (fs'.dir_lock ≡ false)
  unfolding dir_add
  dir_add-Added valid new ok room = (
    record fs { entries = filled 0 x fs.entries; dir_lock = false },
    rw (free, valid, added) refl,
    lookup-filled x refl 0 fs.entries new (omega (arith, room)),
    lookup-other x 0 fs.entries,
    refl,
  )
    where
      x : DirEntry
      x = record { inode_sector = sector; name = name; in_use = true }

      fits : strlcpy name (name_max + 1) ≡ name
      fits = unfold strlcpy in take_all 14 name (ground (arith, valid))

      first : free_slot 0 fs.entries - 0 ≡ free_slot 0 fs.entries
      first = omega arith

      added :
          add_entry env name sector (lookup name fs.entries) fs.entries
          ≡ (filled 0 x fs.entries, true)
      added =
          unfold add_entry write_entry in
          rw (new, fits, ok, lt→ltb (free_slot 0 fs.entries) (length fs.entries) room, first) refl
