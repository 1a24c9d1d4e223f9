-- ===== src/Directory/Remove.antt =====
-- What dir_remove does to a file that is open elsewhere.
use pintos_nightmare.Base.{
  ◌==◌, if◌then◌else◌, lt→ltb, Bool-cases, length, set, ℕ, suc, ◌+◌, ◌-◌, ◌≤◌, ◌<◌, ◌≡◌, refl, sym,
  ap, ◌∙◌, subst, inl, inr, Bool, true, false, ◌&&◌, none, some, some-injective, List, [], ◌∷◌,
  arith,
}
use pintos_nightmare.InodeTable.{
  OpenInode, DirEntry, FileSys, Env, find, change, more_open, less_open, mark_removed, inode_open,
  inode_remove, inode_close, inode_reopen, release_filesys,
}
use pintos_nightmare.InodeTable.Laws.{open_of_find, AllOpen}
use pintos_nightmare.InodeTable.OpenClose.{open-found}
use pintos_nightmare.Directory.{
  same_name, lookup_from, lookup, write_entry, erase, remove_found, dir_remove,
}

-- The slots after the entry in slot `slot` was freed
abbrev pub freed : ℕ → DirEntry → List DirEntry → List DirEntry
freed slot e es = set es slot (record e { in_use = false })

lookup_from-≥ :
    (k slot : ℕ) (name : List ℕ) (es : List DirEntry) (e : DirEntry)
    → lookup_from k name es ≡ some (e, slot)
    → (k ≤ slot) × (slot < k + length es)
unfolding lookup_from
lookup_from-≥ k slot name [] e h = cc
lookup_from-≥ k slot name (x ∷ es) e h = elim (Bool-cases (x.in_use && same_name name x.name)) [
  | inl hit ↦
      let same : k ≡ slot = ap (λ r. r.1) (some-injective _ _ (rw hit at h)) in omega (arith, same)
  | inr miss ↦
      let (lo, hi) = lookup_from-≥ (k + 1) slot name es e (rw miss at h) in omega (arith, lo, hi)
]

same_name_sound : (xs ys : List ℕ) → same_name xs ys ≡ true → xs ≡ ys
unfolding same_name
same_name_sound [] [] h = refl
same_name_sound [] (y ∷ ys) h = cc
same_name_sound (x ∷ xs) [] h = cc
same_name_sound (x ∷ xs) (y ∷ ys) h =
    let heads : x ≡ y = ground (arith, h) in
    let tails : same_name xs ys ≡ true = ground (arith, h) in
    cc (heads, same_name_sound xs ys tails)

-- The names in use are distinct.
abbrev pub IsUnique : List DirEntry → Type 0
IsUnique [] = Unit
IsUnique (e ∷ es) = (e.in_use ≡ true → (k : ℕ) → lookup_from k e.name es ≡ none) × IsUnique es

freed-zero :
    (k : ℕ) (e x : DirEntry) (es : List DirEntry)
    → freed (k - k) e (x ∷ es) ≡ record e { in_use = false } ∷ es
freed-zero k e x es = rw (zero_back k) refl
  where
    zero_back : (k : ℕ) → k - k ≡ 0
    zero_back k = omega arith

freed-suc :
    (k slot : ℕ) (e x : DirEntry) (es : List DirEntry)
    → k < slot
    → freed (slot - k) e (x ∷ es) ≡ x ∷ freed (slot - (k + 1)) e es
freed-suc k slot e x es h = ap (λ n. set (x ∷ es) n (record e { in_use = false })) (less h)
  where
    less : k < slot → slot - k ≡ suc (slot - (k + 1))
    less h = omega (arith, h)

module _ (name : List ℕ) (e : DirEntry) (slot : ℕ) where
  hit_slot :
      (k : ℕ) (x : DirEntry) (es : List DirEntry)
      → (x.in_use && same_name name x.name) ≡ true
      → lookup_from k name (x ∷ es) ≡ some (e, slot)
      → k ≡ slot
  unfolding lookup_from
  hit_slot k x es hit h = ap (λ r. r.1) (some-injective _ _ (rw hit at h))

  later :
      (k : ℕ) (x : DirEntry) (es : List DirEntry)
      → (x.in_use && same_name name x.name) ≡ false
      → lookup_from k name (x ∷ es) ≡ some (e, slot)
      → k < slot
  unfolding lookup_from
  later k x es miss h =
      let (lo, hi) = lookup_from-≥ (k + 1) slot name es e (rw miss at h) in omega (arith, lo)

  freed-here :
      (k : ℕ) (x : DirEntry) (es : List DirEntry)
      → k ≡ slot
      → freed (slot - k) e (x ∷ es) ≡ record e { in_use = false } ∷ es
  freed-here k x es same = ap (λ n. freed (n - k) e (x ∷ es)) (sym same) ∙ freed-zero k e x es

  not_hit : {A : Type 0} (b : Bool) (x y : A) → y ≡ (if b && false then x else y)
  not_hit true x y = refl
  not_hit false x y = refl

  lookup-freed :
      (k : ℕ) (es : List DirEntry)
      → IsUnique es
      → lookup_from k name es ≡ some (e, slot)
      → lookup_from k name (freed (slot - k) e es) ≡ none
  unfolding lookup_from
  lookup-freed k [] u h = cc
  lookup-freed k (x ∷ es) u h = elim (Bool-cases (x.in_use && same_name name x.name)) [
    | inl hit ↦
        subst (λ l. lookup_from k name l ≡ none) (sym (freed-here k x es (hit_slot k x es hit h)))
          (subst (λ n. lookup_from (k + 1) n es ≡ none)
            (sym (same_name_sound name x.name (ground (arith, hit))))
            (u.0 (ground (arith, hit)) (k + 1)))
    | inr miss ↦
        subst (λ l. lookup_from k name l ≡ none)
          (sym (freed-suc k slot e x es (later k x es miss h)))
          (rw miss (lookup-freed (k + 1) es u.1 (rw miss at h)))
  ]

  lookup_other-freed :
      (k : ℕ) (es : List DirEntry) (other : List ℕ)
      → same_name other name ≡ false
      → lookup_from k name es ≡ some (e, slot)
      → lookup_from k other (freed (slot - k) e es) ≡ lookup_from k other es
  unfolding lookup_from
  lookup_other-freed k [] other d h = cc
  lookup_other-freed k (x ∷ es) other d h = elim (Bool-cases (x.in_use && same_name name x.name)) [
    | inl hit ↦
        subst (λ l. lookup_from k other l ≡ lookup_from k other (x ∷ es))
          (sym (freed-here k x es (hit_slot k x es hit h)))
          (rw
            (subst (λ n. same_name other n ≡ false)
              (same_name_sound name x.name (ground (arith, hit))) d)
            (not_hit (x.in_use) _ _))
    | inr miss ↦
        subst (λ l. lookup_from k other l ≡ lookup_from k other (x ∷ es))
          (sym (freed-suc k slot e x es (later k x es miss h)))
          (ap (λ r. if x.in_use && same_name other x.name then some (x, k) else r)
            (lookup_other-freed (k + 1) es other d (rw miss at h)))
  ]

find-changed :
    (f : OpenInode → OpenInode) (s : ℕ) (is : List OpenInode) {i : OpenInode}
    → ((j : OpenInode) → (f j).sector ≡ j.sector)
    → find s is ≡ some i
    → find s (change f s is) ≡ some (f i)
unfolding find change
find-changed f s [] keep h = cc
find-changed f s (j ∷ is) keep h = elim (Bool-cases (j.sector == s)) [
  | inl same ↦
      rw (same, ap (λ n. n == s) (keep j), same)
        (ap (λ o. some (f o)) (some-injective _ _ (rw same at h)))
  | inr other ↦ rw (other, other) (find-changed f s is keep (rw other at h))
]

module _ (env : Env) (name : List ℕ) (e : DirEntry) (slot : ℕ) (fs : FileSys) (i : OpenInode)
    (no_dir_lock : fs.dir_lock ≡ false) (no_lock : fs.filesys_lock ≡ false)
    (writable : env.entry_ok ≡ true) (used : AllOpen fs.open_inodes) (unique : IsUnique fs.entries)
    (named : lookup name fs.entries ≡ some (e, slot))
    (open_ : find e.inode_sector fs.open_inodes ≡ some i) where
  held : FileSys
  held = record fs { dir_lock = true }

  left : List DirEntry
  left = set fs.entries slot (record e { in_use = false })

  inodes₁ : List OpenInode
  inodes₁ = change more_open e.inode_sector fs.open_inodes

  inodes₂ : List OpenInode
  inodes₂ = change mark_removed e.inode_sector inodes₁

  inodes₃ : List OpenInode
  inodes₃ = change less_open e.inode_sector inodes₂

  found₂ : find e.inode_sector inodes₂ ≡ some (mark_removed (more_open i))
  unfolding inodes₂ inodes₁
  found₂ =
      find-changed mark_removed e.inode_sector _ (λ j. refl)
        (find-changed more_open e.inode_sector fs.open_inodes (λ j. refl) open_)

  found₃ : find e.inode_sector inodes₃ ≡ some (record i { removed = true })
  unfolding inodes₃
  found₃ =
      find-changed less_open e.inode_sector inodes₂ (λ j. refl) found₂
      ∙ ap (λ n. some (record i { removed = true; open_cnt = n })) (omega arith)

  written : write_entry env slot (record e { in_use = false }) fs.entries ≡ (left, true)
  unfolding write_entry left
  written = rw (writable, lt→ltb slot (length fs.entries) room) refl
    where
      room : slot < length fs.entries
      room = let (lo, hi) = lookup_from-≥ 0 slot name fs.entries e named in omega (arith, hi)

  closes :
      inode_close e.inode_sector
        (record held { entries = left; open_inodes = inodes₂; filesys_lock = false })
      ≡ some (record held { entries = left; open_inodes = inodes₃; filesys_lock = false })
  unfolding inode_close inodes₃
  closes = rw (found₂, more_than_one) refl
    where
      more_than_one : ((i.open_cnt + 1) == 1) ≡ false
      more_than_one = ground (arith, open_of_find e.inode_sector fs.open_inodes used open_)

  erases :
      erase env e slot true (release_filesys (inode_reopen e.inode_sector held))
      ≡ some (record held { entries = left; open_inodes = inodes₃; filesys_lock = false }, true)
  unfolding erase inode_remove inode_reopen held inodes₁ inodes₂
  erases = rw (written, closes) refl

  opens :
      inode_open env e.inode_sector held
      ≡ some (release_filesys (inode_reopen e.inode_sector held), true)
  unfolding held
  opens = open-found env e.inode_sector (record fs { dir_lock = true }) no_lock open_

  removes :
      remove_found env (lookup name fs.entries) held
      ≡ some (record held { entries = left; open_inodes = inodes₃; filesys_lock = false }, true)
  unfolding remove_found
  removes = rw (named, opens, erases) refl

  run :
      dir_remove env name fs
      ≡ some (
        record fs { entries = left; open_inodes = inodes₃; filesys_lock = false; dir_lock = false },
        true,
      )
  unfolding dir_remove held
  run = rw (no_dir_lock, removes) refl

  -- Removing the name of a file that some other opener has open: the name is gone, every other name
  -- stands for what it stood for, and the file itself stays: its inode is open as often as before,
  -- marked as removed, and no sector is given back. Both locks are free again.
  pub dir_remove-open :
      (fs' : FileSys) × (dir_remove env name fs ≡ some (fs', true))
      × (lookup name fs'.entries ≡ none)
      × ((other : List ℕ)
          → same_name other name ≡ false
          → lookup other fs'.entries ≡ lookup other fs.entries)
      × (find e.inode_sector fs'.open_inodes ≡ some (record i { removed = true }))
      × (fs'.free_map ≡ fs.free_map)
      × (fs'.disk ≡ fs.disk)
      × (fs'.filesys_lock ≡ false)
      × (fs'.dir_lock ≡ false)
  unfolding left
  dir_remove-open = (
    record fs { entries = left; open_inodes = inodes₃; filesys_lock = false; dir_lock = false },
    run,
    subst (λ n. lookup name (freed n e fs.entries) ≡ none) (omega arith)
        (lookup-freed name e slot 0 fs.entries unique named),
    λ other d.
        subst (λ n. lookup other (freed n e fs.entries) ≡ lookup other fs.entries) (omega arith)
          (lookup_other-freed name e slot 0 fs.entries other d named),
    found₃,
    refl,
    refl,
    refl,
    refl,
  )
