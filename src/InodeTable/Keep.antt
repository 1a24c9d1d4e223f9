-- ===== src/InodeTable/Keep.antt =====
-- Every operation on the table of open inodes keeps it well formed.
use pintos_nightmare.Base.{
  ◌==◌, Bool-cases, Option-cases, >>=-eq-some, ℕ, ◌≡◌, refl, sym, ap, ◌∙◌, subst, inl, inr, Bool,
  false, none, some, some-injective, List, ◌∷◌, arith,
}
use pintos_nightmare.InodeTable.{
  OpenInode, FileSys, Env, find, change, drop_inode, more_open, less_open, mark_removed,
  inode_reopen, open_found, inode_open, inode_close, inode_remove, opened, give_back,
  release_filesys,
}
use pintos_nightmare.InodeTable.Laws.{IsTable, has_of_find, IsTable-drop_inode, IsTable-change}

-- The operations, by their run.
pub data Touch (fs fs' : FileSys) : Type 0 where
  opening : (env : Env) (s : ℕ) (ok : Bool) → inode_open env s fs ≡ some (fs', ok) → Touch fs fs'
  reopening : (s : ℕ) → inode_reopen s fs ≡ fs' → Touch fs fs'
  closing : (s : ℕ) → inode_close s fs ≡ some fs' → Touch fs fs'
  removing : (s : ℕ) → inode_remove s fs ≡ some fs' → Touch fs fs'

abbrev Good : FileSys → Type 0
Good fs = IsTable fs.open_inodes

reopened : (s : ℕ) (is : List OpenInode) → IsTable is → IsTable (change more_open s is)
reopened s is = IsTable-change more_open s is (λ i. refl) (λ i e h. omega arith)

marked : (s : ℕ) (is : List OpenInode) → IsTable is → IsTable (change mark_removed s is)
marked s is = IsTable-change mark_removed s is (λ i. refl) (λ i e h. h)

closed :
    (s : ℕ) (is : List OpenInode) (i : OpenInode)
    → find s is ≡ some i
    → (i.open_cnt == 1) ≡ false
    → IsTable is
    → IsTable (change less_open s is)
closed s is i e one =
    IsTable-change less_open s is (λ j. refl)
      (λ j e' h.
        let same = some-injective _ _ (sym e ∙ e') in
        ground (arith, subst (λ k. (k.open_cnt == 1) ≡ false) same one))

added :
    (fs : FileSys) (s : ℕ)
    → find s fs.open_inodes ≡ none
    → Good fs
    → IsTable (opened fs.disk s ∷ fs.open_inodes)
added fs s e v = record {
  distinct = (has_of_find s fs.open_inodes e, v.distinct);
  used = (omega arith, v.used);
}

open-Good :
    (env : Env) (s : ℕ) (fs fs' : FileSys) (ok : Bool)
    → inode_open env s fs ≡ some (fs', ok)
    → Good fs
    → Good fs'
unfolding inode_open open_found inode_reopen
open-Good env s fs fs' ok run v = elim (Bool-cases fs.filesys_lock) [
  | inl held ↦ cc (rw held at run)
  | inr free ↦ elim (Option-cases (find s fs.open_inodes)) [
    | inr (i, e) ↦
        subst Good (ap (λ r. r.0) (some-injective _ _ (rw (free, e) at run)))
          (reopened s fs.open_inodes v)
    | inl e ↦ elim (Bool-cases env.inode_ok) [
      | inl good ↦
          subst Good (ap (λ r. r.0) (some-injective _ _ (rw (free, e, good) at run)))
            (added fs s e v)
      | inr bad ↦ subst Good (ap (λ r. r.0) (some-injective _ _ (rw (free, e, bad) at run))) v
    ]
  ]
]

close-Good : (s : ℕ) (fs fs' : FileSys) → inode_close s fs ≡ some fs' → Good fs → Good fs'
unfolding inode_close
close-Good s fs fs' run v = elim (Bool-cases fs.filesys_lock) [
  | inl held ↦ cc (rw held at run)
  | inr free ↦ elim (Option-cases (find s fs.open_inodes)) [
    | inl e ↦ cc (rw (free, e) at run)
    | inr (i, e) ↦ elim (Bool-cases (i.open_cnt == 1)) [
      | inl last ↦
          let (m, given, rest) =
            >>=-eq-some (give_back i fs.free_map)
              (λ m. some (
                release_filesys
                  (record fs { free_map = m; open_inodes = drop_inode s fs.open_inodes })))
              (rw (free, e, last) at run) in
          subst Good (some-injective _ _ rest) (IsTable-drop_inode s fs.open_inodes v)
      | inr more ↦
          subst Good (some-injective _ _ (rw (free, e, more) at run))
            (closed s fs.open_inodes i e more v)
    ]
  ]
]

-- No operation opens a sector twice or leaves an inode without an opener in the table: the table stays well formed.
pub Touch-IsTable :
    (fs fs' : FileSys) → Touch fs fs' → IsTable fs.open_inodes → IsTable fs'.open_inodes
unfolding inode_reopen inode_remove
Touch-IsTable fs fs' (opening env s ok run) v = open-Good env s fs fs' ok run v
Touch-IsTable fs fs' (reopening s run) v = subst Good run (reopened s fs.open_inodes v)
Touch-IsTable fs fs' (closing s run) v = close-Good s fs fs' run v
Touch-IsTable fs fs' (removing s run) v = elim (Bool-cases fs.filesys_lock) [
  | inl held ↦ cc (rw held at run)
  | inr free ↦ subst Good (some-injective _ _ (rw free at run)) (marked s fs.open_inodes v)
]
