-- ===== src/InodeTable/OpenClose.antt =====
-- inode_open, inode_close and inode_remove on the table of open inodes.
use pintos_nightmare.Base.{
  ◌==◌, Option-cases, ℕ, ◌<◌, ◌≡◌, refl, ap, inl, inr, true, false, none, some, List, ◌∷◌, arith,
}
use pintos_nightmare.InodeTable.{
  OpenInode, FileSys, Env, find, drop_inode, more_open, inode_reopen, open_found, inode_open,
  inode_close, opened, give_back, release_filesys,
}
use pintos_nightmare.InodeTable.Laws.{IsTable, change_back, find-change, open_of_find}

same : (s : ℕ) → (s == s) ≡ true
same s = ground arith

unlocked :
    (fs : FileSys) (is : List OpenInode)
    → fs.filesys_lock ≡ false
    → is ≡ fs.open_inodes
    → release_filesys (record fs { open_inodes = is }) ≡ fs
unlocked fs is h e = ground arith

module _ (env : Env) (s : ℕ) (fs : FileSys) (free : fs.filesys_lock ≡ false) where
  pub open-found :
      {i : OpenInode}
      → find s fs.open_inodes ≡ some i
      → inode_open env s fs ≡ some (release_filesys (inode_reopen s fs), true)
  unfolding inode_open open_found inode_reopen
  open-found e = rw (free, e) refl

  open-new :
      find s fs.open_inodes ≡ none
      → env.inode_ok ≡ true
      → inode_open env s fs
        ≡ some
            (release_filesys (record fs { open_inodes = opened fs.disk s ∷ fs.open_inodes }), true)
  unfolding inode_open open_found
  open-new e ok = rw (free, e, ok) refl

  -- When the inode is not open yet and its memory cannot be had, inode_open returns NULL with the
  -- file system's lock still held, and whatever inode the thread opens next, it panics.
  pub inode_open_keeps_lock :
      find s fs.open_inodes ≡ none
      → env.inode_ok ≡ false
      → (fs' : FileSys) × (inode_open env s fs ≡ some (fs', false))
        × (fs'.filesys_lock ≡ true)
        × ((env' : Env) (t : ℕ) → inode_open env' t fs' ≡ none)
  unfolding inode_open open_found
  inode_open_keeps_lock e fail =
      (record fs { filesys_lock = true }, rw (free, e, fail) refl, refl, λ env' t. refl)

  more_than_one : (i : OpenInode) → 0 < i.open_cnt → ((more_open i).open_cnt == 1) ≡ false
  more_than_one i h = ground arith

  -- Closing an inode that was just opened undoes the opening, whether or not it was open before:
  -- the table, the free map and the locks are as they were.
  pub inode_close-open :
      IsTable fs.open_inodes
      → env.inode_ok ≡ true
      → (fs' : FileSys) × (inode_open env s fs ≡ some (fs', true)) × (inode_close s fs' ≡ some fs)
  unfolding inode_close inode_reopen
  inode_close-open v ok = elim (Option-cases (find s fs.open_inodes)) [
    | inr (i, e) ↦ (_, open-found e, reopened i e)
    | inl e ↦ (_, open-new e ok, fresh)
  ]
    where
      reopened :
          (i : OpenInode)
          → find s fs.open_inodes ≡ some i
          → inode_close s (release_filesys (inode_reopen s fs)) ≡ some fs
      reopened i e =
          rw
            (
              find-change s fs.open_inodes e,
              more_than_one i (open_of_find s fs.open_inodes v.used e),
            )
            (ap some (unlocked fs _ free (change_back s fs.open_inodes)))

      found_new : find s (opened fs.disk s ∷ fs.open_inodes) ≡ some (opened fs.disk s)
      found_new = unfold find in rw (same s)

      dropped : drop_inode s (opened fs.disk s ∷ fs.open_inodes) ≡ fs.open_inodes
      dropped = unfold drop_inode in rw (same s)

      kept : give_back (opened fs.disk s) fs.free_map ≡ some fs.free_map
      kept = unfold give_back in refl

      fresh :
          inode_close s
            (release_filesys (record fs { open_inodes = opened fs.disk s ∷ fs.open_inodes }))
          ≡ some fs
      fresh = rw (found_new, kept, dropped) (ap some (unlocked fs _ free refl))
