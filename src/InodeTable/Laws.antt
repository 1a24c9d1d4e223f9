-- ===== src/InodeTable/Laws.antt =====
-- The table of open inodes: a sector is open once at most, opening and closing cancel out, and
-- inodes survive the device.
use pintos_nightmare.Base.{
  ◌==◌, Bool-cases, has, Distinct, ℕ, ◌^◌, ◌<◌, ◌≡◌, refl, sym, ap, subst, inl, inr, true, false,
  none, some, some-injective, List, [], ◌∷◌, arith,
}
use pintos_nightmare.Inode.{InodeDisk}
use pintos_nightmare.InodeTable.{
  OpenInode, sector_of, inode_of, find, change, drop_inode, more_open, less_open,
}

-- An inode that is written to its sector is read back as it was.
pub inode_of-sector_of :
    (inode : InodeDisk)
    → inode.start < 2 ^ 32
    → inode.length < 2 ^ 32
    → inode_of (sector_of inode) ≡ inode
unfolding inode_of sector_of
inode_of-sector_of inode hs hl = ground arith

abbrev pub sectors : List OpenInode → List ℕ
sectors [] = []
sectors (i ∷ is) = i.sector ∷ sectors is

abbrev pub AllOpen : List OpenInode → Type 0
AllOpen [] = Unit
AllOpen (i ∷ is) = (0 < i.open_cnt) × AllOpen is

-- Every sector is open once at most, and every inode of the table has an opener.
pub record IsTable (is : List OpenInode) : Type 0 where
  pub distinct : Distinct (sectors is)
  pub used : AllOpen is

pub find-none : (s : ℕ) (is : List OpenInode) → has s (sectors is) ≡ false → find s is ≡ none
unfolding find
find-none s [] h = refl
find-none s (i ∷ is) h = ground (arith, find-none s is)

pub has_of_find : (s : ℕ) (is : List OpenInode) → find s is ≡ none → has s (sectors is) ≡ false
unfolding find
has_of_find s [] h = refl
has_of_find s (i ∷ is) h = ground (arith, has_of_find s is)

pub sectors-change :
    (f : OpenInode → OpenInode) (s : ℕ) (is : List OpenInode)
    → ((i : OpenInode) → (f i).sector ≡ i.sector)
    → sectors (change f s is) ≡ sectors is
unfolding change
sectors-change f s [] keep = refl
sectors-change f s (i ∷ is) keep = elim (Bool-cases (i.sector == s)) [
  | inl e ↦ rw e (ap (λ t. t ∷ sectors is) (keep i))
  | inr e ↦ rw e (ap (◌∷◌ i.sector) (sectors-change f s is keep))
]

AllOpen-change :
    (f : OpenInode → OpenInode) (s : ℕ) (is : List OpenInode)
    → ((i : OpenInode) → find s is ≡ some i → 0 < i.open_cnt → 0 < (f i).open_cnt)
    → AllOpen is
    → AllOpen (change f s is)
unfolding change find
AllOpen-change f s [] keep u = tt
AllOpen-change f s (i ∷ is) keep u = elim (Bool-cases (i.sector == s)) [
  | inl e ↦ rw e (keep i (rw e refl) u.0, u.1)
  | inr e ↦ rw e (u.0, AllOpen-change f s is (λ j g. keep j (rw e g)) u.1)
]

has-drop_inode :
    (s t : ℕ) (is : List OpenInode)
    → has t (sectors (drop_inode s is)) ≡ true
    → has t (sectors is) ≡ true
unfolding drop_inode
has-drop_inode s t [] h = h
has-drop_inode s t (i ∷ is) h = ground (arith, has-drop_inode s t is)

pub IsTable-drop_inode : (s : ℕ) (is : List OpenInode) → IsTable is → IsTable (drop_inode s is)
unfolding drop_inode
IsTable-drop_inode s [] v = v
IsTable-drop_inode s (i ∷ is) v =
    let rest : IsTable is = record { distinct = v.distinct.1; used = v.used.1 } in
    let w = IsTable-drop_inode s is rest in
    elim (Bool-cases (i.sector == s)) [
      | inl e ↦ rw e rest
      | inr e ↦ rw e (record {
        distinct = (ground (arith, v.distinct.0, has-drop_inode s i.sector is), w.distinct);
        used = (v.used.0, w.used);
      })
    ]

pub IsTable-change :
    (f : OpenInode → OpenInode) (s : ℕ) (is : List OpenInode)
    → ((i : OpenInode) → (f i).sector ≡ i.sector)
    → ((i : OpenInode) → find s is ≡ some i → 0 < i.open_cnt → 0 < (f i).open_cnt)
    → IsTable is
    → IsTable (change f s is)
IsTable-change f s is keep pos v = record {
  distinct = subst Distinct (sym (sectors-change f s is keep)) v.distinct;
  used = AllOpen-change f s is pos v.used;
}

pub change_back : (s : ℕ) (is : List OpenInode) → change less_open s (change more_open s is) ≡ is
unfolding change
change_back s [] = refl
change_back s (i ∷ is) = elim (Bool-cases (i.sector == s)) [
  | inl e ↦ rw (e, e) (ap (λ n. record i { open_cnt = n } ∷ is) (omega arith))
  | inr e ↦ rw (e, e) (ap (◌∷◌ i) (change_back s is))
]

pub find-change :
    (s : ℕ) (is : List OpenInode) {i : OpenInode}
    → find s is ≡ some i
    → find s (change more_open s is) ≡ some (more_open i)
unfolding change find
find-change s [] h = cc
find-change s (i ∷ is) h = elim (Bool-cases (i.sector == s)) [
  | inl e ↦ rw (e, e) (ap (λ o. some (more_open o)) (some-injective _ _ (rw e at h)))
  | inr e ↦ rw (e, e) (find-change s is (rw e at h))
]

pub open_of_find :
    (s : ℕ) (is : List OpenInode) {i : OpenInode} → AllOpen is → find s is ≡ some i → 0 < i.open_cnt
unfolding find
open_of_find s [] u h = cc
open_of_find s (i ∷ is) u h = elim (Bool-cases (i.sector == s)) [
  | inl e ↦ let same = some-injective _ _ (rw e at h) in subst (λ j. 0 < j.open_cnt) same u.0
  | inr e ↦ open_of_find s is u.1 (rw e at h)
]
