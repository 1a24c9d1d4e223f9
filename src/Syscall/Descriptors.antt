-- ===== src/Syscall/Descriptors.antt =====
-- The descriptors of a process: each names one open file, and no number is given out twice.
use pintos_nightmare.Base.{
  ltb, ◌==◌, if◌then◌else◌, lt→leb_false, Bool-cases, has, Distinct, has-append,
  Distinct-append_one, ◌>>=◌, ℕ, ◌+◌, ◌≤◌, ◌<◌, ◌≡◌, refl, sym, ap, ◌∙◌, subst, ◌≢◌, inl, inr, true,
  false, Option, none, some, some-injective, List, [], ◌∷◌, ◌++◌, arith,
}
use pintos_nightmare.InodeTable.{FileSys, Env, inode_close}
use pintos_nightmare.Directory.{filesys_open}
use pintos_nightmare.Syscall.{
  File, FileDescriptor, Files, max_fds, bad_fd, find_fd, get_file, drop_fd, open_as, open_file,
  close_found, close_file, set_pos, seek_in, seek,
}

abbrev pub fds : List FileDescriptor → List ℕ
fds [] = []
fds (d ∷ ds) = d.fd ∷ fds ds

-- The numbers below `next_fd` are given out, each to one descriptor at most.
pub record IsFiles (p : Files) : Type 0 where
  pub distinct : Distinct (fds p.file_descriptors)
  pub given : (fd : ℕ) → has fd (fds p.file_descriptors) ≡ true → (2 ≤ fd) × (fd < p.next_fd)
  pub low : 2 ≤ p.next_fd
  pub high : p.next_fd ≤ max_fds

find_fd-none : (fd : ℕ) (ds : List FileDescriptor) → has fd (fds ds) ≡ false → find_fd fd ds ≡ none
unfolding find_fd
find_fd-none fd [] h = refl
find_fd-none fd (d ∷ ds) h = ground (arith, find_fd-none fd ds)

has-find_fd :
    (fd : ℕ) (ds : List FileDescriptor) (f : File) → find_fd fd ds ≡ some f → has fd (fds ds) ≡ true
unfolding find_fd
has-find_fd fd [] f h = cc
has-find_fd fd (d ∷ ds) f h = elim (Bool-cases (d.fd == fd)) [
  | inl e ↦ ground (arith, e)
  | inr e ↦ ground (arith, has-find_fd fd ds f (rw e at h))
]

find_fd-append :
    (fd : ℕ) (ds : List FileDescriptor) (d : FileDescriptor)
    → (d.fd == fd) ≡ false
    → find_fd fd (ds ++ d ∷ []) ≡ find_fd fd ds
unfolding find_fd
find_fd-append fd [] d h = rw h refl
find_fd-append fd (e ∷ ds) d h =
    ap (λ r. if e.fd == fd then some e.file else r) (find_fd-append fd ds d h)

find_fd-append_new :
    (ds : List FileDescriptor) (d : FileDescriptor)
    → has d.fd (fds ds) ≡ false
    → find_fd d.fd (ds ++ d ∷ []) ≡ some d.file
unfolding find_fd
find_fd-append_new [] d h = ground arith
find_fd-append_new (e ∷ ds) d h = ground (arith, find_fd-append_new ds d)

find_fd-drop_other :
    (fd other : ℕ) (ds : List FileDescriptor)
    → fd ≢ other
    → find_fd other (drop_fd fd ds) ≡ find_fd other ds
unfolding find_fd drop_fd
find_fd-drop_other fd other [] h = refl
find_fd-drop_other fd other (d ∷ ds) h = elim (Bool-cases (d.fd == fd)) [
  | inl e ↦ rw (e, differ e) refl
  | inr e ↦
      rw e (ap (λ r. if d.fd == other then some d.file else r) (find_fd-drop_other fd other ds h))
]
  where
    differ : (d.fd == fd) ≡ true → (d.fd == other) ≡ false
    differ e = ground (arith, e, h)

find_fd-drop :
    (fd : ℕ) (ds : List FileDescriptor) → Distinct (fds ds) → find_fd fd (drop_fd fd ds) ≡ none
unfolding find_fd drop_fd
find_fd-drop fd [] n = refl
find_fd-drop fd (d ∷ ds) n = ground (arith, find_fd-drop fd ds n.1, find_fd-none fd ds)

fds-append :
    (ds : List FileDescriptor) (d : FileDescriptor) → fds (ds ++ d ∷ []) ≡ fds ds ++ d.fd ∷ []
fds-append [] d = refl
fds-append (e ∷ ds) d = ap (◌∷◌ e.fd) (fds-append ds d)

fds-set_pos : (fd pos : ℕ) (ds : List FileDescriptor) → fds (set_pos fd pos ds) ≡ fds ds
unfolding set_pos
fds-set_pos fd pos [] = refl
fds-set_pos fd pos (d ∷ ds) = elim (Bool-cases (d.fd == fd)) [
  | inl e ↦ rw e refl
  | inr e ↦ rw e (ap (◌∷◌ d.fd) (fds-set_pos fd pos ds))
]

has-drop_fd :
    (fd t : ℕ) (ds : List FileDescriptor)
    → has t (fds (drop_fd fd ds)) ≡ true
    → has t (fds ds) ≡ true
unfolding drop_fd
has-drop_fd fd t [] h = h
has-drop_fd fd t (d ∷ ds) h = ground (arith, has-drop_fd fd t ds)

Distinct-drop_fd :
    (fd : ℕ) (ds : List FileDescriptor) → Distinct (fds ds) → Distinct (fds (drop_fd fd ds))
unfolding drop_fd
Distinct-drop_fd fd [] n = n
Distinct-drop_fd fd (d ∷ ds) n = ground (arith, has-drop_fd fd d.fd ds, Distinct-drop_fd fd ds n.1)

module _ (inode : ℕ) (p : Files) (v : IsFiles p) (room : p.next_fd < max_fds) where
  new : has p.next_fd (fds p.file_descriptors) ≡ false
  new = ground (arith, v.given p.next_fd)

  added : FileDescriptor
  added = record { fd = p.next_fd; file = record { inode = inode; pos = 0 } }

  opened : Files
  opened = record { next_fd = p.next_fd + 1; file_descriptors = p.file_descriptors ++ added ∷ [] }

  numbers : fds opened.file_descriptors ≡ fds p.file_descriptors ++ p.next_fd ∷ []
  unfolding opened added
  numbers = fds-append p.file_descriptors added

  opened-IsFiles : IsFiles opened
  opened-IsFiles = record {
    distinct =
        subst Distinct (sym numbers)
          (Distinct-append_one (fds p.file_descriptors) p.next_fd v.distinct new);
    given = λ fd i.
        let i' : has fd (fds p.file_descriptors ++ p.next_fd ∷ []) ≡ true =
          subst (λ l. has fd l ≡ true) numbers i in
        unfold opened in
        ground (arith, v.given fd, has-append fd (fds p.file_descriptors) (p.next_fd ∷ []), v.low);
    low = unfold opened in omega (arith, v.low);
    high = unfold opened in omega (arith, room);
  }

  get_new : get_file p.next_fd opened ≡ some (record { inode = inode; pos = 0 })
  unfolding get_file opened added
  get_new = rw (valid, find_fd-append_new p.file_descriptors added new) refl
    where
      valid : bad_fd p.next_fd ≡ false
      valid = ground (arith, v.low)

  get_old : (fd : ℕ) → fd ≢ p.next_fd → get_file fd opened ≡ get_file fd p
  unfolding get_file opened added
  get_old fd h =
      ap (λ r. if bad_fd fd then none else r)
        (find_fd-append fd p.file_descriptors added (ground arith))

  -- After an open that found its file, the new descriptor names a file on that inode at position 0,
  -- the descriptors that were open before name the files that they named, and the process's
  -- descriptors are well formed.
  pub get_file-open_file :
      (env : Env) (name : List ℕ) (fs fs' : FileSys)
      → filesys_open env name fs ≡ some (fs', some inode)
      → (p' : Files) × (open_file env name p fs ≡ some (p', fs', some p.next_fd))
        × (get_file p.next_fd p' ≡ some (record { inode = inode; pos = 0 }))
        × ((fd : ℕ) → fd ≢ p.next_fd → get_file fd p' ≡ get_file fd p)
        × IsFiles p'
        × (p'.next_fd ≡ p.next_fd + 1)
  get_file-open_file env name fs fs' found =
      (opened, run, get_new, get_old, opened-IsFiles, unfold opened in refl)
    where
      run : open_file env name p fs ≡ some (opened, fs', some p.next_fd)
      run =
          unfold open_file open_as opened added in
          rw (lt→leb_false max_fds p.next_fd room, found) refl

-- What the calls of a process do to its descriptors: open, close and seek, on whatever the file
-- system then is.
pub data Call (p : Files) : Files → Type 0 where
  opens :
      {p' : Files} (env : Env) (name : List ℕ) (fs fs' : FileSys) (result : Option ℕ)
      → open_file env name p fs ≡ some (p', fs', result)
      → Call p p'
  closes :
      {p' : Files} (fd : ℕ) (fs fs' : FileSys) → close_file fd p fs ≡ some (p', fs') → Call p p'
  seeks :
      {p' : Files} (fd position : ℕ) (file_length : ℕ → ℕ)
      → seek fd position file_length p ≡ some p'
      → Call p p'

pub data Calls (p : Files) : Files → Type 0 where
  stop : Calls p p
  call : {q r : Files} → Calls p q → Call q r → Calls p r

open_full :
    (env : Env) (name : List ℕ) (p : Files) (fs : FileSys)
    → p.next_fd ≡ max_fds
    → open_file env name p fs ≡ some (p, fs, none)
unfolding open_file
open_full env name p fs h = ground (arith, h)

same_pair :
    {A B : Type 0} {x x' : A} {y y' : B}
    → ◌≡◌ {A = Option (A × B)} (some (x, y)) (some (x', y'))
    → x ≡ x'
same_pair e = ap (λ z. z.0) (some-injective _ _ e)

close_found-next_fd :
    (fd : ℕ) (o : Option File) (p p' : Files) (fs fs' : FileSys)
    → close_found fd o p fs ≡ some (p', fs')
    → p'.next_fd ≡ p.next_fd
unfolding close_found
close_found-next_fd fd none p p' fs fs' e = ap (λ (q : Files). q.next_fd) (sym (same_pair e))
close_found-next_fd fd (some f) p p' fs fs' e = by_inode (inode_close f.inode fs) e
  where
    finish : FileSys → Option (Files × FileSys)
    finish fs = some (record p { file_descriptors = drop_fd fd p.file_descriptors }, fs)

    by_inode : (o : Option FileSys) → (o >>= finish) ≡ some (p', fs') → p'.next_fd ≡ p.next_fd
    by_inode none h = cc
    by_inode (some g) h = ap (λ (q : Files). q.next_fd) (sym (same_pair h))

seek_in-next_fd :
    (fd position : ℕ) (file_length : ℕ → ℕ) (o : Option File) (p p' : Files)
    → seek_in fd position file_length o p ≡ some p'
    → p'.next_fd ≡ p.next_fd
unfolding seek_in
seek_in-next_fd fd position file_length none p p' e = cc
seek_in-next_fd fd position file_length (some f) p p' e =
    elim (Bool-cases (ltb (file_length f.inode) position)) [
      | inl t ↦ ap (λ (q : Files). q.next_fd) (sym (some-injective _ _ (rw t at e)))
      | inr t ↦ ap (λ (q : Files). q.next_fd) (sym (some-injective _ _ (rw t at e)))
    ]

Call-full : {p q : Files} → Call p q → p.next_fd ≡ max_fds → q.next_fd ≡ max_fds
Call-full {p} (opens env name fs fs' result run) full =
    ap (λ (z : Files × FileSys × Option ℕ). z.0.next_fd)
      (some-injective _ _ (sym run ∙ open_full env name p fs full))
    ∙ full
Call-full {p} {q} (closes fd fs fs' run) full =
    close_found-next_fd fd (get_file fd p) p q fs fs' (unfold close_file in run) ∙ full
Call-full {p} {q} (seeks fd position file_length run) full =
    seek_in-next_fd fd position file_length (get_file fd p) p q (unfold seek in run) ∙ full

Calls-full : {p q : Files} → Calls p q → p.next_fd ≡ max_fds → q.next_fd ≡ max_fds
Calls-full stop full = full
Calls-full (call c s) full = Call-full s (Calls-full c full)

-- A process that was given all its descriptors opens no further file, and the file system stays as it
-- is, whatever it has opened, closed and sought since: a descriptor that is closed is not given again.
pub open_file-full :
    {p q : Files} (env : Env) (name : List ℕ) (fs : FileSys)
    → p.next_fd ≡ max_fds
    → Calls p q
    → open_file env name q fs ≡ some (q, fs, none)
open_file-full {p} {q} env name fs full calls = open_full env name q fs (Calls-full calls full)

module _ (fd : ℕ) (f : File) (p : Files) (v : IsFiles p) (open_ : get_file fd p ≡ some f) where
  closed : Files
  closed = record p { file_descriptors = drop_fd fd p.file_descriptors }

  -- Closing an open descriptor closes its inode once, the descriptor then names no file, every
  -- other descriptor names what it named, and its number is not handed out again.
  pub get_file-close_file :
      (fs fs' : FileSys)
      → inode_close f.inode fs ≡ some fs'
      → (p' : Files) × (close_file fd p fs ≡ some (p', fs'))
        × (get_file fd p' ≡ none)
        × ((other : ℕ) → fd ≢ other → get_file other p' ≡ get_file other p)
        × IsFiles p'
        × (p'.next_fd ≡ p.next_fd)
  unfolding closed
  get_file-close_file fs fs' run = (
    closed,
    closes,
    gone,
    λ other h.
        unfold get_file in
        ap (λ r. if bad_fd other then none else r)
          (find_fd-drop_other fd other p.file_descriptors h),
    record {
      distinct = Distinct-drop_fd fd p.file_descriptors v.distinct;
      given = λ t i. v.given t (has-drop_fd fd t p.file_descriptors i);
      low = v.low;
      high = v.high;
    },
    refl,
  )
    where
      closes : close_file fd p fs ≡ some (closed, fs')
      closes = unfold close_file close_found in rw (open_, run) refl

      gone : get_file fd closed ≡ none
      gone = unfold get_file in rw (find_fd-drop fd p.file_descriptors v.distinct) (ground arith)
