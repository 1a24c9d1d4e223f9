-- ===== src/Load/Headers.antt =====
-- What `load` maps: the pages of every executable, however it is made.
use pintos_nightmare.Base.{
  ltb, leb, Bool-cases, ℕ, zero, suc, ◌+◌, ◌*◌, ◌%◌, ◌^◌, ◌≤◌, ◌<◌, ◌≡◌, refl, ap, ◌∙◌, subst, ◌≢◌,
  inl, inr, Bool, true, false, ◌||◌, Option, none, some, List, [], ◌∷◌, ◌++◌, arith,
}
use pintos_nightmare.Vaddr.{pgsize, phys_base}
use pintos_nightmare.Segment.{Elf32Phdr, Page, validate_segment, region, load_segment}
use pintos_nightmare.Segment.Laws.{
  IsPhdr, plan, install, whole, page_count, load_segment-validate_segment,
}
use pintos_nightmare.Load.{
  Elf32Ehdr, phdr_size, Action, action, and_then, load_phdr, load_read, load_phdrs, finish,
  load_file, load, is_executable,
}

-- Pages between page 0 and PHYS_BASE
abbrev pub AllUser : List Page → Type 0
AllUser [] = Unit
AllUser (p ∷ ps) = (pgsize ≤ p.at) × (p.at + pgsize ≤ phys_base) × AllUser ps

AllUser-append : (ps qs : List Page) → AllUser ps → AllUser qs → AllUser (ps ++ qs)
AllUser-append [] qs h g = g
AllUser-append (p ∷ ps) qs (l, u, h) g = (l, u, AllUser-append ps qs h g)

plan-AllUser :
    (n : ℕ) (w : Bool) (pos at read : ℕ)
    → pgsize ≤ at
    → at + n * pgsize ≤ phys_base
    → AllUser (plan n w pos at read)
unfolding plan
plan-AllUser zero w pos at read l u = tt
plan-AllUser (suc n) w pos at read l u =
    (l, omega (arith, u), plan-AllUser n w _ (at + pgsize) _ (omega (arith, l)) (omega (arith, u)))

install-AllUser : (ok : ℕ → Bool) (ps : List Page) → AllUser ps → AllUser (install ok ps).0
unfolding install
install-AllUser ok [] h = tt
install-AllUser ok (p ∷ ps) (l, u, h) = elim (Bool-cases (ok p.at)) [
  | inl e ↦ rw e (l, u, install-AllUser ok ps h)
  | inr e ↦ rw e tt
]

-- A header that does not stop the loop: one that is skipped, or a segment that validate_segment
-- passes
pub record IsAccepted (file_length : ℕ) (h : Elf32Phdr) : Type 0 where
  pub known : action h.p_type ≢ Action.refuse
  pub valid : action h.p_type ≡ Action.map_in → validate_segment h file_length ≡ true

module _ (read : ℕ → Option Elf32Phdr) (ok : ℕ → ℕ → Bool) (file_length : ℕ)
    (words : (o : ℕ) (h : Elf32Phdr) → read o ≡ some h → IsPhdr h) where
  -- The loop ends without a failed ASSERT, with pages in user space; and if it accepts the headers,
  -- each is in the file and accepted.
  pub record Mapped (n i file_ofs : ℕ) (r : Option (List Page × Bool)) : Type 0 where
    pub pages : List Page
    pub all : Bool
    pub ends : r ≡ some (pages, all)
    pub user : AllUser pages
    pub accepted :
        all ≡ true
        → (j : ℕ) → j < n
        → (h : Elf32Phdr) × (read ((file_ofs + j * phdr_size) % 2 ^ 32) ≡ some h)
          × IsAccepted file_length h

  stopped : (n i file_ofs : ℕ) → Mapped n i file_ofs (some ([], false))
  stopped n i file_ofs = record {
    pages = [];
    all = false;
    ends = refl;
    user = tt;
    accepted = λ e. cc;
  }

  segment_user :
      (h : Elf32Phdr) (okay : ℕ → Bool)
      → IsPhdr h
      → validate_segment h file_length ≡ true
      → (r : List Page × Bool) × (load_segment okay (region h) ≡ some r) × AllUser r.0
  segment_user h okay w v =
      let (e, u) = load_segment-validate_segment h file_length w v okay in
      (
        _,
        e,
        install-AllUser okay _ (
            plan-AllUser (page_count h) _ _ _ _ u.above_page_0 (
              subst (λ (n : ℕ). (region h).upage + n ≤ phys_base) (whole h file_length w v)
                u.below)),
      )

  module _ (n i file_ofs : ℕ) (low : file_ofs < 2 ^ 31) (rest : Option (List Page × Bool))
      (m : Mapped n (i + 1) ((file_ofs + phdr_size) % 2 ^ 32) rest) where
    -- The headers after an accepted one
    onward :
        (h : Elf32Phdr)
        → read file_ofs ≡ some h
        → IsAccepted file_length h
        → m.all ≡ true
        → (j : ℕ) → j < suc n
        → (h : Elf32Phdr) × (read ((file_ofs + j * phdr_size) % 2 ^ 32) ≡ some h)
          × IsAccepted file_length h
    onward h e a all zero l = (h, ap read (omega (arith, low)) ∙ e, a)
    onward h e a all (suc j) l =
        let (h', e', a') = m.accepted all j (omega (arith, l)) in
        (h', ap read (omega arith) ∙ e', a')

    mapped :
        (h : Elf32Phdr)
        → read file_ofs ≡ some h
        → IsAccepted file_length h
        → (r : List Page × Bool) → AllUser r.0
        → Mapped (suc n) i file_ofs (and_then (some r) rest)
    mapped h e a (ps, true) u = record {
      pages = ps ++ m.pages;
      all = m.all;
      ends = rw m.ends refl;
      user = AllUser-append ps m.pages u m.user;
      accepted = onward h e a;
    }
    mapped h e a (ps, false) u = record {
      pages = ps;
      all = false;
      ends = refl;
      user = u;
      accepted = λ e. cc;
    }

    phdr_step :
        (h : Elf32Phdr) (act : Action)
        → read file_ofs ≡ some h
        → action h.p_type ≡ act
        → Mapped (suc n) i file_ofs (load_phdr (ok i) file_length h act rest)
    unfolding load_phdr
    phdr_step h Action.skip e k = record {
      pages = m.pages;
      all = m.all;
      ends = m.ends;
      user = m.user;
      accepted = onward h e record { known = λ r. cc; valid = λ r. cc };
    }
    phdr_step h Action.refuse e k = stopped (suc n) i file_ofs
    phdr_step h Action.map_in e k = elim (Bool-cases (validate_segment h file_length)) [
      | inr f ↦ rw f (stopped (suc n) i file_ofs)
      | inl v ↦
          let (r, f, u) = segment_user h (ok i) (words file_ofs h e) v in
          rw (v, f) (mapped h e record { known = λ r. cc; valid = λ r. v } r u)
    ]

    read_step :
        (o : Option Elf32Phdr)
        → read file_ofs ≡ o
        → Mapped (suc n) i file_ofs (load_read (ok i) file_length o rest)
    unfolding load_read
    read_step none e = stopped (suc n) i file_ofs
    read_step (some h) e = phdr_step h (action h.p_type) e refl

  load_phdrs-Mapped :
      (n i file_ofs : ℕ) → Mapped n i file_ofs (load_phdrs read ok file_length n i file_ofs)
  unfolding load_phdrs
  load_phdrs-Mapped zero i file_ofs = record {
    pages = [];
    all = true;
    ends = refl;
    user = tt;
    accepted = λ e j l. absurd (omega (arith, l));
  }
  load_phdrs-Mapped (suc n) i file_ofs =
      elim (Bool-cases (leb (2 ^ 31) file_ofs || ltb file_length file_ofs)) [
        | inl e ↦ rw e (stopped (suc n) i file_ofs)
        | inr e ↦ rw e (
            read_step n i file_ofs (ground (arith, e)) _
              (load_phdrs-Mapped n (i + 1) ((file_ofs + phdr_size) % 2 ^ 32)) (read file_ofs) refl)
      ]

  -- What stands behind an entry point and a stack pointer that `load` gives
  pub record IsStart (stack : Option ℕ) (ehdr : Option Elf32Ehdr) (eip esp : ℕ) : Type 0 where
    pub header : Elf32Ehdr
    pub given : ehdr ≡ some header
    pub executable : is_executable header ≡ true
    pub entry : eip ≡ header.e_entry
    pub pointer : stack ≡ some esp
    pub accepted :
        (j : ℕ)
        → j < header.e_phnum
        → (p : Elf32Phdr) × (read ((header.e_phoff + j * phdr_size) % 2 ^ 32) ≡ some p)
          × IsAccepted file_length p

  pub record Loads (stack : Option ℕ) (ehdr : Option Elf32Ehdr)
      (r : Option (List Page × Option (ℕ × ℕ))) : Type 0 where
    pub pages : List Page
    pub result : Option (ℕ × ℕ)
    pub ends : r ≡ some (pages, result)
    pub user : AllUser pages
    pub starts : (eip esp : ℕ) → result ≡ some (eip, esp) → IsStart stack ehdr eip esp

  failed : (stack : Option ℕ) (ehdr : Option Elf32Ehdr) → Loads stack ehdr (some ([], none))
  failed stack ehdr = record {
    pages = [];
    result = none;
    ends = refl;
    user = tt;
    starts = λ eip esp e. cc;
  }

  finish-Loads :
      (stack : Option ℕ) (h : Elf32Ehdr) (r : List Page × Bool)
      → is_executable h ≡ true
      → AllUser r.0
      → (r.1 ≡ true
          → (j : ℕ) → j < h.e_phnum
          → (p : Elf32Phdr) × (read ((h.e_phoff + j * phdr_size) % 2 ^ 32) ≡ some p)
            × IsAccepted file_length p)
      → Loads stack (some h) (some (finish h.e_entry stack r))
  unfolding finish
  finish-Loads stack h (ps, false) e u a = record {
    pages = ps;
    result = none;
    ends = refl;
    user = u;
    starts = λ eip esp e. cc;
  }
  finish-Loads none h (ps, true) e u a = record {
    pages = ps;
    result = none;
    ends = refl;
    user = u;
    starts = λ eip esp e. cc;
  }
  finish-Loads (some top) h (ps, true) e u a = record {
    pages = ps;
    result = some (h.e_entry, top);
    ends = refl;
    user = u;
    starts = λ eip esp q. record {
      header = h;
      given = refl;
      executable = e;
      entry = cc;
      pointer = cc;
      accepted = a refl;
    };
  }

  -- load ends without a failed ASSERT on every file, every page that it installs lies between page
  -- 0 and PHYS_BASE, and where it succeeds the header is that of an executable, the entry point is
  -- the header's, and each program header is in the file and is either skipped or a segment that
  -- validate_segment passes.
  pub load-Loads :
      (stack : Option ℕ) (ehdr : Option Elf32Ehdr)
      → Loads stack ehdr (load read ok file_length stack ehdr)
  unfolding load load_file
  load-Loads stack none = failed stack none
  load-Loads stack (some h) = elim (Bool-cases (is_executable h)) [
    | inr e ↦ rw e (failed stack (some h))
    | inl e ↦
        let m = load_phdrs-Mapped h.e_phnum 0 h.e_phoff in
        rw (e, m.ends) (finish-Loads stack h (m.pages, m.all) e m.user m.accepted)
  ]
