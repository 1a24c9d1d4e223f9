-- ===== src/Intq/Laws.antt =====
-- The queue is a first-in first-out queue of at most 63 bytes.
use pintos_nightmare.Base.{
  ◌==◌, ==_iff, Bool-cases, if_false, length, ◌>>=◌, ◌>>◌, assert, ℕ, zero, suc, ◌+◌, ◌-◌, ◌%◌, ◌<◌,
  ◌≡◌, refl, sym, ap, ◌∙◌, subst, ◌≢◌, ◌⊎◌, inl, inr, Bool, true, false, not, Option, none, some,
  List, [], ◌∷◌, ◌++◌, arith,
}
use pintos_nightmare.Intq.{
  Intq, Call, waits, waits_for_lock, lock_acquire, take_lock, wait_not_full, wait_not_empty, done,
  next, store, intq_empty, intq_full, intq_getc, intq_putc, intq_bufsize,
}

pub record IsIntq (q : Intq) : Type 0 where
  pub head : q.head < intq_bufsize
  pub tail : q.tail < intq_bufsize

-- The number of bytes in the queue
abbrev pub count : Intq → ℕ
count q = (q.head + intq_bufsize - q.tail) % intq_bufsize

-- The `n` bytes from position `pos` on
pub bytes : (ℕ → ℕ) → (n pos : ℕ) → List ℕ
bytes buf zero pos = []
bytes buf (suc n) pos = buf pos ∷ bytes buf n (next pos)

-- The bytes of the queue, the oldest first
pub contents : Intq → List ℕ
contents q = bytes q.buf (count q) q.tail

length-bytes : (buf : ℕ → ℕ) (n pos : ℕ) → length (bytes buf n pos) ≡ n
unfolding bytes
length-bytes buf zero pos = refl
length-bytes buf (suc n) pos = ap suc (length-bytes buf n (next pos))

bytes-suc :
    (buf : ℕ → ℕ) (n pos : ℕ)
    → pos < intq_bufsize
    → bytes buf (suc n) pos ≡ bytes buf n pos ++ buf ((pos + n) % intq_bufsize) ∷ []
unfolding bytes
bytes-suc buf zero pos h = ap (λ p. buf p ∷ []) (omega (arith, h))
bytes-suc buf (suc n) pos h = ap (◌∷◌ (buf pos)) (
    bytes-suc buf n (next pos) (omega arith)
    ∙ ap (λ p. bytes buf n (next pos) ++ buf p ∷ []) (omega arith))

bytes-store :
    (buf : ℕ → ℕ) (n pos at byte : ℕ)
    → ((i : ℕ) → i < n → (pos + i) % intq_bufsize ≢ at)
    → pos < intq_bufsize
    → bytes (store buf at byte) n pos ≡ bytes buf n pos
unfolding bytes
bytes-store buf zero pos at byte h l = refl
bytes-store buf (suc n) pos at byte h l =
    rw
      (
        here,
        bytes-store buf n (next pos) at byte (λ i li. ground (arith, h (suc i), li)) (omega arith),
      )
      refl
  where
    here : (pos == at) ≡ false
    here = ground (arith, h 0, l)

-- What a call does that has to wait, where `waiting` is the queue with the thread as its waiter:
-- an interrupt handler fails an ASSERT, and so does a thread that holds the lock; a thread that
-- finds the lock free holds it and blocks, and one that does not blocks on the lock.
abbrev pub Waits :
    {A : Type 0} (q waiting : Intq) (current : ℕ) (in_interrupt : Bool)
    → Option (Intq × Call A)
    → Type 0
Waits q waiting current in_interrupt r =
    ((in_interrupt ≡ true) × (r ≡ none))
    ⊎ ((in_interrupt ≡ false) × (q.lock ≡ some current) × (r ≡ none))
    ⊎ ((in_interrupt ≡ false)
        × (q.lock ≡ none)
        × (r ≡ some (record waiting { lock = some current }, waits)))
    ⊎ ((in_interrupt ≡ false)
        × ((holder : ℕ) × (q.lock ≡ some holder)
            × (holder ≢ current)
            × (r
                ≡ some
                    (record q { lock_waiters = q.lock_waiters ++ current ∷ [] }, waits_for_lock))))

module _ (q : Intq) (current : ℕ) where
  abbrev putc_blocks : Bool → Option (Intq × Call (Unit {0}))
  putc_blocks in_interrupt = do
    assert (not in_interrupt)
    got ← lock_acquire current q
    wait_not_full current got

  abbrev getc_blocks : Bool → Option (Intq × Call ℕ)
  getc_blocks in_interrupt = do
    assert (not in_interrupt)
    got ← lock_acquire current q
    wait_not_empty current got

  putc-Waits :
      (in_interrupt : Bool)
      → intq_full q ≡ true
      → Waits q
          (record q { not_full = some current })
          current
          in_interrupt
          (putc_blocks in_interrupt)
  unfolding lock_acquire take_lock wait_not_full
  putc-Waits true full = inl (refl, refl)
  putc-Waits false full = by_lock q.lock refl
    where
      by_lock :
          (l : Option ℕ)
          → q.lock ≡ l
          → Waits q (record q { not_full = some current }) current false (putc_blocks false)
      by_lock none e = inr (inr (inl (refl, e, rw (e, full) refl)))
      by_lock (some holder) e = elim (Bool-cases (holder == current)) [
        | inl s ↦
            inr
              (inl (refl, e ∙ ap (λ (t : ℕ). some t) ((==_iff holder current).0 s), rw (e, s) refl))
        | inr n ↦ inr (inr (inr (refl, (holder, e, (λ z. ground (arith, z, n)), rw (e, n) refl))))
      ]

  getc-Waits :
      (in_interrupt : Bool)
      → intq_empty q ≡ true
      → Waits q
          (record q { not_empty = some current })
          current
          in_interrupt
          (getc_blocks in_interrupt)
  unfolding lock_acquire take_lock wait_not_empty
  getc-Waits true empty = inl (refl, refl)
  getc-Waits false empty = by_lock q.lock refl
    where
      by_lock :
          (l : Option ℕ)
          → q.lock ≡ l
          → Waits q (record q { not_empty = some current }) current false (getc_blocks false)
      by_lock none e = inr (inr (inl (refl, e, rw (e, empty) refl)))
      by_lock (some holder) e = elim (Bool-cases (holder == current)) [
        | inl s ↦
            inr
              (inl (refl, e ∙ ap (λ (t : ℕ). some t) ((==_iff holder current).0 s), rw (e, s) refl))
        | inr n ↦ inr (inr (inr (refl, (holder, e, (λ z. ground (arith, z, n)), rw (e, n) refl))))
      ]

module _ (q : Intq) (v : IsIntq q) (current : ℕ) (in_interrupt : Bool) where
  size : length (contents q) ≡ count q
  size = unfold contents in length-bytes q.buf (count q) q.tail

  more :
      intq_full q ≡ false
      → (byte : ℕ)
      → contents (record q { buf = store q.buf q.head byte; head = next q.head; not_empty = none })
        ≡ contents q ++ byte ∷ []
  unfolding contents
  more room byte =
      ap (λ n. bytes buf' n q.tail) grows
      ∙ bytes-suc buf' (count q) q.tail v.tail
      ∙ ap (λ l. l ++ buf' ((q.tail + count q) % intq_bufsize) ∷ [])
          (bytes-store q.buf (count q) q.tail q.head byte apart v.tail)
      ∙ ap (λ b. bytes q.buf (count q) q.tail ++ b ∷ []) last
    where
      buf' : ℕ → ℕ
      buf' = store q.buf q.head byte

      grows : (next q.head + intq_bufsize - q.tail) % intq_bufsize ≡ suc (count q)
      grows = ground (arith, room, v.head, v.tail)

      apart : (i : ℕ) → i < count q → (q.tail + i) % intq_bufsize ≢ q.head
      apart i l = omega (arith, l, v.head, v.tail)

      last : buf' ((q.tail + count q) % intq_bufsize) ≡ byte
      last = ground (arith, v.head, v.tail)

  -- intq_putc on a queue that is not full adds the byte behind all others, and wakes and forgets the
  -- thread that waits for a byte. On a full queue, one with 63 bytes, a thread that finds the
  -- queue's lock free takes it, leaves itself as the waiter and blocks, and one that finds it held
  -- by another thread blocks on the lock, with the rest of the queue as it is; an interrupt
  -- handler fails an ASSERT, and so does a thread that holds the lock itself.
  pub intq_putc-contents :
      (byte : ℕ)
      → ((length (contents q) < 63)
          × ((q' : Intq) × (intq_putc current in_interrupt byte q ≡ some (q', done tt q.not_empty))
              × (contents q' ≡ contents q ++ byte ∷ [])
              × (q'.not_empty ≡ none)
              × IsIntq q'))
        ⊎ ((length (contents q) ≡ 63)
            × Waits q
                (record q { not_full = some current })
                current
                in_interrupt
                (intq_putc current in_interrupt byte q))
  intq_putc-contents byte = elim (Bool-cases (intq_full q)) [
    | inr room ↦ inl (
      subst (λ n. n < 63) (sym size) (ground (arith, room, v.head, v.tail)),
      (
        record q { buf = store q.buf q.head byte; head = next q.head; not_empty = none },
        unfold intq_putc in if_false _ _ room,
        more room byte,
        refl,
        record { head = omega arith; tail = v.tail },
      ),
    )
    | inl full ↦ inr (
      size ∙ ground (arith, full, v.head, v.tail),
      unfold intq_putc in rw full (putc-Waits q current in_interrupt full),
    )
  ]

  -- intq_getc on a queue that holds bytes takes the oldest, and wakes and forgets the thread that waits
  -- for room; on an empty queue a thread waits, or waits for the lock,
  -- and an interrupt handler fails an ASSERT, as a thread that holds the lock does.
  pub intq_getc-contents :
      ((byte : ℕ) × (rest : List ℕ) × (contents q ≡ byte ∷ rest)
        × ((q' : Intq) × (intq_getc current in_interrupt q ≡ some (q', done byte q.not_full))
            × (contents q' ≡ rest)
            × (q'.not_full ≡ none)
            × IsIntq q'))
      ⊎ ((contents q ≡ [])
          × Waits q
              (record q { not_empty = some current })
              current
              in_interrupt
              (intq_getc current in_interrupt q))
  intq_getc-contents = elim (Bool-cases (intq_empty q)) [
    | inr some_bytes ↦ inl (
      q.buf q.tail,
      bytes q.buf (count q - 1) (next q.tail),
      let at_least : count q ≡ suc (count q - 1) = ground (arith, some_bytes, v.head, v.tail) in
          unfold contents bytes in ap (λ n. bytes q.buf n q.tail) at_least,
      (
        record q { tail = next q.tail; not_full = none },
        unfold intq_getc in if_false _ _ some_bytes,
        unfold contents in
            ap (λ n. bytes q.buf n (next q.tail)) (ground (arith, some_bytes, v.head, v.tail)),
        refl,
        record { head = v.head; tail = omega arith },
      ),
    )
    | inl empty ↦ inr (
      let zero_bytes : count q ≡ 0 = ground (arith, empty, v.head, v.tail) in
          unfold contents bytes in ap (λ n. bytes q.buf n q.tail) zero_bytes,
      unfold intq_getc in rw empty (getc-Waits q current in_interrupt empty),
    )
  ]
