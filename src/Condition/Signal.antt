-- ===== src/Condition/Signal.antt =====
-- What cond_signal and cond_broadcast wake.
use pintos_nightmare.Base.{
  ◌==◌, if◌then◌else◌, ==_iff, Bool-cases, if_false, if_true, has, Distinct, length, drop, ℕ, suc,
  ◌+◌, ◌≡◌, refl, sym, ap, ◌∙◌, subst, ◌⊎◌, inl, inr, true, false, some, List, [], ◌∷◌, ◌++◌,
  append-nil, append_assoc, arith,
}
use pintos_nightmare.Condition.{
  Semaphore, Condition, lock_held_by, store_semaphore, wait_down, first, sema_up, cond_signal,
  broadcast_loop, cond_broadcast,
}

-- The waiters that have blocked already, in order
abbrev pub blocked : (ℕ → Semaphore) → List ℕ → List ℕ
blocked f [] = []
blocked f (u ∷ us) = first (f u).waiters ++ blocked f us

-- The semaphores after a signal to each of a list
abbrev pub signalled : (ℕ → Semaphore) → List ℕ → ℕ → Semaphore
signalled f us u =
    if has u us then record { value = (f u).value + 1; waiters = drop 1 (f u).waiters } else f u

blocked_same :
    (f g : ℕ → Semaphore) (us : List ℕ)
    → ((u : ℕ) → has u us ≡ true → f u ≡ g u)
    → blocked f us ≡ blocked g us
blocked_same f g [] h = refl
blocked_same f g (u ∷ us) h =
    rw (h u (ground arith), blocked_same f g us λ w e. h w (ground (arith, e))) refl

broadcast_loop-signalled :
    (us : List ℕ) (t : ℕ) (c : Condition)
    → c.waiters ≡ us
    → lock_held_by t c.holder ≡ true
    → Distinct us
    → (c' : Condition) × (broadcast_loop (suc (length us)) t c ≡ some c')
      × (c'.waiters ≡ [])
      × (c'.holder ≡ c.holder)
      × (c'.unblocked ≡ c.unblocked ++ blocked c.semaphore us)
      × ((u : ℕ) → c'.semaphore u ≡ signalled c.semaphore us u)
unfolding broadcast_loop cond_signal sema_up
broadcast_loop-signalled [] t c e h d =
    (c, rw e refl, e, refl, sym (append-nil c.unblocked), λ u. refl)
broadcast_loop-signalled (u ∷ us) t c e h d =
    let (c', run, w, o, b, s) =
      broadcast_loop-signalled us t (sema_up u (record c { waiters = us })) refl h d.1 in
    (
      c',
      rw (e, h) run,
      w,
      o,
      b
          ∙ append_assoc c.unblocked (first (c.semaphore u).waiters) _
          ∙ ap (λ (l : List ℕ). c.unblocked ++ (first (c.semaphore u).waiters ++ l))
              (blocked_same _ c.semaphore us λ w i. untouched w i),
      λ w. s w ∙ both w,
    )
  where
    upped : Semaphore
    upped = record { value = (c.semaphore u).value + 1; waiters = drop 1 (c.semaphore u).waiters }

    self : (u == u) ≡ true
    self = ground arith

    untouched : (w : ℕ) → has w us ≡ true → store_semaphore u upped c.semaphore w ≡ c.semaphore w
    untouched w i = if_false {b = w == u} upped (c.semaphore w) (apart (Bool-cases (w == u)))
      where
        apart : ((w == u) ≡ true) ⊎ ((w == u) ≡ false) → (w == u) ≡ false
        apart (inl z) =
            let again = ap (λ (x : ℕ). has x us) (sym ((==_iff w u).0 z)) in
            absurd (ground (arith, again, i, d.0))
        apart (inr z) = z

    at_u : signalled (store_semaphore u upped c.semaphore) us u ≡ signalled c.semaphore (u ∷ us) u
    at_u = rw (d.0, self) refl

    both :
        (w : ℕ)
        → signalled (store_semaphore u upped c.semaphore) us w ≡ signalled c.semaphore (u ∷ us) w
    both w = elim (Bool-cases (w == u)) [
      | inl z ↦
          subst
            (λ (x : ℕ).
              signalled (store_semaphore u upped c.semaphore) us x
              ≡ signalled c.semaphore (u ∷ us) x)
            (sym ((==_iff w u).0 z)) at_u
      | inr z ↦ rw (z, ground_sym z) refl
    ]
      where
        ground_sym : (w == u) ≡ false → (u == w) ≡ false
        ground_sym z = ground (arith, z)

-- cond_broadcast by the thread that holds the lock ends, with no ASSERT failed: no thread waits on
-- the condition any more, those that had blocked are unblocked in the order in which they came to
-- wait, and each of the threads that waited, blocked yet or not, gets through its next round of
-- sema_down; the holder and the semaphores of other threads are as before.
pub cond_broadcast-wakes :
    (t : ℕ) (c : Condition)
    → lock_held_by t c.holder ≡ true
    → Distinct c.waiters
    → (c' : Condition) × (cond_broadcast t c ≡ some c')
      × (c'.waiters ≡ [])
      × (c'.holder ≡ c.holder)
      × (c'.unblocked ≡ c.unblocked ++ blocked c.semaphore c.waiters)
      × ((u : ℕ) → has u c.waiters ≡ true → (wait_down u c').1 ≡ false)
      × ((u : ℕ) → has u c.waiters ≡ false → c'.semaphore u ≡ c.semaphore u)
unfolding cond_broadcast wait_down
cond_broadcast-wakes t c h d =
    let (c', run, w, o, b, s) = broadcast_loop-signalled c.waiters t c refl h d in
    (
      c',
      run,
      w,
      o,
      b,
      (λ u i. passes u c' (s u ∙ if_true {b = has u c.waiters} _ (c.semaphore u) i)),
      λ u i. s u ∙ if_false {b = has u c.waiters} _ (c.semaphore u) i,
    )
  where
    nonzero : {a : ℕ} (b : ℕ) → a ≡ b + 1 → (a == 0) ≡ false
    nonzero b k = ground (arith, k)

    passes :
        (u : ℕ) (c' : Condition)
        → c'.semaphore u
          ≡ record { value = (c.semaphore u).value + 1; waiters = drop 1 (c.semaphore u).waiters }
        → (wait_down u c').1 ≡ false
    passes u c' e = rw (nonzero _ (ap (λ (x : Semaphore). x.value) e)) refl
