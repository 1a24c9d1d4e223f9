-- ===== src/Intq.antt =====
-- devices/intq.c: the queue of bytes between a device's interrupt handler and the kernel's threads.
-- A call is made with interrupts off. `none` is a failed ASSERT; a thread that has to wait takes
-- the queue's lock, which it may have to wait for, leaves itself as the waiter and blocks; it goes
-- on in a function of its own.
pub mod Laws
use pintos_nightmare.Base.{
  ◌==◌, if◌then◌else◌, ◌>>=◌, ◌>>◌, assert, ℕ, ◌+◌, ◌%◌, Bool, true, false, not, Option, none, some,
  List, [], ◌∷◌, ◌++◌,
}

-- INTQ_BUFSIZE
abbrev pub intq_bufsize : ℕ
intq_bufsize = 64

-- struct intq; a waiter is a thread's number. `lock` has the thread that holds the lock, and
-- `lock_waiters` the threads that are blocked on it.
pub record Intq : Type 0 where
  pub not_full : Option ℕ
  pub not_empty : Option ℕ
  pub lock : Option ℕ
  pub lock_waiters : List ℕ
  pub buf : ℕ → ℕ
  pub head : ℕ
  pub tail : ℕ

abbrev pub next : ℕ → ℕ
next pos = (pos + 1) % intq_bufsize

-- intq_init; `garbage` is what the buffer's memory held.
unfoldable pub intq_init : (garbage : ℕ → ℕ) → Intq
intq_init garbage = record {
  not_full = none;
  not_empty = none;
  lock = none;
  lock_waiters = [];
  buf = garbage;
  head = 0;
  tail = 0;
}

abbrev pub intq_empty : Intq → Bool
intq_empty q = q.head == q.tail

abbrev pub intq_full : Intq → Bool
intq_full q = next q.head == q.tail

-- How far a call gets: it blocks in `wait`, it blocks on the queue's lock, or it is done, with the
-- thread that `signal` unblocked.
pub data Call (A : Type 0) : Type 0 where
  waits : Call A
  waits_for_lock : Call A
  done : (result : A) (woken : Option ℕ) → Call A

abbrev pub is_held_by : ℕ → Option ℕ → Bool
is_held_by current none = false
is_held_by current (some holder) = holder == current

-- A round of the loop of sema_down, on the semaphore of the lock: whether it gets it
unfoldable pub take_lock : (current : ℕ) → Intq → Intq × Bool
take_lock current q = elim q.lock [
  | none ↦ (record q { lock = some current }, true)
  | some holder ↦ (record q { lock_waiters = q.lock_waiters ++ current ∷ [] }, false)
]

unfoldable pub lock_acquire : (current : ℕ) → Intq → Option (Intq × Bool)
lock_acquire current q = do assert (not (is_held_by current q.lock)); some (take_lock current q)

unfoldable pub unblock_first : List ℕ → List ℕ × Option ℕ
unblock_first [] = ([], none)
unblock_first (t ∷ ts) = (ts, some t)

-- lock_release, with the thread that it unblocks
unfoldable pub lock_release : (current : ℕ) → Intq → Option (Intq × Option ℕ)
lock_release current q = do
  assert (is_held_by current q.lock)
  let (rest, unblocked) = unblock_first q.lock_waiters
  some (record q { lock = none; lock_waiters = rest }, unblocked)

-- `wait (q, &q->not_empty)`, if the lock was got
unfoldable pub wait_not_empty : (current : ℕ) → Intq × Bool → Option (Intq × Call ℕ)
wait_not_empty current (q, false) = some (q, waits_for_lock)
wait_not_empty current (q, true) = do
  assert (intq_empty q)
  some (record q { not_empty = some current }, waits)

-- `wait (q, &q->not_full)`, if the lock was got
unfoldable pub wait_not_full : (current : ℕ) → Intq × Bool → Option (Intq × Call (Unit {0}))
wait_not_full current (q, false) = some (q, waits_for_lock)
wait_not_full current (q, true) = do
  assert (intq_full q)
  some (record q { not_full = some current }, waits)

-- intq_getc of thread `current`; `in_interrupt` says that it is an interrupt handler that calls.
unfoldable pub intq_getc : (current : ℕ) (in_interrupt : Bool) → Intq → Option (Intq × Call ℕ)
intq_getc current in_interrupt q =
    if intq_empty q
    then (do assert (not in_interrupt); got ← lock_acquire current q; wait_not_empty current got)
    else some (record q { tail = next q.tail; not_full = none }, done (q.buf q.tail) q.not_full)

abbrev pub store : (ℕ → ℕ) → ℕ → ℕ → ℕ → ℕ
store buf pos byte k = if k == pos then byte else buf k

-- intq_putc of thread `current`
unfoldable pub intq_putc :
    (current : ℕ) (in_interrupt : Bool) (byte : ℕ) → Intq → Option (Intq × Call (Unit {0}))
intq_putc current in_interrupt byte q =
    if intq_full q
    then (do assert (not in_interrupt); got ← lock_acquire current q; wait_not_full current got)
    else some (
      record q { buf = store q.buf q.head byte; head = next q.head; not_empty = none },
      done tt q.not_empty,
    )

-- intq_getc and intq_putc, of a thread that was blocked on the lock and goes on
unfoldable pub intq_getc_locked : (current : ℕ) → Intq → Option (Intq × Call ℕ)
intq_getc_locked current q = wait_not_empty current (take_lock current q)

unfoldable pub intq_putc_locked : (current : ℕ) → Intq → Option (Intq × Call (Unit {0}))
intq_putc_locked current q = wait_not_full current (take_lock current q)

-- intq_getc and intq_putc, of a thread that `signal` woke: from the lock_release on, with the thread
-- that this unblocks
unfoldable pub intq_getc_woken : (current : ℕ) → Intq → Option (Intq × Call ℕ × Option ℕ)
intq_getc_woken current q = do
  (q, unblocked) ← lock_release current q
  (q, call) ← intq_getc current false q
  some (q, call, unblocked)

unfoldable pub intq_putc_woken :
    (current byte : ℕ) → Intq → Option (Intq × Call (Unit {0}) × Option ℕ)
intq_putc_woken current byte q = do
  (q, unblocked) ← lock_release current q
  (q, call) ← intq_putc current false byte q
  some (q, call, unblocked)
