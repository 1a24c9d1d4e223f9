-- ===== src/Lock.antt =====
-- threads/synch.c: semaphores and locks. The threads that use a lock run in any order, a step at a
-- time: sema_down and sema_up run with interrupts off, so a round of the one and the whole of the
-- other are steps, and so are the reads and writes of `holder` around them. `none` is a failed
-- ASSERT.
pub mod Exclusion
use pintos_nightmare.Base.{
  ◌==◌, if◌then◌else◌, drop, ◌>>=◌, ◌>>◌, assert, ℕ, ◌+◌, ◌-◌, ◌≡◌, Bool, true, false, not, Option,
  none, some, List, [], ◌∷◌, ◌++◌,
}

-- Where a thread is: outside, in the loop of sema_down, on the semaphore's list of waiters, past
-- sema_down with `holder` not set yet, between lock_acquire and lock_release, and in lock_release
-- before its sema_up.
pub data Place : Type 0 where
  outside trying waiting entered holding leaving : Place

-- struct lock, with its semaphore, and the place of each thread
pub record Lock : Type 0 where
  pub value : ℕ
  pub waiters : List ℕ
  pub holder : Option ℕ
  pub place : ℕ → Place

abbrev pub is_holder : ℕ → Option ℕ → Bool
is_holder t none = false
is_holder t (some u) = u == t

abbrev pub move : (ℕ → Place) → ℕ → Place → ℕ → Place
move f t p u = if t == u then p else f u

-- lock_init
unfoldable pub lock_init : Lock
lock_init = record { value = 1; waiters = []; holder = none; place = λ t. Place.outside }

-- lock_acquire up to sema_down
unfoldable pub lock_acquire : ℕ → Lock → Option Lock
lock_acquire t l = do
  assert (not (is_holder t l.holder))
  some (record l { place = move l.place t Place.trying })

-- A round of sema_down: the thread blocks at the end of the waiters, or takes one off the value.
unfoldable pub sema_down : ℕ → Lock → Lock
sema_down t l =
    if l.value == 0
    then record l { waiters = l.waiters ++ t ∷ []; place = move l.place t Place.waiting }
    else record l { value = l.value - 1; place = move l.place t Place.entered }

-- The end of lock_acquire
unfoldable pub set_holder : ℕ → Lock → Lock
set_holder t l = record l { holder = some t; place = move l.place t Place.holding }

-- lock_release up to sema_up
unfoldable pub lock_release : ℕ → Lock → Option Lock
lock_release t l = do
  assert (is_holder t l.holder)
  some (record l { holder = none; place = move l.place t Place.leaving })

abbrev pub wake_first : List ℕ → (ℕ → Place) → ℕ → Place
wake_first [] place = place
wake_first (u ∷ us) place = move place u Place.trying

-- sema_up: the first waiter, if any, goes on with the loop of sema_down.
unfoldable pub sema_up : ℕ → Lock → Lock
sema_up t l = record l {
  value = l.value + 1;
  waiters = drop 1 l.waiters;
  place = wake_first l.waiters (move l.place t Place.outside);
}

-- lock_try_acquire: whether it got the lock.
unfoldable pub lock_try_acquire : ℕ → Lock → Option (Lock × Bool)
lock_try_acquire t l = do
  assert (not (is_holder t l.holder))
  some (
      if l.value == 0
      then (l, false)
      else (record l { value = l.value - 1; place = move l.place t Place.entered }, true))

pub data Step (l : Lock) : Lock → Type 0 where
  acquires :
      {l' : Lock} (t : ℕ) → l.place t ≡ Place.outside → lock_acquire t l ≡ some l' → Step l l'
  downs : (t : ℕ) → l.place t ≡ Place.trying → Step l (sema_down t l)
  sets : (t : ℕ) → l.place t ≡ Place.entered → Step l (set_holder t l)
  releases :
      {l' : Lock} (t : ℕ) → l.place t ≡ Place.holding → lock_release t l ≡ some l' → Step l l'
  ups : (t : ℕ) → l.place t ≡ Place.leaving → Step l (sema_up t l)
  tries :
      {l' : Lock} {got : Bool} (t : ℕ)
      → l.place t ≡ Place.outside
      → lock_try_acquire t l ≡ some (l', got)
      → Step l l'

pub data Reach : Lock → Type 0 where
  start : Reach lock_init
  step : {l l' : Lock} → Reach l → Step l l' → Reach l'
