-- ===== src/Condition.antt =====
-- threads/synch.c: condition variables and the semaphores of their waiters. The lock is that of
-- Lock; here it is the thread that holds it. `none` is a failed ASSERT.
use pintos_nightmare.Base.{
  ◌==◌, if◌then◌else◌, length, drop, ◌>>=◌, ◌>>◌, assert, ℕ, zero, suc, ◌+◌, ◌-◌, Bool, true, false,
  Option, none, some, List, [], ◌∷◌, ◌++◌,
}
pub mod Signal

pub record Semaphore : Type 0 where
  pub value : ℕ
  pub waiters : List ℕ

-- A condition variable with its lock's holder. A thread that waits stands on `waiters` with a
-- semaphore of its own; `unblocked` are the threads given to thread_unblock so far.
pub record Condition : Type 0 where
  pub holder : Option ℕ
  pub waiters : List ℕ
  pub semaphore : ℕ → Semaphore
  pub unblocked : List ℕ

abbrev pub lock_held_by : ℕ → Option ℕ → Bool
lock_held_by t none = false
lock_held_by t (some u) = u == t

abbrev pub store_semaphore : ℕ → Semaphore → (ℕ → Semaphore) → ℕ → Semaphore
store_semaphore t s f u = if u == t then s else f u

unfoldable pub sema_init : ℕ → Semaphore
sema_init value = record { value = value; waiters = [] }

-- cond_init
unfoldable pub cond_init : Condition → Condition
cond_init c = record c { waiters = [] }

-- cond_wait up to its sema_down
unfoldable pub cond_wait : ℕ → Condition → Option Condition
cond_wait t c = do
  assert (lock_held_by t c.holder)
  some (record c {
    holder = none;
    waiters = c.waiters ++ t ∷ [];
    semaphore = store_semaphore t (sema_init 0) c.semaphore;
  })

-- A round of the sema_down of cond_wait, and whether the thread blocks
unfoldable pub wait_down : ℕ → Condition → Condition × Bool
wait_down t c =
    let s = c.semaphore t in
    if s.value == 0
    then (
      record c {
        semaphore = store_semaphore t (record s { waiters = s.waiters ++ t ∷ [] }) c.semaphore;
      },
      true,
    )
    else (
      record c { semaphore = store_semaphore t (record s { value = s.value - 1 }) c.semaphore },
      false,
    )

abbrev pub first : List ℕ → List ℕ
first [] = []
first (t ∷ ts) = t ∷ []

-- sema_up of a waiter's semaphore
unfoldable pub sema_up : ℕ → Condition → Condition
sema_up u c =
    let s = c.semaphore u in
    record c {
      semaphore =
          store_semaphore u (record { value = s.value + 1; waiters = drop 1 s.waiters })
            c.semaphore;
      unblocked = c.unblocked ++ first s.waiters;
    }

abbrev pub signal_first : List ℕ → Condition → Condition
signal_first [] c = c
signal_first (u ∷ us) c = sema_up u (record c { waiters = us })

unfoldable pub cond_signal : ℕ → Condition → Option Condition
cond_signal t c = do assert (lock_held_by t c.holder); some (signal_first c.waiters c)

abbrev pub is_empty : List ℕ → Bool
is_empty [] = true
is_empty (t ∷ ts) = false

unfoldable pub broadcast_loop : ℕ → ℕ → Condition → Option Condition
broadcast_loop zero t c = none
broadcast_loop (suc fuel) t c =
    let rest = cond_signal t c >>= broadcast_loop fuel t in
    if is_empty c.waiters then some c else rest

unfoldable pub cond_broadcast : ℕ → Condition → Option Condition
cond_broadcast t c = broadcast_loop (suc (length c.waiters)) t c
