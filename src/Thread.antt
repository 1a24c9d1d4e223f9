-- ===== src/Thread.antt =====
-- threads/thread.c and the sleep queue of devices/timer.c. Every function here runs with
-- interrupts off, so a call is one step. A thread is named by a number. `none` is a failed ASSERT.
pub mod Invariant
pub mod Steps
pub mod Timer
use pintos_nightmare.Base.{
  ltb, leb, ◌==◌, if◌then◌else◌, ◌>>=◌, ◌>>◌, assert, ℕ, ◌+◌, ◌%◌, ◌^◌, ◌≡◌, ◌≢◌, Bool, true, false,
  not, ◌&&◌, ◌||◌, Option, none, some, List, [], ◌∷◌, ◌++◌,
}

-- enum thread_status
pub data Status : Type 0 where
  running ready blocked dying : Status

abbrev pub is_running : Status → Bool
is_running Status.running = true
is_running _ = false

abbrev pub is_ready : Status → Bool
is_ready Status.ready = true
is_ready _ = false

abbrev pub is_blocked : Status → Bool
is_blocked Status.blocked = true
is_blocked _ = false

abbrev pub is_dying : Status → Bool
is_dying Status.dying = true
is_dying _ = false

-- TIME_SLICE
abbrev pub time_slice : ℕ
time_slice = 4

-- A sleeping thread with its `thread_sleep_time`.
pub record Sleeper : Type 0 where
  pub thread : ℕ
  pub wake : ℕ

-- The scheduler: the thread on the CPU, the state of each thread, the run queue, the sleep queue,
-- and the counters of thread_tick. `has_pagedir` says which threads run user programs, and `freed`
-- lists the threads whose page was given back, the latest first.
pub record Sched : Type 0 where
  pub current : ℕ
  pub status : ℕ → Status
  pub ready_list : List ℕ
  pub sleeping_threads : List Sleeper
  pub all_list : List ℕ
  pub idle_thread : ℕ
  pub initial_thread : ℕ
  pub has_pagedir : ℕ → Bool
  pub freed : List ℕ
  pub ticks : ℕ
  pub thread_ticks : ℕ
  pub idle_ticks : ℕ
  pub user_ticks : ℕ
  pub kernel_ticks : ℕ
  pub yield_on_return : Bool

abbrev pub set_status : (ℕ → Status) → ℕ → Status → ℕ → Status
set_status f t st u = if t == u then st else f u

-- next_thread_to_run: the thread, and the run queue without it.
unfoldable pub next_thread_to_run : Sched → ℕ × List ℕ
next_thread_to_run s = elim s.ready_list [ [] ↦ (s.idle_thread, []) | t ∷ rest ↦ (t, rest) ]

-- `Mark us as running. Start new time slice.`
abbrev pub mark_running : Sched → Sched
mark_running s = record s {
  status = set_status s.status s.current Status.running;
  thread_ticks = 0;
}

-- The page of a dying thread goes back.
unfoldable pub free_dying : (prev : ℕ) → Sched → Option Sched
free_dying prev s =
    if is_dying (s.status prev) && not (prev == s.initial_thread)
    then (do assert (not (prev == s.current)); some (record s { freed = prev ∷ s.freed }))
    else some s

-- thread_schedule_tail, running as the new thread, with the thread that was left
unfoldable pub thread_schedule_tail : (prev : Option ℕ) → Sched → Option Sched
thread_schedule_tail none s = some (mark_running s)
thread_schedule_tail (some prev) s = free_dying prev (mark_running s)

-- thread_current, with its ASSERT on the status of the thread; that on its magic number, which finds
-- a stack that has overflowed, is left out.
unfoldable pub thread_current : Sched → Option ℕ
thread_current s = do assert (is_running (s.status s.current)); some s.current

-- schedule
unfoldable pub schedule : Sched → Option Sched
unfolding next_thread_to_run thread_schedule_tail
schedule s = do
  let (next, rest) = next_thread_to_run s
  assert (not (is_running (s.status s.current)))
  thread_schedule_tail (if s.current == next then none else some s.current)
      (record s { current = next; ready_list = rest })

unfoldable pub thread_block : Sched → Option Sched
unfolding schedule
thread_block s = do
  cur ← thread_current s
  schedule (record s { status = set_status s.status cur Status.blocked })

unfoldable pub thread_unblock : ℕ → Sched → Option Sched
thread_unblock t s = do
  assert (is_blocked (s.status t))
  some (record s {
    ready_list = s.ready_list ++ t ∷ [];
    status = set_status s.status t Status.ready;
  })

unfoldable pub thread_yield : Sched → Option Sched
unfolding schedule
thread_yield s = do
  cur ← thread_current s
  schedule (record s {
    ready_list = if cur == s.idle_thread then s.ready_list else s.ready_list ++ cur ∷ [];
    status = set_status s.status cur Status.ready;
  })

-- list_remove of a thread from `all_list`
unfoldable pub remove_thread : ℕ → List ℕ → List ℕ
remove_thread t [] = []
remove_thread t (u ∷ us) = let rest = remove_thread t us in if u == t then us else u ∷ rest

-- thread_exit, after process_exit
unfoldable pub thread_exit : Sched → Option Sched
unfolding schedule remove_thread
thread_exit s = do
  cur ← thread_current s
  schedule (record s {
    all_list = remove_thread cur s.all_list;
    status = set_status s.status cur Status.dying;
  })

-- The counters of thread_tick, while thread `cur` runs
abbrev pub count_tick : (cur : ℕ) → Sched → Sched
count_tick cur s =
    let idle = cur == s.idle_thread in
    let user = s.has_pagedir cur in
    record s {
      idle_ticks = if idle then s.idle_ticks + 1 else s.idle_ticks;
      user_ticks = if not idle && user then s.user_ticks + 1 else s.user_ticks;
      kernel_ticks = if not idle && not user then s.kernel_ticks + 1 else s.kernel_ticks;
      thread_ticks = s.thread_ticks + 1;
      yield_on_return = s.yield_on_return || leb time_slice (s.thread_ticks + 1);
    }

unfoldable pub thread_tick : Sched → Option Sched
thread_tick s = do cur ← thread_current s; some (count_tick cur s)

-- An int64_t stored in the int `thread_sleep_time`, moved up by 2 ^ 31 so that the order of the
-- ints is that of these numbers.
abbrev pub int_key : ℕ → ℕ
int_key v = (v + 2 ^ 31) % 2 ^ 32

-- thread_sleep_time_comparator
abbrev pub thread_sleep_time_comparator : Sleeper → Sleeper → Bool
thread_sleep_time_comparator a b = ltb a.wake b.wake

-- list_insert_ordered
unfoldable pub list_insert_ordered : Sleeper → List Sleeper → List Sleeper
list_insert_ordered x [] = x ∷ []
list_insert_ordered x (e ∷ es) =
    let rest = list_insert_ordered x es in
    if thread_sleep_time_comparator x e then x ∷ e ∷ es else e ∷ rest

unfoldable pub timer_sleep : ℕ → Sched → Option Sched
unfolding list_insert_ordered thread_block
timer_sleep n s = do
  cur ← thread_current s
  thread_block (record s {
    sleeping_threads =
        list_insert_ordered (record { thread = cur; wake = int_key (s.ticks + n) })
          s.sleeping_threads;
  })

-- The loop of timer_interrupt, over the sleep queue that is left.
unfoldable pub wake_loop : List Sleeper → Sched → Option Sched
unfolding thread_unblock
wake_loop [] s = some (record s { sleeping_threads = [] })
wake_loop (e ∷ es) s =
    let rest = (do
      s ← thread_unblock e.thread (record s { sleeping_threads = es })
      wake_loop es s) in
    if leb e.wake (s.ticks + 2 ^ 31) then rest else some (record s { sleeping_threads = e ∷ es })

unfoldable pub timer_interrupt : Sched → Option Sched
unfolding thread_tick wake_loop
timer_interrupt s = do
  s ← thread_tick (record s { ticks = s.ticks + 1 })
  wake_loop s.sleeping_threads s

-- A thread that is woken by sema_up or the like is not on the sleep queue.
abbrev pub IsWaiting : ℕ → List Sleeper → Type 0
IsWaiting t [] = Unit
IsWaiting t (e ∷ es) = (e.thread ≢ t) × IsWaiting t es

-- What the kernel can do to the scheduler: the thread on the CPU yields, sleeps, blocks on
-- something else or exits, some thread is woken, or the timer ticks.
pub data Step (s : Sched) : Sched → Type 0 where
  yield : {s' : Sched} → thread_yield s ≡ some s' → Step s s'
  sleep : {s' : Sched} (n : ℕ) → timer_sleep n s ≡ some s' → s.current ≢ s.idle_thread → Step s s'
  block : {s' : Sched} → thread_block s ≡ some s' → Step s s'
  exit : {s' : Sched} → thread_exit s ≡ some s' → s.current ≢ s.idle_thread → Step s s'
  wake :
      {s' : Sched} (t : ℕ)
      → thread_unblock t s ≡ some s'
      → t ≢ s.idle_thread
      → IsWaiting t s.sleeping_threads
      → Step s s'
  tick : {s' : Sched} → timer_interrupt s ≡ some s' → Step s s'

pub data Reach (s : Sched) : Sched → Type 0 where
  here : Reach s s
  next : {t u : Sched} → Reach s t → Step t u → Reach s u
