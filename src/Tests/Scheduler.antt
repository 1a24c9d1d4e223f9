-- ===== src/Tests/Scheduler.antt =====
-- The scheduler at concrete states.
use pintos_nightmare.Base.{
  ◌==◌, if◌then◌else◌, length, ℕ, ◌+◌, ◌^◌, ◌<◌, ◌≡◌, refl, ◌≢◌, true, false, none, some, [], ◌∷◌,
  arith,
}
use pintos_nightmare.Lock.{
  Place, Lock, is_holder, move, lock_init, lock_acquire, acquires, start, step,
}
use pintos_nightmare.Lock.Exclusion.{is_inside, is_holding, is_trying, mutual_exclusion}
use pintos_nightmare.Thread.{
  Status, Sched, thread_yield, thread_block, thread_exit, timer_sleep, timer_interrupt, here, next,
  yield, schedule, next_thread_to_run, thread_schedule_tail, thread_current, free_dying, set_status,
}
use pintos_nightmare.Thread.Timer.{IsQueue, Woken, timer_interrupt-Woken}
use pintos_nightmare.Thread.Invariant.{Inv}
use pintos_nightmare.Thread.Steps.{Reach-Inv, no_panic}

abbrev status : ℕ → Status
status t = if t == 1 then Status.running else if t == 2 then Status.ready else Status.blocked

-- Thread 1 runs, thread 2 is ready and thread 3 sleeps until tick 10; thread 0 is the idle thread.
abbrev sched : Sched
sched = record {
  current = 1;
  status = status;
  ready_list = 2 ∷ [];
  sleeping_threads = record { thread = 3; wake = 2147483658 } ∷ [];
  all_list = 0 ∷ 1 ∷ 2 ∷ 3 ∷ [];
  idle_thread = 0;
  initial_thread = 1;
  has_pagedir = λ t. false;
  freed = [];
  ticks = 9;
  thread_ticks = 0;
  idle_ticks = 0;
  user_ticks = 0;
  kernel_ticks = 9;
  yield_on_return = false;
}

sched-IsQueue : IsQueue sched
sched-IsQueue = record {
  sorted = (tt, tt);
  distinct = (refl, tt);
  blocked = λ t i. ground (arith, i);
}

sched-Inv : Inv sched
sched-Inv = record {
  queues = record {
    queue = sched-IsQueue;
    ready_ok = λ t i. ground (arith, i);
    ready_distinct = (refl, tt);
    idle_not_ready = refl;
    idle_not_asleep = refl;
  };
  runs = refl;
  only = λ t r. ground (arith, r);
}

timer_interrupt-Woken_example :
    (s' : Sched) × (timer_interrupt sched ≡ some s')
    × Woken (9 + 1 + 2 ^ 31) sched.sleeping_threads sched s'
    × IsQueue s'
    × (s'.ticks ≡ 10)
timer_interrupt-Woken_example = timer_interrupt-Woken sched sched-IsQueue refl

no_panic_example :
    (thread_yield sched ≢ none)
    × (thread_block sched ≢ none)
    × (thread_exit sched ≢ none)
    × (timer_interrupt sched ≢ none)
    × ((n : ℕ) → sched.current ≢ sched.idle_thread → timer_sleep n sched ≢ none)
no_panic_example = no_panic sched sched-Inv

abbrev yielded : Sched
yielded = record sched {
  current = 2;
  status = set_status (set_status status 1 Status.ready) 2 Status.running;
  ready_list = 1 ∷ [];
}

yields : thread_yield sched ≡ some yielded
unfolding thread_yield schedule next_thread_to_run thread_schedule_tail thread_current free_dying
yields = refl

Reach-Inv_example : Inv yielded
Reach-Inv_example = Reach-Inv sched-Inv (next here (yield yields))

-- Thread 5 tries for a lock that nobody has used.
abbrev asked : Lock
asked = record lock_init { place = move lock_init.place 5 Place.trying }

asks : lock_acquire 5 lock_init ≡ some asked
unfolding lock_acquire lock_init
asks = refl

at_start : lock_init.place 5 ≡ Place.outside
unfolding lock_init
at_start = refl

mutual_exclusion_example :
    ((t u : ℕ) → is_inside (asked.place t) ≡ true → is_inside (asked.place u) ≡ true → t ≡ u)
    × ((t : ℕ) → is_holder t asked.holder ≡ is_holding (asked.place t))
    × (asked.value ≡ 0 → (t : ℕ) × (is_inside (asked.place t) ≡ true))
    × (asked.value ≡ 1 → 0 < length asked.waiters → (t : ℕ) × (is_trying (asked.place t) ≡ true))
mutual_exclusion_example = mutual_exclusion (step start (acquires 5 at_start asks))
