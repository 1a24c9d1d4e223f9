-- ===== src/Thread/Timer.antt =====
-- The sleep queue: timer_sleep keeps it in order of the times to wake, and timer_interrupt wakes
-- exactly the threads whose time has come.
use pintos_nightmare.Base.{
  ltb, leb, ◌==◌, if◌then◌else◌, ltb→lt, Bool-cases, leb_false→lt, has, Distinct, ℕ, ◌+◌, ◌^◌, ◌≤◌,
  ◌<◌, ◌≡◌, refl, sym, ap, ◌∙◌, subst, inl, inr, true, false, ◌||◌, some, List, [], ◌∷◌, ◌++◌,
  append-nil, append_assoc, arith,
}
use pintos_nightmare.Thread.{
  Status, Sleeper, Sched, is_blocked, set_status, thread_tick, thread_unblock, list_insert_ordered,
  wake_loop, timer_interrupt, thread_current, count_tick, is_running,
}

abbrev pub threads : List Sleeper → List ℕ
threads [] = []
threads (e ∷ es) = e.thread ∷ threads es

-- No sleeper of the list wakes before `w`.
abbrev pub NoneBefore : ℕ → List Sleeper → Type 0
NoneBefore w [] = Unit
NoneBefore w (e ∷ es) = (w ≤ e.wake) × NoneBefore w es

abbrev pub Sorted : List Sleeper → Type 0
Sorted [] = Unit
Sorted (e ∷ es) = NoneBefore e.wake es × Sorted es

-- The sleepers whose time has come at `now`, and the others, in their order.
pub awake : ℕ → List Sleeper → List Sleeper
awake now [] = []
awake now (e ∷ es) = let rest = awake now es in if leb e.wake now then e ∷ rest else rest

pub asleep : ℕ → List Sleeper → List Sleeper
asleep now [] = []
asleep now (e ∷ es) = let rest = asleep now es in if leb e.wake now then rest else e ∷ rest

pub record IsQueue (s : Sched) : Type 0 where
  pub sorted : Sorted s.sleeping_threads
  pub distinct : Distinct (threads s.sleeping_threads)
  pub blocked : (t : ℕ) → has t (threads s.sleeping_threads) ≡ true → is_blocked (s.status t) ≡ true

-- The wake-up of the sleepers `es` that are due at `now`.
pub record Woken (now : ℕ) (es : List Sleeper) (s s' : Sched) : Type 0 where
  pub sleeping : s'.sleeping_threads ≡ asleep now es
  pub ready : s'.ready_list ≡ s.ready_list ++ threads (awake now es)
  pub status :
      (t : ℕ) → s'.status t ≡ (if has t (threads (awake now es)) then Status.ready else s.status t)
  pub same_current : s'.current ≡ s.current
  pub same_idle : s'.idle_thread ≡ s.idle_thread

NoneBefore-weaken : (v w : ℕ) (es : List Sleeper) → v ≤ w → NoneBefore w es → NoneBefore v es
NoneBefore-weaken v w [] h n = tt
NoneBefore-weaken v w (e ∷ es) h n = (omega arith, NoneBefore-weaken v w es h n.1)

awake-nil : (now w : ℕ) (es : List Sleeper) → now < w → NoneBefore w es → awake now es ≡ []
unfolding awake
awake-nil now w [] h n = refl
awake-nil now w (e ∷ es) h n = ground (arith, awake-nil now w es h n.1)

asleep-all : (now w : ℕ) (es : List Sleeper) → now < w → NoneBefore w es → asleep now es ≡ es
unfolding asleep
asleep-all now w [] h n = refl
asleep-all now w (e ∷ es) h n = ground (arith, asleep-all now w es h n.1)

wake_loop-Woken :
    (es : List Sleeper) (s : Sched)
    → Sorted es
    → Distinct (threads es)
    → ((t : ℕ) → has t (threads es) ≡ true → is_blocked (s.status t) ≡ true)
    → (s' : Sched) × (wake_loop es s ≡ some s')
      × Woken (s.ticks + 2 ^ 31) es s s'
      × (s'.ticks ≡ s.ticks)
unfolding wake_loop awake asleep thread_unblock
wake_loop-Woken [] s sorted distinct blocked = (
  record s { sleeping_threads = [] },
  refl,
  record {
    sleeping = refl;
    ready = sym (append-nil s.ready_list);
    status = λ t. refl;
    same_current = refl;
    same_idle = refl;
  },
  refl,
)
wake_loop-Woken (e ∷ es) s sorted distinct blocked =
    elim (Bool-cases (leb e.wake (s.ticks + 2 ^ 31))) [
      | inr late ↦ (
        record s { sleeping_threads = e ∷ es },
        rw late,
        record {
          sleeping =
              rw late (ap (◌∷◌ e) (sym (asleep-all _ e.wake es (leb_false→lt _ _ late) sorted.0)));
          ready =
              rw (late, awake-nil _ e.wake es (leb_false→lt _ _ late) sorted.0)
                (sym (append-nil s.ready_list));
          status = λ t. rw (late, awake-nil _ e.wake es (leb_false→lt _ _ late) sorted.0) refl;
          same_current = refl;
          same_idle = refl;
        },
        refl,
      )
      | inl due ↦
          let s₁ : Sched = record s {
            sleeping_threads = es;
            ready_list = s.ready_list ++ e.thread ∷ [];
            status = set_status s.status e.thread Status.ready;
          } in
          let (s', run, w, same) =
            wake_loop-Woken es s₁ sorted.1 distinct.1
              (λ t i. ground (arith, blocked t, distinct.0)) in
          (
            s',
            rw (due, unblocked) run,
            record {
              sleeping = rw due w.sleeping;
              ready = rw due (w.ready ∙ append_assoc s.ready_list (e.thread ∷ []) _);
              status = λ t. rw due (w.status t ∙ ground arith);
              same_current = w.same_current;
              same_idle = w.same_idle;
            },
            same,
          )
    ]
  where
    unblocked :
        thread_unblock e.thread (record s { sleeping_threads = es })
        ≡ some (record s {
          sleeping_threads = es;
          ready_list = s.ready_list ++ e.thread ∷ [];
          status = set_status s.status e.thread Status.ready;
        })
    unblocked = rw (blocked e.thread (ground arith))

pub has-awake :
    (now t : ℕ) (es : List Sleeper)
    → has t (threads (awake now es)) ≡ true
    → has t (threads es) ≡ true
unfolding awake
has-awake now t [] h = h
has-awake now t (e ∷ es) h = ground (arith, has-awake now t es)

pub has-asleep :
    (now t : ℕ) (es : List Sleeper)
    → has t (threads (asleep now es)) ≡ true
    → has t (threads es) ≡ true
unfolding asleep
has-asleep now t [] h = h
has-asleep now t (e ∷ es) h = ground (arith, has-asleep now t es)

pub Distinct-awake :
    (now : ℕ) (es : List Sleeper) → Distinct (threads es) → Distinct (threads (awake now es))
unfolding awake
Distinct-awake now [] n = tt
Distinct-awake now (e ∷ es) n = ground (arith, has-awake now e.thread es, Distinct-awake now es n.1)

-- No thread is both awake and asleep.
awake-asleep_apart :
    (now t : ℕ) (es : List Sleeper)
    → Distinct (threads es)
    → has t (threads (asleep now es)) ≡ true
    → has t (threads (awake now es)) ≡ false
unfolding awake asleep
awake-asleep_apart now t [] d h = refl
awake-asleep_apart now t (e ∷ es) d h =
    ground (arith, awake-asleep_apart now t es, has-awake now t es, has-asleep now t es, d.0)

NoneBefore-asleep : (w now : ℕ) (es : List Sleeper) → NoneBefore w es → NoneBefore w (asleep now es)
unfolding asleep
NoneBefore-asleep w now [] n = tt
NoneBefore-asleep w now (e ∷ es) n = ground (arith, NoneBefore-asleep w now es n.1)

Sorted-asleep : (now : ℕ) (es : List Sleeper) → Sorted es → Sorted (asleep now es)
unfolding asleep
Sorted-asleep now [] n = tt
Sorted-asleep now (e ∷ es) n =
    ground (arith, NoneBefore-asleep e.wake now es n.0, Sorted-asleep now es n.1)

Distinct-asleep :
    (now : ℕ) (es : List Sleeper) → Distinct (threads es) → Distinct (threads (asleep now es))
unfolding asleep
Distinct-asleep now [] n = tt
Distinct-asleep now (e ∷ es) n =
    ground (arith, has-asleep now e.thread es, Distinct-asleep now es n.1)

-- At each tick, while the thread on the CPU has the state of a running one, timer_interrupt takes off the sleep queue exactly the threads whose time to wake has
-- come, puts them on the run queue in the order of the sleep queue, makes them ready, and leaves
-- every other thread's state and the thread on the CPU alone; the sleep queue stays in order.
pub timer_interrupt-Woken :
    (s : Sched)
    → IsQueue s
    → is_running (s.status s.current) ≡ true
    → (s' : Sched) × (timer_interrupt s ≡ some s')
      × Woken (s.ticks + 1 + 2 ^ 31) s.sleeping_threads s s'
      × IsQueue s'
      × (s'.ticks ≡ s.ticks + 1)
unfolding timer_interrupt thread_tick thread_current
timer_interrupt-Woken s q running =
    let s₁ = count_tick s.current (record s { ticks = s.ticks + 1 }) in
    let (s', run, w, same) = wake_loop-Woken s.sleeping_threads s₁ q.sorted q.distinct q.blocked in
    let now : ℕ = s.ticks + 1 + 2 ^ 31 in
    (
      s',
      rw running run,
      record {
        sleeping = w.sleeping;
        ready = w.ready;
        status = w.status;
        same_current = w.same_current;
        same_idle = w.same_idle;
      },
      record {
        sorted = subst Sorted (sym w.sleeping) (Sorted-asleep now s.sleeping_threads q.sorted);
        distinct =
            subst (λ l. Distinct (threads l)) (sym w.sleeping)
              (Distinct-asleep now s.sleeping_threads q.distinct);
        blocked = λ t i.
            let in_queue : has t (threads (asleep now s.sleeping_threads)) ≡ true =
              subst (λ l. has t (threads l) ≡ true) w.sleeping i in
            ground (
              arith,
              w.status t,
              q.blocked t (has-asleep now t s.sleeping_threads in_queue),
              awake-asleep_apart now t s.sleeping_threads q.distinct in_queue,
            );
      },
      same,
    )

NoneBefore-insert :
    (w : ℕ) (x : Sleeper) (es : List Sleeper)
    → w ≤ x.wake
    → NoneBefore w es
    → NoneBefore w (list_insert_ordered x es)
unfolding list_insert_ordered
NoneBefore-insert w x [] h n = (h, tt)
NoneBefore-insert w x (e ∷ es) h n = ground (arith, NoneBefore-insert w x es h n.1)

-- list_insert_ordered keeps a sleep queue in order.
pub Sorted-insert :
    (x : Sleeper) (es : List Sleeper) → Sorted es → Sorted (list_insert_ordered x es)
unfolding list_insert_ordered
Sorted-insert x [] n = (tt, tt)
Sorted-insert x (e ∷ es) n = elim (Bool-cases (ltb x.wake e.wake)) [
  | inl lt ↦ rw lt (
    (
      omega (arith, ltb→lt x.wake e.wake lt),
      NoneBefore-weaken x.wake e.wake es (omega (arith, ltb→lt x.wake e.wake lt)) n.0,
    ),
    n,
  )
  | inr ge ↦ rw ge (NoneBefore-insert e.wake x es (ground arith) n.0, Sorted-insert x es n.1)
]

pub has-insert :
    (t : ℕ) (x : Sleeper) (es : List Sleeper)
    → has t (threads (list_insert_ordered x es)) ≡ ((x.thread == t) || has t (threads es))
unfolding list_insert_ordered
has-insert t x [] = refl
has-insert t x (e ∷ es) = ground (arith, has-insert t x es)

pub Distinct-insert :
    (x : Sleeper) (es : List Sleeper)
    → Distinct (threads es)
    → has x.thread (threads es) ≡ false
    → Distinct (threads (list_insert_ordered x es))
unfolding list_insert_ordered
Distinct-insert x [] d h = (refl, tt)
Distinct-insert x (e ∷ es) d h = ground (arith, has-insert e.thread x es, Distinct-insert x es d.1)
