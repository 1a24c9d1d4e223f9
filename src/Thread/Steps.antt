-- ===== src/Thread/Steps.antt =====
-- Every step of the scheduler keeps its invariant.
use pintos_nightmare.Base.{
  ◌==◌, if◌then◌else◌, Bool-cases, has, Distinct, has-append, Distinct-append_one, Distinct-append,
  ℕ, ◌+◌, ◌^◌, ◌≡◌, refl, sym, ◌∙◌, subst, ◌≢◌, inl, inr, true, false, Option, none, some,
  some-injective, List, [], ◌∷◌, ◌++◌, arith,
}
use pintos_nightmare.Thread.{
  Status, Sleeper, Sched, is_blocked, is_running, set_status, thread_unblock, thread_yield,
  thread_exit, int_key, timer_sleep, timer_interrupt, thread_block, thread_current, IsWaiting, Step,
  yield, sleep, block, exit, wake, tick, Reach, here, next,
}
use pintos_nightmare.Thread.Timer.{
  threads, awake, timer_interrupt-Woken, Sorted-insert, has-insert, Distinct-insert, has-awake,
  has-asleep, Distinct-awake,
}
use pintos_nightmare.Thread.Invariant.{Off, Inv, schedule-Inv}

-- The running thread leaves the CPU in another state, and may be put on one of the queues.
leave :
    (s : Sched)
    → Inv s
    → (st : Status) → is_running st ≡ false
    → (t : ℕ) → is_running (set_status s.status s.current st t) ≡ false
leave s v st h t = ground (arith, v.only t)

not_ready : (s : Sched) → Inv s → has s.current s.ready_list ≡ false
not_ready s v = ground (arith, v.queues.ready_ok s.current, v.runs)

not_asleep : (s : Sched) → Inv s → has s.current (threads s.sleeping_threads) ≡ false
not_asleep s v = ground (arith, v.queues.queue.blocked s.current, v.runs)

-- Marking the running thread as not running, with the queues as they are.
leave-Off :
    (s : Sched) (st : Status)
    → Inv s
    → is_running st ≡ false
    → Off (record s { status = set_status s.status s.current st })
leave-Off s st v h = record {
  queues = record {
    queue = record {
      sorted = v.queues.queue.sorted;
      distinct = v.queues.queue.distinct;
      blocked = λ u i. ground (arith, v.queues.queue.blocked u i, not_asleep s v);
    };
    ready_ok = λ u i. ground (arith, v.queues.ready_ok u i, not_ready s v);
    ready_distinct = v.queues.ready_distinct;
    idle_not_ready = v.queues.idle_not_ready;
    idle_not_asleep = v.queues.idle_not_asleep;
  };
  none_running = leave s v st h;
}

block-Inv : (s : Sched) → Inv s → (s' : Sched) × (thread_block s ≡ some s') × Inv s'
unfolding thread_block thread_current
block-Inv s v = rw v.runs (
    schedule-Inv (record s { status = set_status s.status s.current Status.blocked })
      (leave-Off s Status.blocked v refl))

exit-Inv : (s : Sched) → Inv s → (s' : Sched) × (thread_exit s ≡ some s') × Inv s'
unfolding thread_exit thread_current
exit-Inv s v =
    let o = leave-Off s Status.dying v refl in
    rw v.runs (
      schedule-Inv _ (record {
        queues = record {
          queue = record {
            sorted = o.queues.queue.sorted;
            distinct = o.queues.queue.distinct;
            blocked = o.queues.queue.blocked;
          };
          ready_ok = o.queues.ready_ok;
          ready_distinct = o.queues.ready_distinct;
          idle_not_ready = o.queues.idle_not_ready;
          idle_not_asleep = o.queues.idle_not_asleep;
        };
        none_running = o.none_running;
      }))

abbrev yielded : Sched → Sched
yielded s = record s {
  ready_list = if s.current == s.idle_thread then s.ready_list else s.ready_list ++ s.current ∷ [];
  status = set_status s.status s.current Status.ready;
}

yield-Inv : (s : Sched) → Inv s → (s' : Sched) × (thread_yield s ≡ some s') × Inv s'
unfolding thread_yield thread_current
yield-Inv s v = rw v.runs (
    schedule-Inv (yielded s) (record {
      queues = record {
        queue = record {
          sorted = v.queues.queue.sorted;
          distinct = v.queues.queue.distinct;
          blocked = λ u i. ground (arith, v.queues.queue.blocked u i, not_asleep s v);
        };
        ready_ok =
            λ u i. ground (arith, v.queues.ready_ok u, has-append u s.ready_list (s.current ∷ []));
        ready_distinct = elim (Bool-cases (s.current == s.idle_thread)) [
          | inl e ↦ rw e v.queues.ready_distinct
          | inr e ↦
              rw e
                (Distinct-append_one s.ready_list s.current v.queues.ready_distinct (not_ready s v))
        ];
        idle_not_ready = ground (
          arith,
          v.queues.idle_not_ready,
          has-append s.idle_thread s.ready_list (s.current ∷ []),
        );
        idle_not_asleep = v.queues.idle_not_asleep;
      };
      none_running = leave s v Status.ready refl;
    }))

sleep-Inv :
    (s : Sched) (n : ℕ)
    → Inv s
    → s.current ≢ s.idle_thread
    → (s' : Sched) × (timer_sleep n s ≡ some s') × Inv s'
unfolding timer_sleep thread_block thread_current
sleep-Inv s n v ne =
    let x : Sleeper = record { thread = s.current; wake = int_key (s.ticks + n) } in
    rw v.runs (
      schedule-Inv _ (record {
        queues = record {
          queue = record {
            sorted = Sorted-insert x s.sleeping_threads v.queues.queue.sorted;
            distinct =
                Distinct-insert x s.sleeping_threads v.queues.queue.distinct (not_asleep s v);
            blocked =
                λ u i. ground (arith, v.queues.queue.blocked u, has-insert u x s.sleeping_threads);
          };
          ready_ok = λ u i. ground (arith, v.queues.ready_ok u i, not_ready s v);
          ready_distinct = v.queues.ready_distinct;
          idle_not_ready = v.queues.idle_not_ready;
          idle_not_asleep =
              ground
                (arith, v.queues.idle_not_asleep, has-insert s.idle_thread x s.sleeping_threads);
        };
        none_running = leave s v Status.blocked refl;
      }))

abbrev unblocked : ℕ → Sched → Sched
unblocked t s = record s {
  ready_list = s.ready_list ++ t ∷ [];
  status = set_status s.status t Status.ready;
}

unblocked-Inv :
    (s : Sched) (t : ℕ)
    → Inv s
    → is_blocked (s.status t) ≡ true
    → t ≢ s.idle_thread
    → has t (threads s.sleeping_threads) ≡ false
    → Inv (unblocked t s)
unblocked-Inv s t v b ne out = record {
  queues = record {
    queue = record {
      sorted = v.queues.queue.sorted;
      distinct = v.queues.queue.distinct;
      blocked = λ u i. ground (arith, v.queues.queue.blocked u i);
    };
    ready_ok = λ u i. ground (arith, v.queues.ready_ok u, has-append u s.ready_list (t ∷ []));
    ready_distinct =
        Distinct-append_one s.ready_list t v.queues.ready_distinct
          (ground (arith, v.queues.ready_ok t));
    idle_not_ready =
        ground (arith, v.queues.idle_not_ready, has-append s.idle_thread s.ready_list (t ∷ []));
    idle_not_asleep = v.queues.idle_not_asleep;
  };
  runs = ground (arith, v.runs);
  only = λ u r. ground (arith, v.only u);
}

unblock-Inv :
    (s : Sched) (t : ℕ) {s' : Sched}
    → Inv s
    → thread_unblock t s ≡ some s'
    → t ≢ s.idle_thread
    → has t (threads s.sleeping_threads) ≡ false
    → Inv s'
unfolding thread_unblock
unblock-Inv s t v run ne out = elim (Bool-cases (is_blocked (s.status t))) [
  | inr e ↦ absurd (cc (rw e at run))
  | inl e ↦ subst Inv (some-injective _ _ (rw e at run)) (unblocked-Inv s t v e ne out)
]

tick-Inv : (s : Sched) → Inv s → (s' : Sched) × (timer_interrupt s ≡ some s') × Inv s'
tick-Inv s v =
    let (s', run, w, q, _) = timer_interrupt-Woken s v.queues.queue v.runs in
    let now : ℕ = s.ticks + 1 + 2 ^ 31 in
    let woken : List ℕ = threads (awake now s.sleeping_threads) in
    let asleep_before = λ (t : ℕ). has-awake now t s.sleeping_threads in
    (
      s',
      run,
      record {
        queues = record {
          queue = q;
          ready_ok = λ t i.
              let i' : has t (s.ready_list ++ woken) ≡ true =
                subst (λ l. has t l ≡ true) w.ready i in
              ground (arith, w.status t, has-append t s.ready_list woken, v.queues.ready_ok t);
          ready_distinct = subst Distinct (sym w.ready) (
              Distinct-append s.ready_list woken v.queues.ready_distinct
                (Distinct-awake now s.sleeping_threads v.queues.queue.distinct)
                (λ t i.
                  ground
                    (arith, v.queues.ready_ok t i, asleep_before t, v.queues.queue.blocked t)));
          idle_not_ready =
              rw (w.ready, w.same_idle)
                (ground (
                  arith,
                  has-append s.idle_thread s.ready_list woken,
                  v.queues.idle_not_ready,
                  asleep_before s.idle_thread,
                  v.queues.idle_not_asleep,
                ));
          idle_not_asleep =
              rw (w.sleeping, w.same_idle)
                (ground (
                  arith,
                  has-asleep now s.idle_thread s.sleeping_threads,
                  v.queues.idle_not_asleep,
                ));
        };
        runs = rw w.same_current (
            ground (
              arith,
              w.status s.current,
              v.runs,
              asleep_before s.current,
              v.queues.queue.blocked s.current,
            ));
        only = λ t r. rw w.same_current (ground (arith, w.status t, v.only t));
      },
    )

not_waiting : (t : ℕ) (es : List Sleeper) → IsWaiting t es → has t (threads es) ≡ false
not_waiting t [] h = refl
not_waiting t (e ∷ es) h = ground (arith, not_waiting t es h.1)

same_run : {m : Option Sched} {a b : Sched} → m ≡ some a → Inv a → m ≡ some b → Inv b
same_run p v q = subst Inv (some-injective _ _ (sym p ∙ q)) v

pub Step-Inv : {s t : Sched} → Step s t → Inv s → Inv t
Step-Inv {s} (yield run) v = let (_, e, w) = yield-Inv s v in same_run e w run
Step-Inv {s} (sleep n run ne) v = let (_, e, w) = sleep-Inv s n v ne in same_run e w run
Step-Inv {s} (block run) v = let (_, e, w) = block-Inv s v in same_run e w run
Step-Inv {s} (exit run ne) v = let (_, e, w) = exit-Inv s v in same_run e w run
Step-Inv {s} (wake t run ne out) v = unblock-Inv s t v run ne (not_waiting t s.sleeping_threads out)
Step-Inv {s} (tick run) v = let (_, e, w) = tick-Inv s v in same_run e w run

-- Every state that the kernel can reach from one with the scheduler's invariant has it too: one
-- thread runs, the one on the CPU; the threads of the run queue are ready, those of the sleep
-- queue are blocked, none stands on a queue twice, and the sleep queue is in order of the times
-- to wake.
pub Reach-Inv : {s t : Sched} → Inv s → Reach s t → Inv t
Reach-Inv v here = v
Reach-Inv v (next r st) = Step-Inv st (Reach-Inv v r)

-- While the invariant holds no ASSERT on the states of threads fails when the thread on the CPU
-- yields, blocks, exits or sleeps, or the timer ticks: that of thread_current and of schedule on the
-- thread on the CPU, that of thread_unblock on a thread that is woken, and that of
-- thread_schedule_tail, which never frees the thread that runs.
pub no_panic :
    (s : Sched)
    → Inv s
    → (thread_yield s ≢ none)
      × (thread_block s ≢ none)
      × (thread_exit s ≢ none)
      × (timer_interrupt s ≢ none)
      × ((n : ℕ) → s.current ≢ s.idle_thread → timer_sleep n s ≢ none)
no_panic s v =
    let (_, a, _) = yield-Inv s v in
    let (_, b, _) = block-Inv s v in
    let (_, c, _) = exit-Inv s v in
    let (_, d, _) = tick-Inv s v in
    (
      λ e. cc (sym a ∙ e),
      λ e. cc (sym b ∙ e),
      λ e. cc (sym c ∙ e),
      λ e. cc (sym d ∙ e),
      λ n ne e. let (_, f, _) = sleep-Inv s n v ne in cc (sym f ∙ e),
    )
