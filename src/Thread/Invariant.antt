-- ===== src/Thread/Invariant.antt =====
-- The scheduler's invariant, and that every step keeps it.
use pintos_nightmare.Base.{
  ◌==◌, if◌then◌else◌, Bool-cases, has, Distinct, ℕ, ◌≡◌, refl, sym, subst, ◌⊎◌, inl, inr, true,
  false, not, ◌&&◌, none, some, List, [], ◌∷◌, arith,
}
use pintos_nightmare.Thread.{
  Sched, is_running, is_ready, schedule, next_thread_to_run, thread_schedule_tail, mark_running,
  free_dying, is_dying,
}
use pintos_nightmare.Thread.Timer.{threads, IsQueue}

-- What holds whether or not a thread is on the CPU: the run queue holds ready threads, each
-- once, the sleep queue blocked ones, and the idle thread is on neither.
pub record Queues (s : Sched) : Type 0 where
  pub queue : IsQueue s
  pub ready_ok : (t : ℕ) → has t s.ready_list ≡ true → is_ready (s.status t) ≡ true
  pub ready_distinct : Distinct s.ready_list
  pub idle_not_ready : has s.idle_thread s.ready_list ≡ false
  pub idle_not_asleep : has s.idle_thread (threads s.sleeping_threads) ≡ false

-- Between two threads no thread runs.
pub record Off (s : Sched) : Type 0 where
  pub queues : Queues s
  pub none_running : (t : ℕ) → is_running (s.status t) ≡ false

-- Exactly one thread runs, the one on the CPU.
pub record Inv (s : Sched) : Type 0 where
  pub queues : Queues s
  pub runs : is_running (s.status s.current) ≡ true
  pub only : (t : ℕ) → is_running (s.status t) ≡ true → t ≡ s.current

ready_not_asleep :
    (s : Sched) (t : ℕ)
    → Queues s
    → has t s.ready_list ≡ true
    → has t (threads s.sleeping_threads) ≡ false
ready_not_asleep s t q h = ground (arith, q.ready_ok t h, q.queue.blocked t)

-- The new thread enters the CPU.
enter-Inv :
    (s : Sched) (f : List ℕ) (t : ℕ) (rest : List ℕ)
    → Off s
    → Distinct rest
    → ((u : ℕ) → has u rest ≡ true → has u s.ready_list ≡ true)
    → has t rest ≡ false
    → has t (threads s.sleeping_threads) ≡ false
    → Inv (record (mark_running (record s { current = t; ready_list = rest })) { freed = f })
enter-Inv s f t rest o d sub out awake_ = record {
  queues = record {
    queue = record {
      sorted = o.queues.queue.sorted;
      distinct = o.queues.queue.distinct;
      blocked = λ u i. ground (arith, o.queues.queue.blocked u i);
    };
    ready_ok = λ u i. ground (arith, o.queues.ready_ok u (sub u i));
    ready_distinct = d;
    idle_not_ready = ground (arith, sub s.idle_thread, o.queues.idle_not_ready);
    idle_not_asleep = o.queues.idle_not_asleep;
  };
  runs = ground arith;
  only = λ u r. ground (arith, o.none_running u);
}

-- thread_schedule_tail frees the thread that was left, if it is dying, and never the new one.
tail-Inv :
    (s : Sched) (t : ℕ) (rest : List ℕ)
    → Off s
    → Distinct rest
    → ((u : ℕ) → has u rest ≡ true → has u s.ready_list ≡ true)
    → has t rest ≡ false
    → has t (threads s.sleeping_threads) ≡ false
    → (s' : Sched) × (thread_schedule_tail
          (if s.current == t then none else some s.current)
          (record s { current = t; ready_list = rest })
        ≡ some s')
      × Inv s'
unfolding thread_schedule_tail free_dying
tail-Inv s t rest o d sub out awake_ = elim (Bool-cases (s.current == t)) [
  | inl e ↦ (mark_running n, rw e refl, enter-Inv s s.freed t rest o d sub out awake_)
  | inr e ↦
      elim (Bool-cases
        (is_dying ((mark_running n).status s.current) && not (s.current == s.initial_thread))) [
          | inl dies ↦ (
            record (mark_running n) { freed = s.current ∷ s.freed },
            rw (e, dies, e) refl,
            enter-Inv s (s.current ∷ s.freed) t rest o d sub out awake_,
          )
          | inr stays ↦
              (mark_running n, rw (e, stays) refl, enter-Inv s s.freed t rest o d sub out awake_)
        ]
]
  where
    n : Sched
    n = record s { current = t; ready_list = rest }

-- next_thread_to_run, by the run queue.
next-cases :
    (s : Sched)
    → (s.ready_list ≡ []) × (next_thread_to_run s ≡ (s.idle_thread, []))
      ⊎ ((t : ℕ) × (rest : List ℕ) × (s.ready_list ≡ t ∷ rest) × (next_thread_to_run s ≡ (t, rest)))
unfolding next_thread_to_run
next-cases s = go s.ready_list refl
  where
    go :
        (l : List ℕ)
        → s.ready_list ≡ l
        → (s.ready_list ≡ []) × (next_thread_to_run s ≡ (s.idle_thread, []))
          ⊎ ((t : ℕ) × (rest : List ℕ) × (s.ready_list ≡ t ∷ rest)
              × (next_thread_to_run s ≡ (t, rest)))
    go [] e = inl (e, rw (e, next_thread_to_run) refl)
    go (t ∷ rest) e = inr (t, rest, e, rw (e, next_thread_to_run) refl)

-- From a state with no thread on the CPU schedule succeeds, and one thread runs.
pub schedule-Inv : (s : Sched) → Off s → (s' : Sched) × (schedule s ≡ some s') × Inv s'
unfolding schedule
schedule-Inv s o = elim (next-cases s) [
  | inl (e, n) ↦
      let (s', r, v) = tail-Inv s s.idle_thread [] o tt (λ u i. cc) refl o.queues.idle_not_asleep in
      (s', rw (n, o.none_running s.current) r, v)
  | inr (t, rest, e, n) ↦
      let d : Distinct (t ∷ rest) = subst Distinct e o.queues.ready_distinct in
      let front : has t s.ready_list ≡ true = subst (λ l. has t l ≡ true) (sym e) (ground arith) in
      let (s', r, v) =
        tail-Inv s t rest o d.1 (λ u i. subst (λ l. has u l ≡ true) (sym e) (ground arith)) d.0
          (ready_not_asleep s t o.queues front) in
      (s', rw (n, o.none_running s.current) r, v)
]
