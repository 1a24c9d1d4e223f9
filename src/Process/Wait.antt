-- ===== src/Process/Wait.antt =====
-- What process_wait and process_execute report, in every order of the parent and the child.
use pintos_nightmare.Base.{
  if◌then◌else◌, Bool-cases, if_false, ℕ, ◌+◌, ◌<◌, ◌≡◌, refl, ap, ◌∙◌, ◌≢◌, inl, inr, Bool, true,
  false, Option, none, some, some-injective, List, [], ◌∷◌, arith, xor,
}
use pintos_nightmare.Process.{
  minus_one, SharedMem, Process, new_shared_mem, start_process, leave_parent, exit, execute_resume,
  is_child, find_child, update_child, Waiting, returned, blocked, mark_waited, wait_for,
  process_wait, take_wait, resume_with, wait_resume, child_exits,
}

-- The child's part of starting: it loads, and may exit before the parent goes on.
abbrev pub child_runs : (success exited : Bool) → (status : ℕ) → SharedMem → SharedMem
child_runs success true status sm = exit status (start_process success sm)
child_runs success false status sm = start_process success sm

-- What process_execute returns depends on whether the child has ended when the parent goes on:
-- the child's tid when the child was loaded and still runs, or failed to load and has ended
-- already, and TID_ERROR when it failed to load and has not ended yet, or was loaded and has ended
-- already. It never blocks once the child has tried to load.
pub execute_resume-child_runs :
    (tid status : ℕ) (success exited garbage : Bool) (children : List SharedMem)
    → (children' : List SharedMem) × (execute_resume tid
          (child_runs success exited status (new_shared_mem garbage))
          children
        ≡ some (children', if xor success exited then some tid else none))
unfolding execute_resume start_process new_shared_mem exit leave_parent xor
execute_resume-child_runs tid status true true garbage children = (_, refl)
execute_resume-child_runs tid status true false garbage children = (_, refl)
execute_resume-child_runs tid status false true garbage children = (_, refl)
execute_resume-child_runs tid status false false garbage children = (_, refl)

find-update :
    (f : SharedMem → SharedMem) (tid : ℕ) (l : List SharedMem) {sm : SharedMem}
    → ((m : SharedMem) → (f m).child_tid ≡ m.child_tid)
    → find_child tid l ≡ some sm
    → find_child tid (update_child f tid l) ≡ some (f sm)
unfolding find_child update_child
find-update f tid [] keep h = cc
find-update f tid (m ∷ l) keep h = elim (Bool-cases (is_child tid m.child_tid)) [
  | inl e ↦
      rw (e, ap (is_child tid) (keep m), e) (ap (λ o. some (f o)) (some-injective _ _ (rw e at h)))
  | inr e ↦ rw (e, e) (find-update f tid l keep (rw e at h))
]

keep_tid : (status : ℕ) (m : SharedMem) → (exit status m).child_tid ≡ m.child_tid
unfolding exit leave_parent
keep_tid status m = ground arith

-- The exit of a live child, as its parent finds it
record Exited (status : ℕ) (before after : SharedMem) : Type 0 where
  status_ok : after.exit_status ≡ status
  alive_ok : after.alive_count ≡ 1
  sema_ok : after.sema_wait ≡ before.sema_wait + 1
  waited_ok : after.waited ≡ before.waited

exit-Exited : (status : ℕ) (m : SharedMem) → m.alive_count ≡ 2 → Exited status m (exit status m)
unfolding exit leave_parent
exit-Exited status m h = record {
  status_ok = ground arith;
  alive_ok = ground (arith, h);
  sema_ok = ground (arith, h);
  waited_ok = ground arith;
}

waits-found :
    (tid : ℕ) (p : Process) {sm : SharedMem} {r : Process × Waiting}
    → p.waiting ≡ false
    → find_child tid p.child_relations ≡ some sm
    → wait_for tid (some sm) p ≡ r
    → process_wait (some tid) p ≡ r
unfolding process_wait
waits-found tid p idle found h = if_false _ _ idle ∙ ap (λ o. wait_for tid o p) found ∙ h

resumes-found :
    (tid : ℕ) (p : Process) {sm : SharedMem} {r : Option (Process × ℕ)}
    → find_child tid p.child_relations ≡ some sm
    → resume_with tid (some sm) p ≡ r
    → wait_resume tid p ≡ r
unfolding wait_resume
resumes-found tid p found h = ap (λ o. resume_with tid o p) found ∙ h

resumes :
    (tid : ℕ) (m : SharedMem) (p : Process)
    → 0 < m.sema_wait
    → resume_with tid (some m) p
      ≡ some (
        record p {
          waiting = false;
          child_relations = update_child take_wait tid p.child_relations;
        },
        m.exit_status,
      )
unfolding resume_with
resumes tid m p h = ground (arith, h)

module _ (tid status : ℕ) (sm : SharedMem) (p : Process)
    (child : find_child tid p.child_relations ≡ some sm) (idle : p.waiting ≡ false)
    (new : sm.waited ≡ false) (alive : sm.alive_count ≡ 2) (quiet : sm.sema_wait ≡ 0) where
  marked : Process
  marked = record p {
    waiting = true;
    child_relations = update_child mark_waited tid p.child_relations;
  }

  starts : wait_for tid (some sm) p ≡ (marked, blocked)
  starts = unfold wait_for marked in ground (arith, new, alive)

  seen : find_child tid marked.child_relations ≡ some (mark_waited sm)
  seen = unfold marked in find-update mark_waited tid p.child_relations (λ m. refl) child

  still : wait_resume tid marked ≡ none
  still = resumes-found tid marked seen (unfold resume_with in ground (arith, quiet))

  gone : SharedMem
  gone = exit status (mark_waited sm)

  facts : Exited status (mark_waited sm) gone
  facts = unfold gone in exit-Exited status (mark_waited sm) alive

  after : Process
  after = child_exits tid status marked

  found : find_child tid after.child_relations ≡ some gone
  found =
      unfold after gone child_exits in
      find-update (exit status) tid marked.child_relations (keep_tid status) seen

  one : 0 < gone.sema_wait
  one = omega (arith, facts.sema_ok)

  ended : Process
  ended = record after {
    waiting = false;
    child_relations = update_child take_wait tid after.child_relations;
  }

  again : find_child tid ended.child_relations ≡ some (take_wait gone)
  again = unfold ended in find-update take_wait tid after.child_relations (λ m. refl) found

  refused : wait_for tid (some (take_wait gone)) ended ≡ (ended, returned minus_one)
  refused = unfold wait_for in ground (arith, facts.waited_ok)

  -- A parent that waits for a live child blocks, and goes on blocking, until the child exits; then
  -- it gets the status that the child exited with, and a further wait for that child returns -1.
  pub wait-exits :
      (p₁ : Process) × (process_wait (some tid) p ≡ (p₁, blocked))
      × (wait_resume tid p₁ ≡ none)
      × ((p₂ : Process) × (wait_resume tid (child_exits tid status p₁) ≡ some (p₂, status))
          × (process_wait (some tid) p₂ ≡ (p₂, returned minus_one)))
  unfolding child_exits after ended
  wait-exits = (
    marked,
    waits-found tid p idle child starts,
    still,
    (
      ended,
      resumes-found tid after found (resumes tid gone after one)
          ∙ ap (λ s. some (ended, s)) facts.status_ok,
      waits-found tid ended refl again refused,
    ),
  )

  unwaited : Process
  unwaited = child_exits tid status p

  not_waiting : unwaited.waiting ≡ false
  not_waiting = unfold unwaited child_exits in idle

  live : Exited status sm (exit status sm)
  live = exit-Exited status sm alive

  found_exited : find_child tid unwaited.child_relations ≡ some (exit status sm)
  found_exited =
      unfold unwaited child_exits in
      find-update (exit status) tid p.child_relations (keep_tid status) child

  at_once : wait_for tid (some (exit status sm)) unwaited ≡ (unwaited, returned status)
  at_once = unfold wait_for in ground (arith, live.waited_ok, new, live.alive_ok, live.status_ok)

  waits : process_wait (some tid) unwaited ≡ (unwaited, returned status)
  waits = waits-found tid unwaited not_waiting found_exited at_once

  -- A wait that comes after the child exited returns its status at once; it leaves no mark, so a
  -- further wait returns the status once more.
  pub wait_twice-exits :
      process_wait (some tid) (child_exits tid status p)
      ≡ (child_exits tid status p, returned status)
  unfolding unwaited
  wait_twice-exits = waits

-- The exits of other children: the thread and the status of each
abbrev pub others_exit : List (ℕ × ℕ) → Process → Process
others_exit [] p = p
others_exit ((tid, status) ∷ l) p = others_exit l (child_exits tid status p)

-- None of them is child `tid`.
abbrev pub NoneIs : ℕ → List (ℕ × ℕ) → Type 0
NoneIs tid [] = Unit
NoneIs tid ((t, status) ∷ l) = (t ≢ tid) × NoneIs tid l
