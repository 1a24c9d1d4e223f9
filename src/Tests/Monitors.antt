-- ===== src/Tests/Monitors.antt =====
-- Condition variables at concrete inputs.
use pintos_nightmare.Base.{
  ◌==◌, if◌then◌else◌, has, ◌>>=◌, ℕ, ◌≡◌, refl, true, false, some, [], ◌∷◌, ◌++◌,
}
use pintos_nightmare.Condition.{
  Condition, cond_wait, wait_down, sema_up, cond_signal, cond_broadcast,
}
use pintos_nightmare.Condition.Signal.{blocked, cond_broadcast-wakes}

-- Thread 4 holds the lock; threads 1 and 3 have blocked, thread 2 is about to.
abbrev three : Condition
three = record {
  holder = some 4;
  waiters = 1 ∷ 2 ∷ 3 ∷ [];
  semaphore = λ t. record { value = 0; waiters = if t == 2 then [] else t ∷ [] };
  unblocked = [];
}

cond_broadcast-wakes_example :
    (c' : Condition) × (cond_broadcast 4 three ≡ some c')
    × (c'.waiters ≡ [])
    × (c'.holder ≡ some 4)
    × (c'.unblocked ≡ [] ++ blocked three.semaphore three.waiters)
    × ((u : ℕ) → has u three.waiters ≡ true → (wait_down u c').1 ≡ false)
    × ((u : ℕ) → has u three.waiters ≡ false → c'.semaphore u ≡ three.semaphore u)
cond_broadcast-wakes_example = cond_broadcast-wakes 4 three refl (refl, (refl, (refl, tt)))

-- A signal wakes the thread that came first.
one_signal : (cond_signal 4 three >>= λ c. some (c.unblocked ++ c.waiters)) ≡ some (1 ∷ 2 ∷ 3 ∷ [])
unfolding cond_signal sema_up
one_signal = refl

-- Thread 4 waits too and gives up the lock.
waits : (cond_wait 4 three >>= λ c. some c.waiters) ≡ some (1 ∷ 2 ∷ 3 ∷ 4 ∷ [])
unfolding cond_wait
waits = refl
