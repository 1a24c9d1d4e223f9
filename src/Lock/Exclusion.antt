-- ===== src/Lock/Exclusion.antt =====
-- A lock is held by one thread at most, and no wake-up is lost.
use pintos_nightmare.Base.{
  ◌==◌, Bool-cases, if_false, if_true, has, Distinct, has-append, Distinct-append_one, length, drop,
  ℕ, ◌+◌, ◌-◌, ◌≤◌, ◌<◌, ◌≡◌, refl, sym, ap, ◌∙◌, subst, inl, inr, Bool, true, false, none, some,
  some-injective, List, [], ◌∷◌, ◌++◌, arith,
}
use pintos_nightmare.Lock.{
  Place, Lock, is_holder, move, lock_init, lock_acquire, sema_down, set_holder, lock_release,
  wake_first, sema_up, lock_try_acquire, Step, acquires, downs, sets, releases, ups, tries, Reach,
  start, step,
}

-- A thread that took the semaphore and has not given it back
abbrev pub is_inside : Place → Bool
is_inside Place.entered = true
is_inside Place.holding = true
is_inside Place.leaving = true
is_inside _ = false

abbrev pub is_holding : Place → Bool
is_holding Place.holding = true
is_holding _ = false

abbrev pub is_waiting : Place → Bool
is_waiting Place.waiting = true
is_waiting _ = false

abbrev pub is_trying : Place → Bool
is_trying Place.trying = true
is_trying _ = false

pub record Inv (l : Lock) : Type 0 where
  pub low : l.value ≤ 1
  pub free : l.value ≡ 1 → (t : ℕ) → is_inside (l.place t) ≡ false
  pub one : (t u : ℕ) → is_inside (l.place t) ≡ true → is_inside (l.place u) ≡ true → t ≡ u
  pub taken : l.value ≡ 0 → (t : ℕ) × (is_inside (l.place t) ≡ true)
  pub queue : (t : ℕ) → has t l.waiters ≡ is_waiting (l.place t)
  pub distinct : Distinct l.waiters
  pub holds : (t : ℕ) → is_holder t l.holder ≡ is_holding (l.place t)
  pub woken : l.value ≡ 1 → 0 < length l.waiters → (t : ℕ) × (is_trying (l.place t) ≡ true)

init-Inv : Inv lock_init
unfolding lock_init
init-Inv = record {
  low = omega arith;
  free = λ e t. refl;
  one = λ t u i j. cc;
  taken = λ e. absurd (omega (arith, e));
  queue = λ t. refl;
  distinct = tt;
  holds = λ t. refl;
  woken = λ e n. absurd (omega (arith, n));
}

module _ (l : Lock) (v : Inv l) (t : ℕ) where
  acquire-Inv : l.place t ≡ Place.outside → Inv (record l { place = move l.place t Place.trying })
  acquire-Inv at = record {
    low = v.low;
    free = λ e u. ground (arith, v.free e u);
    one = λ a b i j. ground (arith, v.one a b);
    taken = λ e. let (u, i) = v.taken e in (u, ground (arith, i, at));
    queue = λ u. ground (arith, v.queue u, at);
    distinct = v.distinct;
    holds = λ u. ground (arith, v.holds u, at);
    woken = λ e n. let (u, i) = v.woken e n in (t, ground arith);
  }

  block-Inv :
      l.place t ≡ Place.trying
      → l.value ≡ 0
      → Inv (record l { waiters = l.waiters ++ t ∷ []; place = move l.place t Place.waiting })
  block-Inv at zero_value = record {
    low = v.low;
    free = λ e u. absurd (omega (arith, e, zero_value));
    one = λ a b i j. ground (arith, v.one a b);
    taken = λ e. let (u, i) = v.taken e in (u, ground (arith, i, at));
    queue = λ u. ground (arith, v.queue u, at, has-append u l.waiters (t ∷ []));
    distinct = Distinct-append_one l.waiters t v.distinct (v.queue t ∙ ap is_waiting at);
    holds = λ u. ground (arith, v.holds u, at);
    woken = λ e n. absurd (omega (arith, e, zero_value));
  }

  -- The thread takes the semaphore.
  enter-Inv :
      is_inside (l.place t) ≡ false
      → is_waiting (l.place t) ≡ false
      → is_holding (l.place t) ≡ false
      → l.value ≡ 1
      → Inv (record l { value = l.value - 1; place = move l.place t Place.entered })
  enter-Inv at notw noth one_value = record {
    low = omega (arith, one_value);
    free = λ e u. absurd (omega (arith, e, one_value));
    one = λ a b i j. ground (arith, v.free one_value a, v.free one_value b);
    taken = λ e. (t, ground arith);
    queue = λ u. ground (arith, v.queue u, notw);
    distinct = v.distinct;
    holds = λ u. ground (arith, v.holds u, noth);
    woken = λ e n. absurd (omega (arith, e, one_value));
  }

  set-Inv : l.place t ≡ Place.entered → Inv (set_holder t l)
  unfolding set_holder
  set-Inv at = record {
    low = v.low;
    free = λ e u. ground (arith, v.free e u, v.free e t, at);
    one = λ a b i j. ground (arith, v.one a b, v.one a t, v.one t b, at);
    taken = λ e. (t, ground arith);
    queue = λ u. ground (arith, v.queue u, at);
    distinct = v.distinct;
    holds = λ u. ground (arith, v.holds u, at, v.one u t);
    woken = λ e n. let (u, i) = v.woken e n in (u, ground (arith, i, at));
  }

  release-Inv :
      l.place t ≡ Place.holding
      → Inv (record l { holder = none; place = move l.place t Place.leaving })
  release-Inv at = record {
    low = v.low;
    free = λ e u. ground (arith, v.free e u, v.free e t, at);
    one = λ a b i j. ground (arith, v.one a b, v.one a t, v.one t b, at);
    taken = λ e. (t, ground arith);
    queue = λ u. ground (arith, v.queue u, at);
    distinct = v.distinct;
    holds = λ u. ground (arith, v.holds u, at, v.one u t);
    woken = λ e n. let (u, i) = v.woken e n in (u, ground (arith, i, at));
  }

full : (l : Lock) → Inv l → (t : ℕ) → is_inside (l.place t) ≡ true → l.value ≡ 0
full l v t inside = elim (Bool-cases (l.value == 1)) [
  | inl one_value ↦ cc (v.free (ground (arith, one_value)) t, inside)
  | inr other ↦ ground (arith, other, v.low)
]

-- sema_up with the waiters `ws`
up_with-Inv :
    (l : Lock)
    → Inv l
    → (t : ℕ) → l.place t ≡ Place.leaving
    → (ws : List ℕ) → l.waiters ≡ ws
    → Inv (record l {
      value = l.value + 1;
      waiters = drop 1 ws;
      place = wake_first ws (move l.place t Place.outside);
    })
up_with-Inv l v t at [] e = record {
  low = subst (λ n. n + 1 ≤ 1) (sym (full l v t (ap is_inside at))) (omega arith);
  free = λ f u. ground (arith, v.one u t, at);
  one = λ a b i j. ground (arith, v.one a b);
  taken = λ f. absurd (omega (arith, f));
  queue = λ u. ground (arith, subst (λ ws. has u ws ≡ is_waiting (l.place u)) e (v.queue u), at);
  distinct = tt;
  holds = λ u. ground (arith, v.holds u, at);
  woken = λ f n. absurd (omega (arith, n));
}
up_with-Inv l v t at (w ∷ ws) e = record {
  low = subst (λ n. n + 1 ≤ 1) (sym (full l v t (ap is_inside at))) (omega arith);
  free = λ f u. ground (arith, v.one u t, at);
  one = λ a b i j. ground (arith, v.one a b);
  taken = λ f. absurd (omega (arith, f));
  queue =
      λ u. ground (arith, subst (λ ws. has u ws ≡ is_waiting (l.place u)) e (v.queue u), d.0, at);
  distinct = d.1;
  holds = λ u.
      ground (arith, v.holds u, at, subst (λ ws. has w ws ≡ is_waiting (l.place w)) e (v.queue w));
  woken = λ f n. (w, ground arith);
}
  where
    d : Distinct (w ∷ ws)
    d = subst Distinct e v.distinct

down-Inv : (l : Lock) → Inv l → (t : ℕ) → l.place t ≡ Place.trying → Inv (sema_down t l)
unfolding sema_down
down-Inv l v t at = elim (Bool-cases (l.value == 0)) [
  | inl none_left ↦
      subst Inv (sym (if_true _ _ none_left)) (block-Inv l v t at (ground (arith, none_left)))
  | inr available ↦ subst Inv (sym (if_false _ _ available)) (
      enter-Inv l v t (ap is_inside at) (ap is_waiting at) (ap is_holding at)
        (ground (arith, available, v.low)))
]

try-Inv :
    (l l' : Lock) (got : Bool) (t : ℕ)
    → Inv l
    → l.place t ≡ Place.outside
    → lock_try_acquire t l ≡ some (l', got)
    → Inv l'
unfolding lock_try_acquire
try-Inv l l' got t v at run = elim (Bool-cases (l.value == 0)) [
  | inl none_left ↦
      subst Inv (ap (λ r. r.0) (some-injective _ _ (rw (not_held, none_left) at run))) v
  | inr available ↦
      subst Inv (ap (λ r. r.0) (some-injective _ _ (rw (not_held, available) at run))) (
        enter-Inv l v t (ap is_inside at) (ap is_waiting at) (ap is_holding at)
          (ground (arith, available, v.low)))
]
  where
    not_held : is_holder t l.holder ≡ false
    not_held = v.holds t ∙ ap is_holding at

Step-Inv : {l l' : Lock} → Inv l → Step l l' → Inv l'
unfolding lock_acquire lock_release
Step-Inv {l = l} v (acquires t at run) =
    subst Inv (some-injective _ _ (rw (v.holds t ∙ ap is_holding at) at run)) (acquire-Inv l v t at)
Step-Inv {l = l} v (downs t at) = down-Inv l v t at
Step-Inv {l = l} v (sets t at) = set-Inv l v t at
Step-Inv {l = l} v (releases t at run) =
    subst Inv (some-injective _ _ (rw (v.holds t ∙ ap is_holding at) at run)) (release-Inv l v t at)
Step-Inv {l = l} v (ups t at) = unfold sema_up in up_with-Inv l v t at l.waiters refl
Step-Inv {l = l} v (tries t at run) = try-Inv l _ _ t v at run

pub Reach-Inv_lock : {l : Lock} → Reach l → Inv l
Reach-Inv_lock start = init-Inv
Reach-Inv_lock (step r s) = Step-Inv (Reach-Inv_lock r) s

-- Whatever the threads do, in whatever order: one thread at most has the lock, from its sema_down
-- to its sema_up; `holder` names just the thread that is between lock_acquire and lock_release; when
-- the semaphore's value is 0 some thread has the lock; and when the value is 1 while threads wait,
-- some thread has been woken and will try again.
pub mutual_exclusion :
    {l : Lock}
    → Reach l
    → ((t u : ℕ) → is_inside (l.place t) ≡ true → is_inside (l.place u) ≡ true → t ≡ u)
      × ((t : ℕ) → is_holder t l.holder ≡ is_holding (l.place t))
      × (l.value ≡ 0 → (t : ℕ) × (is_inside (l.place t) ≡ true))
      × (l.value ≡ 1 → 0 < length l.waiters → (t : ℕ) × (is_trying (l.place t) ≡ true))
mutual_exclusion r = let v = Reach-Inv_lock r in (v.one, v.holds, v.taken, v.woken)
