-- ===== src/Syscall/Pointers.antt =====
-- What the checks of user pointers guarantee, and that the arguments of a system call are fetched
-- from memory that was checked.
use pintos_nightmare.Base.{
  Bool-cases, ℕ, zero, suc, ◌+◌, ◌*◌, ◌%◌, ◌^◌, ◌<◌, ◌≡◌, refl, subst, ◌↔◌, ◌⊎◌, inl, inr, true,
  Option, none, some, List, [], ◌∷◌, arith,
}
use pintos_nightmare.Vaddr.{phys_base}
use pintos_nightmare.Syscall.{
  UserMemory, is_mapped, validate_pointer, validate_from, validate_buffer, validate_set_args,
  int_at, fetch_args, retrive_args1,
}

-- An address that a process may use: not null, below PHYS_BASE, and mapped.
pub record IsUser (mem : UserMemory) (a : ℕ) : Type 0 where
  pub not_null : 0 < a
  pub below : a < phys_base
  pub mapped : (b : ℕ) × (mem a ≡ some b)

validate_pointer-IsUser : (mem : UserMemory) (a : ℕ) → validate_pointer mem a ≡ true → IsUser mem a
unfolding validate_pointer
validate_pointer-IsUser mem a h = record {
  not_null = ground (arith, h);
  below = ground (arith, h);
  mapped = mapped_ (mem a) (ground (arith, h));
}
  where
    mapped_ : (o : Option ℕ) → is_mapped o ≡ true → (b : ℕ) × (o ≡ some b)
    mapped_ none h = cc
    mapped_ (some b) h = (b, refl)

IsUser-validate_pointer : (mem : UserMemory) (a : ℕ) → IsUser mem a → validate_pointer mem a ≡ true
unfolding validate_pointer
IsUser-validate_pointer mem a u =
    let (b, e) = u.mapped in rw e (ground (arith, u.not_null, u.below))

each :
    (mem : UserMemory) (n p : ℕ)
    → validate_from mem n p ≡ true
    → (i : ℕ) → i < n
    → validate_pointer mem ((p + i) % 2 ^ 32) ≡ true
unfolding validate_from
each mem zero p h i l = absurd (omega (arith, l))
each mem (suc n) p h zero l =
    subst (λ q. validate_pointer mem (q % 2 ^ 32) ≡ true) (same p) (ground (arith, h))
  where
    same : (p : ℕ) → p ≡ p + 0
    same p = omega arith
each mem (suc n) p h (suc i) l =
    subst (λ q. validate_pointer mem (q % 2 ^ 32) ≡ true) (shift p i)
      (each mem n (p + 1) (ground (arith, h)) i (omega (arith, l)))
  where
    shift : (p i : ℕ) → p + 1 + i ≡ p + suc i
    shift p i = omega arith

from_each :
    (mem : UserMemory) (n p : ℕ)
    → ((i : ℕ) → i < n → validate_pointer mem ((p + i) % 2 ^ 32) ≡ true)
    → validate_from mem n p ≡ true
unfolding validate_from
from_each mem zero p h = refl
from_each mem (suc n) p h =
    rw
      (
        subst (λ q. validate_pointer mem (q % 2 ^ 32) ≡ true) (same p) (h 0 (omega arith)),
        from_each mem n (p + 1) (λ i l.
            subst (λ q. validate_pointer mem (q % 2 ^ 32) ≡ true) (shift p i)
              (h (suc i) (omega (arith, l)))),
      )
      refl
  where
    same : (p : ℕ) → p + 0 ≡ p
    same p = omega arith

    shift : (p i : ℕ) → p + suc i ≡ p + 1 + i
    shift p i = omega arith

-- A buffer passes validate_buffer just when all its addresses are the user's: below PHYS_BASE, not
-- null and mapped, where an address past the last one of 32 bits is counted from 0 again.
pub validate_buffer_iff :
    (mem : UserMemory) (buffer size : ℕ)
    → (validate_buffer mem buffer size ≡ true)
      ↔ ((i : ℕ) → i < size → IsUser mem ((buffer + i) % 2 ^ 32))
validate_buffer_iff mem buffer size = (
  λ h i l. validate_pointer-IsUser mem _ (each mem size buffer h i l),
  λ h. from_each mem size buffer (λ i l. IsUser-validate_pointer mem _ (h i l)),
)

-- The `n` ints from `a` on
abbrev pub ints : UserMemory → (a n : ℕ) → List ℕ
ints mem a zero = []
ints mem a (suc n) = int_at mem a ∷ ints mem (a + 4) n

fetch_args-ints :
    (mem : UserMemory) (n p : ℕ)
    → validate_pointer mem (p % 2 ^ 32) ≡ true
    → ((i : ℕ) → i < n * 4 → validate_pointer mem ((p + 4 + i) % 2 ^ 32) ≡ true)
    → fetch_args mem n p ≡ some (ints mem (p + 4) n)
unfolding fetch_args
fetch_args-ints mem zero p h args = refl
fetch_args-ints mem (suc n) p h args =
    rw
      (
        h,
        fetch_args-ints mem n (p + 4)
            (subst (λ q. validate_pointer mem (q % 2 ^ 32) ≡ true) (same p) (args 0 (omega arith)))
            (λ i l.
              subst (λ q. validate_pointer mem (q % 2 ^ 32) ≡ true) (shift p i)
                (args (4 + i) (omega (arith, l)))),
      )
      refl
  where
    same : (p : ℕ) → p + 4 + 0 ≡ p + 4
    same p = omega arith

    shift : (p i : ℕ) → p + 4 + (4 + i) ≡ p + 4 + 4 + i
    shift p i = omega arith

pub retrive_args1-ints :
    (mem : UserMemory) (esp argc : ℕ)
    → validate_buffer mem esp (suc argc * 4) ≡ true
    → (validate_buffer mem esp 4 ≡ true)
      × (retrive_args1 mem esp argc ≡ some (ints mem (esp + 4) argc))
unfolding retrive_args1
retrive_args1-ints mem esp argc valid = (
  from_each mem 4 esp (λ i l. all i (omega (arith, l))),
  rw (from_each mem (argc * 4) (esp + 4) args, fetch_args-ints mem argc esp number args) refl,
)
  where
    all : (i : ℕ) → i < suc argc * 4 → validate_pointer mem ((esp + i) % 2 ^ 32) ≡ true
    all = each mem (suc argc * 4) esp valid

    args : (i : ℕ) → i < argc * 4 → validate_pointer mem ((esp + 4 + i) % 2 ^ 32) ≡ true
    args i l =
        subst (λ q. validate_pointer mem (q % 2 ^ 32) ≡ true) (omega arith)
          (all (4 + i) (omega (arith, l)))

    number : validate_pointer mem (esp % 2 ^ 32) ≡ true
    number =
        subst (λ q. validate_pointer mem (q % 2 ^ 32) ≡ true) (omega arith) (all 0 (omega arith))

-- After the handler has checked the system call's number, fetching its arguments yields the ints
-- above it on the user's stack when each of their bytes is the user's, and ends the process when
-- one of them is not.
pub retrive_args1-cases :
    (mem : UserMemory) (esp argc : ℕ)
    → validate_buffer mem esp 4 ≡ true
    → ((retrive_args1 mem esp argc ≡ some (ints mem (esp + 4) argc))
        × ((i : ℕ) → i < argc * 4 → IsUser mem ((esp + 4 + i) % 2 ^ 32)))
      ⊎ ((retrive_args1 mem esp argc ≡ none)
          × ¬ ((i : ℕ) → i < argc * 4 → IsUser mem ((esp + 4 + i) % 2 ^ 32)))
unfolding retrive_args1
retrive_args1-cases mem esp argc number = elim (Bool-cases (validate_set_args mem (esp + 4) argc)) [
  | inl good ↦
      let args = each mem (argc * 4) (esp + 4) good in
      inl (
        rw (good, fetch_args-ints mem argc esp first args) refl,
        λ i l. validate_pointer-IsUser mem _ (args i l),
      )
  | inr bad ↦ inr (
    rw bad refl,
    λ all.
        cc (
          bad,
          from_each mem (argc * 4) (esp + 4) (λ i l. IsUser-validate_pointer mem _ (all i l)),
        ),
  )
]
  where
    first : validate_pointer mem (esp % 2 ^ 32) ≡ true
    first =
        subst (λ q. validate_pointer mem (q % 2 ^ 32) ≡ true) (omega arith)
          (each mem 4 esp number 0 (omega arith))
