-- ===== src/UserStack/Layout.antt =====
-- What push_args leaves on the stack.
use pintos_nightmare.Base.{
  length, length-append, ℕ, suc, ◌+◌, ◌*◌, ◌%◌, ◌^◌, ◌≤◌, ◌<◌, ◌≡◌, refl, sym, ap, ◌∙◌, subst, ◌⊎◌,
  inr, some, List, [], ◌∷◌, ◌++◌, arith,
}
use pintos_nightmare.Text.{poke}
use pintos_nightmare.UserStack.{
  Stack, write_bytes, push_bytes, word, push_strings, align, push_words, push_frame, push_args,
}

-- The bytes at an address
abbrev pub Holds : (ℕ → ℕ) → ℕ → List ℕ → Type 0
Holds mem at [] = Unit
Holds mem at (b ∷ bs) = (mem at ≡ b) × Holds mem (at + 1) bs

-- The bytes of words, one after the other
abbrev pub words : List ℕ → List ℕ
words [] = []
words (w ∷ ws) = word w ++ words ws

-- A stack that has grown, and is as before above the old stack pointer
pub record Grows (s s' : Stack) (n : ℕ) : Type 0 where
  pub down : s'.esp + n ≡ s.esp
  pub kept : (k : ℕ) → s.esp ≤ k → s'.mem k ≡ s.mem k

Holds-congr :
    (mem mem' : ℕ → ℕ) (at : ℕ) (bs : List ℕ)
    → ((k : ℕ) → at ≤ k → mem' k ≡ mem k)
    → Holds mem at bs
    → Holds mem' at bs
Holds-congr mem mem' at [] e h = tt
Holds-congr mem mem' at (b ∷ bs) e (h, r) =
    (e at (omega arith) ∙ h, Holds-congr mem mem' (at + 1) bs (λ k l. e k (omega (arith, l))) r)

Holds-append :
    (mem : ℕ → ℕ) (at : ℕ) (xs ys : List ℕ)
    → Holds mem at xs
    → Holds mem (at + length xs) ys
    → Holds mem at (xs ++ ys)
Holds-append mem at [] ys h r = subst (λ (a : ℕ). Holds mem a ys) (omega arith) r
Holds-append mem at (x ∷ xs) ys (e, h) r =
    (e, Holds-append mem (at + 1) xs ys h (subst (λ (a : ℕ). Holds mem a ys) (omega arith) r))

write_bytes-outside :
    (mem : ℕ → ℕ) (at : ℕ) (bs : List ℕ) (k : ℕ)
    → (k < at) ⊎ (at + length bs ≤ k)
    → write_bytes mem at bs k ≡ mem k
unfolding write_bytes
write_bytes-outside mem at [] k o = refl
write_bytes-outside mem at (b ∷ bs) k o =
    ground (arith, write_bytes-outside (poke mem at b) (at + 1) bs k, o)

write_bytes-Holds : (mem : ℕ → ℕ) (at : ℕ) (bs : List ℕ) → Holds (write_bytes mem at bs) at bs
unfolding write_bytes
write_bytes-Holds mem at [] = tt
write_bytes-Holds mem at (b ∷ bs) = (
  ground (arith, write_bytes-outside (poke mem at b) (at + 1) bs at),
  write_bytes-Holds (poke mem at b) (at + 1) bs,
)

module _ (s : Stack) (bs : List ℕ) (room : length bs ≤ s.esp) (small : s.esp < 2 ^ 32) where
  at_lower : (push_bytes bs s).esp + length bs ≡ s.esp
  unfolding push_bytes
  at_lower = omega (arith, room, small)

  push_bytes-Grows : Grows s (push_bytes bs s) (length bs)
  push_bytes-Grows = record {
    down = at_lower;
    kept = λ k l. ground (arith, outside k, at_lower, l);
  }
    where
      outside : (k : ℕ) → (push_bytes bs s).esp + length bs ≤ k → (push_bytes bs s).mem k ≡ s.mem k
      outside k l =
          unfold push_bytes in write_bytes-outside s.mem _ bs k (inr (unfold push_bytes in l))

  push_bytes-Holds : Holds (push_bytes bs s).mem (push_bytes bs s).esp bs
  unfolding push_bytes
  push_bytes-Holds = write_bytes-Holds s.mem _ bs

Grows-trans : (s₁ s₂ s₃ : Stack) {m n : ℕ} → Grows s₁ s₂ m → Grows s₂ s₃ n → Grows s₁ s₃ (m + n)
Grows-trans s₁ s₂ s₃ g h = record {
  down = omega (arith, g.down, h.down);
  kept = λ k l. h.kept k (omega (arith, l, g.down)) ∙ g.kept k l;
}

-- What stands above the old stack pointer is still there.
Holds-Grows :
    (s s' : Stack) {n : ℕ} (at : ℕ) (bs : List ℕ)
    → Grows s s' n
    → s.esp ≤ at
    → Holds s.mem at bs
    → Holds s'.mem at bs
Holds-Grows s s' at bs g l = Holds-congr s.mem s'.mem at bs (λ k h. g.kept k (omega (arith, l, h)))

exact : (s s' : Stack) {m n : ℕ} → Grows s s' m → m ≡ n → Grows s s' n
exact s s' g e = record { down = omega (arith, g.down, e); kept = g.kept }

-- Bytes pushed onto what a stack has at its pointer
push_onto :
    (s s₁ : Stack) (n : ℕ) (bs rest : List ℕ)
    → Grows s s₁ n
    → length bs + n ≤ s.esp
    → s.esp < 2 ^ 32
    → Holds s₁.mem s₁.esp rest
    → Grows s (push_bytes bs s₁) (n + length bs)
      × Holds (push_bytes bs s₁).mem (push_bytes bs s₁).esp (bs ++ rest)
push_onto s s₁ n bs rest g room small h =
    let fits : length bs ≤ s₁.esp = omega (arith, g.down, room) in
    let below : s₁.esp < 2 ^ 32 = omega (arith, g.down, small) in
    let p = push_bytes-Grows s₁ bs fits below in
    let at = Holds-Grows s₁ (push_bytes bs s₁) s₁.esp rest p (omega arith) h in
    (
      Grows-trans s s₁ _ g p,
      Holds-append (push_bytes bs s₁).mem (push_bytes bs s₁).esp bs rest
          (push_bytes-Holds s₁ bs fits below)
          (subst (λ (a : ℕ). Holds (push_bytes bs s₁).mem a rest) (sym p.down) at),
    )

-- The bytes of the arguments with their null bytes
abbrev pub size : List (List ℕ) → ℕ
size [] = 0
size (arg ∷ argv) = length (arg ++ 0 ∷ []) + size argv

-- Each argument stands, with its null byte, at its address, which is not below `low`.
abbrev pub AllAt : (ℕ → ℕ) → (low : ℕ) → List (List ℕ) → List ℕ → Type 0
AllAt mem low [] [] = Unit
AllAt mem low (arg ∷ argv) (a ∷ addrs) =
    (low ≤ a) × Holds mem a (arg ++ 0 ∷ []) × AllAt mem low argv addrs
AllAt mem low _ _ = ⊥

AllAt-Grows :
    (s s' : Stack) {n : ℕ} (argv : List (List ℕ)) (addrs : List ℕ)
    → Grows s s' n
    → AllAt s.mem s.esp argv addrs
    → AllAt s'.mem s'.esp argv addrs
AllAt-Grows s s' [] [] g h = tt
AllAt-Grows s s' [] (a ∷ addrs) g h = elim h [ ]
AllAt-Grows s s' (arg ∷ argv) [] g h = elim h [ ]
AllAt-Grows s s' (arg ∷ argv) (a ∷ addrs) g (l, h, r) = (
  omega (arith, l, g.down),
  Holds-Grows s s' a (arg ++ 0 ∷ []) g l h,
  AllAt-Grows s s' argv addrs g r,
)

push_strings-AllAt :
    (argv : List (List ℕ)) (s : Stack)
    → s.esp < 2 ^ 32
    → size argv ≤ s.esp
    → Grows s (push_strings argv s).0 (size argv)
      × AllAt (push_strings argv s).0.mem (push_strings argv s).0.esp argv (push_strings argv s).1
      × (length (push_strings argv s).1 ≡ length argv)
unfolding push_strings
push_strings-AllAt [] s small room = (record { down = omega arith; kept = λ k l. refl }, tt, refl)
push_strings-AllAt (arg ∷ argv) s small room =
    let (g, h, e) = push_strings-AllAt argv s small (omega (arith, room)) in
    let s₁ = (push_strings argv s).0 in
    let fits : length (arg ++ 0 ∷ []) ≤ s₁.esp = omega (arith, room, g.down) in
    let p = push_bytes-Grows s₁ (arg ++ 0 ∷ []) fits (omega (arith, g.down, small)) in
    (
      exact s _ (Grows-trans s s₁ _ g p) (omega arith),
      (
        omega arith,
        push_bytes-Holds s₁ (arg ++ 0 ∷ []) fits (omega (arith, g.down, small)),
        AllAt-Grows s₁ _ argv _ p h,
      ),
      ap (λ (n : ℕ). suc n) e,
    )

push_words-Holds :
    (ws : List ℕ) (s : Stack)
    → s.esp < 2 ^ 32
    → 4 * length ws ≤ s.esp
    → Grows s (push_words ws s) (4 * length ws)
      × Holds (push_words ws s).mem (push_words ws s).esp (words ws)
unfolding push_words
push_words-Holds [] s small room = (record { down = omega arith; kept = λ k l. refl }, tt)
push_words-Holds (w ∷ ws) s small room =
    let (g, h) = push_words-Holds ws s small (omega (arith, room)) in
    let (g', h') =
      push_onto s (push_words ws s) (4 * length ws) (word w) (words ws) g (omega (arith, room))
        small h in
    (exact s _ g' (omega arith), h')

align-Grows : (s : Stack) → Grows s (align s) (s.esp % 4)
align-Grows s = record { down = omega arith; kept = λ k l. refl }

-- The stack at the first instruction of the program, in words from the stack pointer on: a return
-- address, argc, argv, which points to the next word, the addresses of the arguments, and 0
pub record Laid (argv : List (List ℕ)) (sentinel : ℕ) (s s' : Stack) : Type 0 where
  pub addrs : List ℕ
  pub count : length addrs ≡ length argv
  pub aligned : s'.esp % 4 ≡ 0
  pub frame :
      Holds s'.mem s'.esp (words (sentinel ∷ length argv ∷ (s'.esp + 12) ∷ (addrs ++ 0 ∷ [])))
  pub strings : AllAt s'.mem s'.esp argv addrs
  pub kept : (k : ℕ) → s.esp ≤ k → s'.mem k ≡ s.mem k
  pub room : s.esp ≤ s'.esp + (size argv + 4 * (length argv + 4) + 3)

push_frame-Laid :
    (argv : List (List ℕ)) (sentinel : ℕ) (s : Stack)
    → s.esp < 2 ^ 32
    → size argv + 4 * (length argv + 4) + 3 ≤ s.esp
    → Laid argv sentinel s (push_frame argv sentinel s)
unfolding push_frame
push_frame-Laid argv sentinel s small fits =
    let (g₁, strings, count) = push_strings-AllAt argv s small (omega (arith, fits)) in
    let s₁ = (push_strings argv s).0 in
    let addrs = (push_strings argv s).1 in
    let top = addrs ++ 0 ∷ [] in
    let slots : length (addrs ++ 0 ∷ []) ≡ length argv + 1 =
      omega (arith, length-append addrs (0 ∷ []), count) in
    let (g₂, h₂) =
      push_words-Holds (addrs ++ 0 ∷ []) (align s₁) (omega (arith, g₁.down, small))
        (omega (arith, fits, slots, g₁.down)) in
    let s₂ = push_words (addrs ++ 0 ∷ []) (align s₁) in
    let (g₃, h₃) =
      push_onto (align s₁) s₂ _ (word s₂.esp) (words top) g₂ (omega (arith, fits, slots, g₁.down))
        (omega (arith, g₁.down, small)) h₂ in
    let s₃ = push_bytes (word s₂.esp) s₂ in
    let (g₄, h₄) =
      push_onto (align s₁) s₃ _ (word (length argv)) (words (s₂.esp ∷ top)) g₃
        (omega (arith, fits, slots, g₁.down)) (omega (arith, g₁.down, small)) h₃ in
    let s₄ = push_bytes (word (length argv)) s₃ in
    let (g₅, h₅) =
      push_onto (align s₁) s₄ _ (word sentinel) (words (length argv ∷ s₂.esp ∷ top)) g₄
        (omega (arith, fits, slots, g₁.down)) (omega (arith, g₁.down, small)) h₄ in
    let s₅ = push_bytes (word sentinel) s₄ in
    record {
      addrs = addrs;
      count = count;
      aligned = omega (arith, g₅.down);
      frame =
          subst (λ (a : ℕ). Holds s₅.mem s₅.esp (words (sentinel ∷ length argv ∷ a ∷ top)))
            {x = s₂.esp} (omega (arith, g₂.down, g₅.down)) h₅;
      strings =
          AllAt-Grows s₁ _ argv addrs (Grows-trans s₁ (align s₁) _ (align-Grows s₁) g₅) strings;
      kept = λ k l. g₅.kept k (omega (arith, l, g₁.down)) ∙ g₁.kept k l;
      room = omega (arith, g₁.down, g₅.down, slots);
    }

-- push_args of fewer than 32 arguments that fit below the stack pointer stores nothing past the end
-- of `argv_addr`, and leaves the pointer at a multiple of 4, with the return address, argc, argv,
-- and the addresses of the arguments with a 0 after them in words from there on; each address
-- has its argument with a null byte, no byte above the old stack pointer is changed, and no more
-- bytes are used than those and 3 of padding.
pub push_args-Laid :
    (argv : List (List ℕ)) (sentinel : ℕ) (s : Stack)
    → length argv < 32
    → s.esp < 2 ^ 32
    → size argv + 4 * (length argv + 4) + 3 ≤ s.esp
    → (s' : Stack) × (push_args argv sentinel s ≡ some s') × Laid argv sentinel s s'
unfolding push_args
push_args-Laid argv sentinel s few small fits =
    (push_frame argv sentinel s, ground (arith, few), push_frame-Laid argv sentinel s small fits)
