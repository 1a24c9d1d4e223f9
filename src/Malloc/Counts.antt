-- ===== src/Malloc/Counts.antt =====
-- Numbers of tests that hold, and lists as sets, for threads/malloc.c.
use pintos_nightmare.Base.{
  ltb, ◌==◌, if◌then◌else◌, ==_iff, Bool-cases, has, Distinct, ℕ, zero, suc, ◌+◌, ◌*◌, ◌≤◌, ◌<◌,
  ◌≡◌, refl, ap, ◌∙◌, ◌≢◌, inl, inr, Bool, true, false, not, ◌&&◌, some, List, [], ◌∷◌, arith,
}
use pintos_nightmare.Malloc.{
  Arena, Heap, block_address, list_remove, remove_blocks, arena_to_block, arena_blocks,
}
use native.Mathlib.Nat.{mul-le-mul_right}

-- How many of the tests 0 to `n - 1` hold
unfoldable pub tally : (ℕ → Bool) → ℕ → ℕ
tally t zero = 0
tally t (suc n) = (if t n then 1 else 0) + tally t n

pub tally-le : (t : ℕ → Bool) (n : ℕ) → tally t n ≤ n
unfolding tally
tally-le t zero = omega arith
tally-le t (suc n) = ground (arith, tally-le t n)

pub tally_congr : (t u : ℕ → Bool) (n : ℕ) → ((j : ℕ) → j < n → t j ≡ u j) → tally t n ≡ tally u n
unfolding tally
tally_congr t u zero h = refl
tally_congr t u (suc n) h =
    rw (h n (omega arith), tally_congr t u n λ j l. h j (omega (arith, l))) refl

pub tally_all : (t : ℕ → Bool) (n : ℕ) → ((j : ℕ) → j < n → t j ≡ true) → tally t n ≡ n
unfolding tally
tally_all t zero h = refl
tally_all t (suc n) h =
    rw (h n (omega arith), tally_all t n λ j l. h j (omega (arith, l))) (omega arith)

pub all_tally : (t : ℕ → Bool) (n : ℕ) → tally t n ≡ n → (j : ℕ) → j < n → t j ≡ true
unfolding tally
all_tally t zero e j l = absurd (omega (arith, l))
all_tally t (suc n) e j l = elim (Bool-cases (j == n)) [
  | inl s ↦ ap t ((==_iff j n).0 s) ∙ ground (arith, e, tally-le t n)
  | inr s ↦ all_tally t n (ground (arith, e, tally-le t n)) j (ground (arith, s, l))
]

-- One test more
pub tally_one :
    (t u : ℕ → Bool) (n i : ℕ)
    → i < n
    → t i ≡ false
    → u i ≡ true
    → ((j : ℕ) → j < n → j ≢ i → t j ≡ u j)
    → tally u n ≡ suc (tally t n)
unfolding tally
tally_one t u zero i l f g h = absurd (omega (arith, l))
tally_one t u (suc n) i l f g h = elim (Bool-cases (n == i)) [
  | inl e ↦
      let here : n ≡ i = (==_iff n i).0 e in
      let fn : t n ≡ false = ap t here ∙ f in
      let gn : u n ≡ true = ap u here ∙ g in
      rw (fn, gn, tally_congr t u n λ j k. h j (omega (arith, k)) (λ z. omega (arith, z, k, here)))
        (omega arith)
  | inr e ↦
      rw
        (
          h n (omega arith) (λ z. ground (arith, z, e)),
          tally_one t u n i (ground (arith, e, l)) f g λ j k. h j (omega (arith, k)),
        )
        (omega arith)
]

-- The lists that list_remove and remove_blocks leave
unfoldable pub without_block : ℕ → List ℕ → List ℕ
without_block b [] = []
without_block b (x ∷ l) = if x == b then l else x ∷ without_block b l

unfoldable pub without_blocks : List ℕ → List ℕ → List ℕ
without_blocks [] l = l
without_blocks (b ∷ bs) l = without_blocks bs (without_block b l)

pub has-without_block :
    (q b : ℕ) (l : List ℕ) → Distinct l → has q (without_block b l) ≡ (has q l && not (q == b))
unfolding without_block
has-without_block q b [] d = refl
has-without_block q b (x ∷ l) d = ground (arith, d, has-without_block q b l)

pub without_block-Distinct : (b : ℕ) (l : List ℕ) → Distinct l → Distinct (without_block b l)
unfolding without_block
without_block-Distinct b [] d = tt
without_block-Distinct b (x ∷ l) d = elim (Bool-cases (x == b)) [
  | inl e ↦ rw e d.1
  | inr e ↦ rw e (ground (arith, d, has-without_block x b l), without_block-Distinct b l d.1)
]

pub without_blocks-Distinct : (bs l : List ℕ) → Distinct l → Distinct (without_blocks bs l)
unfolding without_blocks
without_blocks-Distinct [] l d = d
without_blocks-Distinct (b ∷ bs) l d =
    without_blocks-Distinct bs (without_block b l) (without_block-Distinct b l d)

pub has-without_blocks :
    (q : ℕ) (bs l : List ℕ) → Distinct l → has q (without_blocks bs l) ≡ (has q l && not (has q bs))
unfolding without_blocks
has-without_blocks q [] l d = ground arith
has-without_blocks q (b ∷ bs) l d =
    has-without_blocks q bs (without_block b l) (without_block-Distinct b l d)
    ∙ rw (has-without_block q b l d) (ground arith)

list_remove-some :
    (b : ℕ) (l : List ℕ) → has b l ≡ true → list_remove b l ≡ some (without_block b l)
unfolding list_remove without_block
list_remove-some b [] h = cc
list_remove-some b (x ∷ l) h = elim (Bool-cases (x == b)) [
  | inl e ↦ rw e refl
  | inr e ↦ rw (e, list_remove-some b l (ground (arith, h, e))) refl
]

-- No ASSERT fails where the blocks are on the list, each once.
pub remove_blocks-some :
    (bs l : List ℕ)
    → Distinct bs
    → Distinct l
    → ((q : ℕ) → has q bs ≡ true → has q l ≡ true)
    → remove_blocks bs l ≡ some (without_blocks bs l)
unfolding remove_blocks without_blocks
remove_blocks-some [] l e d h = refl
remove_blocks-some (b ∷ bs) l e d h =
    rw (list_remove-some b l (h b (ground arith)))
      (remove_blocks-some bs (without_block b l) e.1 (without_block-Distinct b l d) still)
  where
    still : (q : ℕ) → has q bs ≡ true → has q (without_block b l) ≡ true
    still q t = ground (arith, has-without_block q b l d, h q, t, e.0)

-- The addresses of `n` blocks of an arena from number `i` on
unfoldable pub blocks_from : ℕ → ℕ → ℕ → ℕ → List ℕ
blocks_from zero i size a = []
blocks_from (suc n) i size a = block_address size a i ∷ blocks_from n (i + 1) size a

-- In an arena of a descriptor arena_to_block fails no ASSERT.
pub arena_blocks-some :
    (h : Heap) (a d : ℕ) (x : Arena) (n i : ℕ)
    → 0 < a
    → h.arenas a ≡ some x
    → x.desc ≡ some d
    → i + n ≤ (h.descs d).blocks_per_arena
    → arena_blocks n i a h ≡ some (blocks_from n i (h.descs d).block_size a)
unfolding arena_blocks arena_to_block blocks_from
arena_blocks-some h a d x zero i p t o l = refl
arena_blocks-some h a d x (suc n) i p t o l =
    rw (nonzero, t, o, below, arena_blocks-some h a d x n (i + 1) p t o (omega (arith, l))) refl
  where
    nonzero : (a == 0) ≡ false
    nonzero = ground (arith, p)

    below : ltb i (h.descs d).blocks_per_arena ≡ true
    below = ground (arith, l)

-- The blocks of an arena
pub has-blocks_from :
    (n i size a j : ℕ)
    → i ≤ j
    → j < i + n
    → has (block_address size a j) (blocks_from n i size a) ≡ true
unfolding blocks_from
has-blocks_from zero i size a j l o = absurd (omega (arith, l, o))
has-blocks_from (suc n) i size a j l o = elim (Bool-cases (i == j)) [
  | inl e ↦
      let here : i ≡ j = (==_iff i j).0 e in
      let block : block_address size a i ≡ block_address size a j =
        ap (block_address size a) here in
      ground (arith, block)
  | inr e ↦
      let rest = has-blocks_from n (i + 1) size a j (ground (arith, e, l)) (omega (arith, o)) in
      ground (arith, rest)
]

pub blocks_from-has :
    (n i size a q : ℕ)
    → has q (blocks_from n i size a) ≡ true
    → (j : ℕ) × (i ≤ j) × (j < i + n) × (q ≡ block_address size a j)
unfolding blocks_from
blocks_from-has zero i size a q h = absurd (ground (arith, h))
blocks_from-has (suc n) i size a q h = elim (Bool-cases (block_address size a i == q)) [
  | inl e ↦ (i, omega arith, omega arith, ground (arith, e))
  | inr e ↦
      let (j, l, o, f) = blocks_from-has n (i + 1) size a q (ground (arith, h, e)) in
      (j, omega (arith, l), omega (arith, o), f)
]

pub block_address-lt :
    (size a i j : ℕ) → 0 < size → i < j → block_address size a i < block_address size a j
block_address-lt size a i j p l = omega (arith, p, mul-le-mul_right size l, step)
  where
    step : suc i * size ≡ i * size + size
    step = grind arith

pub block_address-apart :
    (size a i j : ℕ) → 0 < size → i ≢ j → block_address size a i ≢ block_address size a j
block_address-apart size a i j p n e = elim (Bool-cases (ltb i j)) [
  | inl t ↦ omega (arith, e, block_address-lt size a i j p (ground (arith, t)))
  | inr t ↦ omega (arith, e, block_address-lt size a j i p (ground (arith, t, n)))
]

pub blocks_from-Distinct : (n i size a : ℕ) → 0 < size → Distinct (blocks_from n i size a)
unfolding blocks_from
blocks_from-Distinct zero i size a p = tt
blocks_from-Distinct (suc n) i size a p = (first, blocks_from-Distinct n (i + 1) size a p)
  where
    first : has (block_address size a i) (blocks_from n (i + 1) size a) ≡ false
    first = elim (Bool-cases (has (block_address size a i) (blocks_from n (i + 1) size a))) [
      | inl e ↦
          let (j, l, o, f) = blocks_from-has n (i + 1) size a (block_address size a i) e in
          absurd (omega (arith, f, block_address-lt size a i j p (omega (arith, l))))
      | inr e ↦ e
    ]
