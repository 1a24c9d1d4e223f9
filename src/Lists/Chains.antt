-- ===== src/Lists/Chains.antt =====
-- Chains of elements, and what the stores of list_insert and list_remove do to them.
use pintos_nightmare.Base.{
  ◌==◌, has, Distinct, has-append, ℕ, ◌≡◌, ap, ◌∙◌, true, false, List, [], ◌∷◌, ◌++◌, arith,
}
use pintos_nightmare.Lists.{Heap, link_in, link_out}

-- From `a` through `xs` to `b` by next, and back by prev
abbrev pub Chain : Heap → ℕ → List ℕ → ℕ → Type 0
Chain s a [] b = (s.next a ≡ b) × (s.prev b ≡ a)
Chain s a (x ∷ xs) b = (s.next a ≡ x) × (s.prev x ≡ a) × Chain s x xs b

pub Chain-append :
    (s : Heap) (a : ℕ) (xs : List ℕ) (x : ℕ) (ys : List ℕ) (b : ℕ)
    → Chain s a xs x
    → Chain s x ys b
    → Chain s a (xs ++ x ∷ ys) b
Chain-append s a [] x ys b (n, p) h = (n, p, h)
Chain-append s a (z ∷ xs) x ys b (n, p, g) h = (n, p, Chain-append s z xs x ys b g h)

pub Chain-split :
    (s : Heap) (a : ℕ) (xs : List ℕ) (x : ℕ) (ys : List ℕ) (b : ℕ)
    → Chain s a (xs ++ x ∷ ys) b
    → Chain s a xs x × Chain s x ys b
Chain-split s a [] x ys b (n, p, h) = ((n, p), h)
Chain-split s a (z ∷ xs) x ys b (n, p, h) =
    let (g, h') = Chain-split s z xs x ys b h in ((n, p, g), h')

pub Chain-frame :
    (s s' : Heap) (a : ℕ) (xs : List ℕ) (b : ℕ)
    → ((k : ℕ) → has k (a ∷ xs) ≡ true → s'.next k ≡ s.next k)
    → ((k : ℕ) → has k (xs ++ b ∷ []) ≡ true → s'.prev k ≡ s.prev k)
    → Chain s a xs b
    → Chain s' a xs b
Chain-frame s s' a [] b en ep (n, p) = (en a (ground arith) ∙ n, ep b (ground arith) ∙ p)
Chain-frame s s' a (x ∷ xs) b en ep (n, p, h) = (
  en a (ground arith) ∙ n,
  ep x (ground arith) ∙ p,
  Chain-frame s s' x xs b (λ k i. en k (ground (arith, i))) (λ k i. ep k (ground (arith, i))) h,
)

-- The element before the end of a chain has the end after it.
pub Chain-last : (s : Heap) (a : ℕ) (xs : List ℕ) (b : ℕ) → Chain s a xs b → s.next (s.prev b) ≡ b
Chain-last s a [] b (n, p) = ap s.next p ∙ n
Chain-last s a (x ∷ xs) b (n, p, h) = Chain-last s x xs b h

-- What comes after an element of a chain is on it.
pub Chain-next :
    (s : Heap) (a : ℕ) (xs : List ℕ) (b k : ℕ)
    → Chain s a xs b
    → has k (a ∷ xs) ≡ true
    → has (s.next k) (xs ++ b ∷ []) ≡ true
Chain-next s a [] b k (n, p) i = ground (arith, n, i)
Chain-next s a (x ∷ xs) b k (n, p, h) i = ground (arith, n, i, Chain-next s x xs b k h)

-- The element before the end of a chain is on it.
pub Chain-prev :
    (s : Heap) (a : ℕ) (xs : List ℕ) (b : ℕ) → Chain s a xs b → has (s.prev b) (a ∷ xs) ≡ true
Chain-prev s a [] b (n, p) = ground (arith, p)
Chain-prev s a (x ∷ xs) b (n, p, h) = ground (arith, Chain-prev s x xs b h)

module _ (s : Heap) (e b : ℕ) (other : (e == b) ≡ false) where
  pub link_in-Chain :
      (a : ℕ) (xs : List ℕ)
      → Chain s a xs b
      → has e (a ∷ xs) ≡ false
      → has b xs ≡ false
      → Chain (link_in b e s) a (xs ++ e ∷ []) b
  unfolding link_in
  link_in-Chain a [] (n, p) fe fb = ground (arith, n, p, fe, other)
  link_in-Chain a (x ∷ xs) (n, p, h) fe fb = ground (
    arith,
    n,
    p,
    fe,
    fb,
    other,
    Chain-last s x xs b h,
    link_in-Chain x xs h (ground (arith, fe)) (ground (arith, fb)),
  )

  -- What comes after `b` stays.
  pub link_in-after :
      (ys : List ℕ) (t : ℕ)
      → Chain s b ys t
      → s.next (s.prev b) ≡ b
      → has e (ys ++ t ∷ []) ≡ false
      → has b (ys ++ t ∷ []) ≡ false
      → Chain (link_in b e s) b ys t
  unfolding link_in
  link_in-after ys t h last fe fb =
      Chain-frame s _ b ys t
        (λ k i.
          ground
            (arith, i, last, fb, fe, other, Chain-next s b ys t k h i, has-append e ys (t ∷ [])))
        (λ k i. ground (arith, i, fb, fe)) h

module _ (s : Heap) (e : ℕ) (ys : List ℕ) (t : ℕ) (after : Chain s e ys t)
    (not_after : has e (ys ++ t ∷ []) ≡ false) (once : Distinct (ys ++ t ∷ [])) where
  -- The rest of the chain follows the element before.
  link_out-first :
      (a : ℕ)
      → s.next a ≡ e
      → s.prev e ≡ a
      → has a (ys ++ t ∷ []) ≡ false
      → (a == e) ≡ false
      → Chain (link_out e s) a ys t
  unfolding link_out
  link_out-first a n p free other = go ys after not_after once free
    where
      go :
          (ys : List ℕ)
          → Chain s e ys t
          → has e (ys ++ t ∷ []) ≡ false
          → Distinct (ys ++ t ∷ [])
          → has a (ys ++ t ∷ []) ≡ false
          → Chain (link_out e s) a ys t
      go [] (n', p') ne d f = ground (arith, n, p, n', p', ne, f, other)
      go (y ∷ ys) (n', p', h) ne d f = (
        ground (arith, n, p, n', p', other),
        ground (arith, n, p, n', p', other),
        Chain-frame s _ y ys t (λ k i. ground (arith, i, p, f, has-append a ys (t ∷ [])))
            (λ k i. ground (arith, i, n', p, d, other)) h,
      )

  pub link_out-Chain :
      (a : ℕ) (xs : List ℕ)
      → Chain s a xs e
      → has e (a ∷ xs) ≡ false
      → ((k : ℕ) → has k (a ∷ xs) ≡ true → has k (ys ++ t ∷ []) ≡ false)
      → Chain (link_out e s) a (xs ++ ys) t
  unfolding link_out
  link_out-Chain a [] (n, p) fe f = link_out-first a n p (f a (ground arith)) (ground (arith, fe))
  link_out-Chain a (x ∷ xs) (n, p, h) fe f = (
    ground (arith, n, fe, Chain-last s x xs e h),
    ground (arith, p, f x (ground arith), Chain-next s e ys t e after (ground arith)),
    link_out-Chain x xs h (ground (arith, fe)) (λ k i. f k (ground (arith, i))),
  )
