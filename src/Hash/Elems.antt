-- ===== src/Hash/Elems.antt =====
-- The elements of one bucket: how many are equal to a given one, and which is found.
use pintos_nightmare.Base.{
  if◌then◌else◌, Bool-cases, length, ℕ, ◌+◌, ◌≤◌, ◌≡◌, refl, sym, ◌∙◌, inl, inr, Bool, true, false,
  none, some, List, [], ◌∷◌, ◌++◌, arith,
}
use pintos_nightmare.Hash.{remove, is_same, find_elem}

-- What hash.c relies on: the order is irreflexive, elements of which neither is less than the
-- other are interchangeable, and then they have one hash.
pub record IsKey (hash : ℕ → ℕ) (less : ℕ → ℕ → Bool) : Type 0 where
  pub irreflexive : (a : ℕ) → less a a ≡ false
  pub transitive :
      (a b c : ℕ) → is_same less a b ≡ true → is_same less b c ≡ true → is_same less a c ≡ true
  pub hash_same : (a b : ℕ) → is_same less a b ≡ true → hash a ≡ hash b

module _ (less : ℕ → ℕ → Bool) where
  -- The elements equal to `q`
  abbrev pub count : ℕ → List ℕ → ℕ
  count q [] = 0
  count q (x ∷ b) = count q b + (if is_same less x q then 1 else 0)

module _ (hash : ℕ → ℕ) (less : ℕ → ℕ → Bool) (key : IsKey hash less) where
  pub same_self : (a : ℕ) → is_same less a a ≡ true
  same_self a = rw (key.irreflexive a) refl

  pub same_sym : (a b : ℕ) → is_same less a b ≡ is_same less b a
  same_sym a b = ground arith

  pub same_congr : (a b q : ℕ) → is_same less a b ≡ true → is_same less a q ≡ is_same less b q
  same_congr a b q e = elim (Bool-cases (is_same less a q)) [
    | inl l ↦ l ∙ sym (key.transitive b a q (same_sym b a ∙ e) l)
    | inr l ↦ elim (Bool-cases (is_same less b q)) [
      | inl r ↦ key.transitive a b q e r ∙ sym r
      | inr r ↦ l ∙ sym r
    ]
  ]

  pub find_elem-some :
      (b : List ℕ) (q e : ℕ) → find_elem less b q ≡ some e → is_same less e q ≡ true
  unfolding find_elem
  find_elem-some [] q e h = cc
  find_elem-some (x ∷ b) q e h = ground (arith, find_elem-some b q e)

  pub find_elem-none : (b : List ℕ) (q : ℕ) → find_elem less b q ≡ none → count less q b ≡ 0
  unfolding find_elem
  find_elem-none [] q h = refl
  find_elem-none (x ∷ b) q h = ground (arith, find_elem-none b q)

  pub count-zero : (b : List ℕ) (q : ℕ) → count less q b ≡ 0 → find_elem less b q ≡ none
  unfolding find_elem
  count-zero [] q h = refl
  count-zero (x ∷ b) q h = ground (arith, count-zero b q)

  pub find_elem-congr :
      (a q : ℕ) (b : List ℕ) → is_same less a q ≡ true → find_elem less b a ≡ find_elem less b q
  unfolding find_elem
  find_elem-congr a q [] e = refl
  find_elem-congr a q (x ∷ b) e =
      ground (arith, find_elem-congr a q b e, same_congr a q x e, same_sym a x, same_sym q x)

  pub count-congr :
      (a q : ℕ) (b : List ℕ) → is_same less a q ≡ true → count less a b ≡ count less q b
  count-congr a q [] e = refl
  count-congr a q (x ∷ b) e =
      ground (arith, count-congr a q b e, same_congr a q x e, same_sym a x, same_sym q x)

  pub count-append :
      (q : ℕ) (b c : List ℕ) → count less q (b ++ c) ≡ count less q b + count less q c
  count-append q [] c = omega arith
  count-append q (x ∷ b) c = omega (arith, count-append q b c)

  pub find_elem-append :
      (q : ℕ) (b c : List ℕ) → count less q b ≡ 0 → find_elem less (b ++ c) q ≡ find_elem less c q
  unfolding find_elem
  find_elem-append q [] c h = refl
  find_elem-append q (x ∷ b) c h = ground (arith, find_elem-append q b c)

  pub find_elem-prefix :
      (q : ℕ) (b c : List ℕ) → count less q c ≡ 0 → find_elem less (b ++ c) q ≡ find_elem less b q
  unfolding find_elem
  find_elem-prefix q [] c h = count-zero c q h
  find_elem-prefix q (x ∷ b) c h = ground (arith, find_elem-prefix q b c)

  pub remove-absent : (e : ℕ) (b : List ℕ) → count less e b ≡ 0 → remove e b ≡ b
  unfolding remove
  remove-absent e [] h = refl
  remove-absent e (x ∷ b) h = ground (arith, same_self e, remove-absent e b)

  -- What is found is taken out, once.
  module _ (q e : ℕ) where
    pub length-remove :
        (b : List ℕ) → find_elem less b q ≡ some e → length (remove e b) + 1 ≡ length b
    unfolding remove find_elem
    length-remove [] h = cc
    length-remove (x ∷ b) h = ground (arith, length-remove b)

    pub count-remove :
        (b : List ℕ) (x : ℕ)
        → find_elem less b q ≡ some e
        → count less x (remove e b) + (if is_same less e x then 1 else 0) ≡ count less x b
    unfolding remove find_elem
    count-remove [] x h = cc
    count-remove (y ∷ b) x h = ground (arith, count-remove b x)

    pub find_elem-remove :
        (b : List ℕ) (x : ℕ)
        → find_elem less b q ≡ some e
        → count less x b ≤ 1
        → find_elem less (remove e b) x ≡ (if is_same less e x then none else find_elem less b x)
    unfolding remove find_elem
    find_elem-remove [] x h one = cc
    find_elem-remove (y ∷ b) x h one = ground (
      arith,
      find_elem-remove b x,
      count-zero b x,
      find_elem-some b q e,
      same_congr y x q,
      same_congr e x q,
    )
