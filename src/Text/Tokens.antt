-- ===== src/Text/Tokens.antt =====
-- strtok_r as a tokenizer: its tokens are the words of the string, whatever delimiters stand
-- between them.
use pintos_nightmare.Base.{
  Bool-cases, length, take, drop, ℕ, zero, suc, ◌<◌, ◌≡◌, refl, sym, ap, ◌∙◌, subst, ◌⊎◌, inl, inr,
  Bool, true, false, Option, none, some, List, [], ◌∷◌, ◌++◌, map, arith,
}
use pintos_nightmare.Text.{
  strchr, is_found, skip_delimiters, cut_token, token_of, strtok_r, add_token, tokenize,
  rest_of_argv, fill_argv,
}

module _ (ds : List ℕ) where
  abbrev pub is_delimiter : ℕ → Bool
  is_delimiter x = is_found (strchr ds x)

  -- All bytes are delimiters, or none is.
  abbrev pub AllAre : Bool → List ℕ → Type 0
  AllAre b [] = Unit
  AllAre b (x ∷ xs) = (is_delimiter x ≡ b) × AllAre b xs

  -- Words with the gap before each
  abbrev pub words : List (List ℕ × List ℕ) → List (List ℕ)
  words [] = []
  words ((gap, word) ∷ rest) = word ∷ words rest

  -- The string of the words and gaps, with one more gap at its end
  abbrev pub lay : List (List ℕ × List ℕ) → (last : List ℕ) → List ℕ
  lay [] last = last
  lay ((gap, word) ∷ rest) last = gap ++ (word ++ lay rest last)

  abbrev pub HasGap : List (List ℕ × List ℕ) → Type 0
  HasGap [] = Unit
  HasGap ((gap, word) ∷ rest) = 0 < length gap

  -- Gaps are delimiters and words are not, no word is empty, and no gap but the first is.
  abbrev pub AreWords : List (List ℕ × List ℕ) → Type 0
  AreWords [] = Unit
  AreWords ((gap, word) ∷ rest) =
      AllAre true gap × AllAre false word × (0 < length word) × HasGap rest × AreWords rest

  skip-append :
      (gap s : List ℕ) → AllAre true gap → skip_delimiters ds (gap ++ s) ≡ skip_delimiters ds s
  unfolding skip_delimiters
  skip-append [] s g = refl
  skip-append (x ∷ xs) s g = rw g.0 (skip-append xs s g.1)

  skip-gap : (gap : List ℕ) → AllAre true gap → skip_delimiters ds gap ≡ []
  unfolding skip_delimiters
  skip-gap [] g = refl
  skip-gap (x ∷ xs) g = rw g.0 (skip-gap xs g.1)

  skip-word : (x : ℕ) (xs : List ℕ) → is_delimiter x ≡ false → skip_delimiters ds (x ∷ xs) ≡ x ∷ xs
  unfolding skip_delimiters
  skip-word x xs h = rw h refl

  -- What follows a word: nothing, or a delimiter
  abbrev Ends : List ℕ → Type 0
  Ends [] = Unit
  Ends (y ∷ s) = is_delimiter y ≡ true

  cut-append :
      (word s : List ℕ) → AllAre false word → Ends s → cut_token ds (word ++ s) ≡ (word, drop 1 s)
  unfolding cut_token
  cut-append [] [] w e = refl
  cut-append [] (y ∷ s) w e = rw e refl
  cut-append (x ∷ xs) s w e = rw (cut-append xs s w.1 e, w.0) refl

  strtok_r-word :
      (gap word s : List ℕ)
      → AllAre true gap
      → AllAre false word
      → 0 < length word
      → Ends s
      → strtok_r ds (gap ++ (word ++ s)) ≡ (some word, drop 1 s)
  unfolding strtok_r
  strtok_r-word gap [] s g w pos e = absurd (omega (arith, pos))
  strtok_r-word gap (x ∷ xs) s g w pos e =
      rw (skip-append gap (x ∷ (xs ++ s)) g, skip-word x (xs ++ s) w.0, cut-append (x ∷ xs) s w e)
        refl

  Ends-lay :
      (l : List (List ℕ × List ℕ)) (last : List ℕ)
      → AllAre true last
      → HasGap l
      → AreWords l
      → Ends (lay l last)
  Ends-lay [] [] t h a = tt
  Ends-lay [] (y ∷ s) t h a = t.0
  Ends-lay (([], word) ∷ rest) last t h a = absurd (omega (arith, h))
  Ends-lay ((y ∷ gap, word) ∷ rest) last t h a = a.0.0

  strtok_r-gap : (gap : List ℕ) → AllAre true gap → strtok_r ds gap ≡ (none, [])
  unfolding strtok_r
  strtok_r-gap gap g = ap (token_of ds) (skip-gap gap g)

  skip-cases :
      (s : List ℕ)
      → (skip_delimiters ds s ≡ [])
        ⊎ ((x : ℕ) × (xs : List ℕ) × (skip_delimiters ds s ≡ x ∷ xs) × (is_delimiter x ≡ false))
  unfolding skip_delimiters
  skip-cases [] = inl refl
  skip-cases (x ∷ xs) = elim (Bool-cases (is_delimiter x)) [
    | inl e ↦ rw e (skip-cases xs)
    | inr e ↦ inr (x, xs, rw e refl, e)
  ]

  cut-AllAre : (s : List ℕ) → AllAre false (cut_token ds s).0
  unfolding cut_token
  cut-AllAre [] = tt
  cut-AllAre (x ∷ xs) = elim (Bool-cases (is_delimiter x)) [
    | inl e ↦ rw e tt
    | inr e ↦ rw e (e, cut-AllAre xs)
  ]

  cut-length : (x : ℕ) (xs : List ℕ) → is_delimiter x ≡ false → 0 < length (cut_token ds (x ∷ xs)).0
  unfolding cut_token
  cut-length x xs h = rw h (omega arith)

  strtok_r-cases :
      (s : List ℕ)
      → (strtok_r ds s ≡ (none, []))
        ⊎ ((t : List ℕ) × (rest : List ℕ) × (strtok_r ds s ≡ (some t, rest))
            × (0 < length t)
            × AllAre false t)
  unfolding strtok_r
  strtok_r-cases s = elim (skip-cases s) [
    | inl e ↦ inl (ap (token_of ds) e)
    | inr (x, xs, e, h) ↦ inr (
      (cut_token ds (x ∷ xs)).0,
      (cut_token ds (x ∷ xs)).1,
      ap (token_of ds) e,
      cut-length x xs h,
      cut-AllAre (x ∷ xs),
    )
  ]

  -- What is left of a layout when the delimiter after a word is gone
  record Left (l : List (List ℕ × List ℕ)) (last : List ℕ) : Type 0 where
    rest : List (List ℕ × List ℕ)
    end : List ℕ
    laid : drop 1 (lay l last) ≡ lay rest end
    same_words : words rest ≡ words l
    rest_ok : AreWords rest
    end_ok : AllAre true end

  after_word :
      (l : List (List ℕ × List ℕ)) (last : List ℕ)
      → AllAre true last
      → HasGap l
      → AreWords l
      → Left l last
  after_word [] [] t h a = record {
    rest = [];
    end = [];
    laid = refl;
    same_words = refl;
    rest_ok = tt;
    end_ok = tt;
  }
  after_word [] (y ∷ s) t h a = record {
    rest = [];
    end = s;
    laid = refl;
    same_words = refl;
    rest_ok = tt;
    end_ok = t.1;
  }
  after_word (([], word) ∷ rest) last t h a = absurd (omega (arith, h))
  after_word ((y ∷ gap, word) ∷ rest) last t h a = record {
    rest = (gap, word) ∷ rest;
    end = last;
    laid = refl;
    same_words = refl;
    rest_ok = (a.0.1, a.1, a.2, a.3, a.4);
    end_ok = t;
  }

  -- Of a string of words with delimiters before, between and after them, strtok_r yields the words in
  -- order, as many as there is room for the caller to take, and no other token.
  pub tokenize-lay :
      (n : ℕ) (l : List (List ℕ × List ℕ)) (last : List ℕ)
      → AllAre true last
      → AreWords l
      → tokenize n ds (lay l last) ≡ take n (words l)
  unfolding tokenize
  tokenize-lay zero l last t a = refl
  tokenize-lay (suc n) [] last t a = ap (λ p. add_token p (tokenize n ds)) (strtok_r-gap last t)
  tokenize-lay (suc n) ((gap, word) ∷ rest) last t a =
      let left = after_word rest last t a.3 a.4 in
      ap (λ p. add_token p (tokenize n ds))
        (strtok_r-word gap word (lay rest last) a.0 a.1 a.2 (Ends-lay rest last t a.3 a.4))
      ∙ ap (◌∷◌ word) (
          ap (tokenize n ds) left.laid
          ∙ tokenize-lay n left.rest left.end left.end_ok left.rest_ok
          ∙ ap (take n) left.same_words)

  abbrev pub AllTokens : List (List ℕ) → Type 0
  AllTokens [] = Unit
  AllTokens (t ∷ ts) = (0 < length t) × AllAre false t × AllTokens ts

  -- Whatever the string is, no token that strtok_r yields is empty or holds a delimiter.
  pub tokenize-AllTokens : (n : ℕ) (s : List ℕ) → AllTokens (tokenize n ds s)
  unfolding tokenize
  tokenize-AllTokens zero s = tt
  tokenize-AllTokens (suc n) s = elim (strtok_r-cases s) [
    | inl e ↦ subst (λ p. AllTokens (add_token p (tokenize n ds))) (sym e) tt
    | inr (t, rest, e, pos, free) ↦
        subst (λ p. AllTokens (add_token p (tokenize n ds))) (sym e)
          (pos, free, tokenize-AllTokens n rest)
  ]

-- Where the first token is there, `argv` has the tokens, and otherwise one place with NULL.
abbrev pub or_null : List (List ℕ) → List (Option (List ℕ))
or_null [] = none ∷ []
or_null (token ∷ tokens) = some token ∷ map some tokens

pub fill_argv-tokenize :
    (n : ℕ) (ds s : List ℕ) → fill_argv n ds s ≡ or_null (tokenize (suc n) ds s)
unfolding fill_argv tokenize
fill_argv-tokenize n ds s = by_token (strtok_r ds s)
  where
    by_token :
        (t : Option (List ℕ) × List ℕ) → rest_of_argv n ds t ≡ or_null (add_token t (tokenize n ds))
    by_token (none, rest) = refl
    by_token (some token, rest) = refl
