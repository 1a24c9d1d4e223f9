-- ===== src/Text.antt =====
-- lib/string.c. A string is its bytes before the null byte, a pointer into it the number of bytes
-- that it is past the start, and NULL is `none`. A block of memory is a function from addresses to
-- bytes. A comparison returns lt, eq or gt for a negative number, zero and a positive number.
pub mod Move
pub mod Tokens
use pintos_nightmare.Base.{
  ltb, leb, ◌==◌, if◌then◌else◌, length, take, drop, ◌>>=◌, ◌>>◌, assert, ℕ, zero, suc, ◌+◌, ◌-◌,
  ◌%◌, Bool, true, false, not, ◌&&◌, ◌||◌, Option, none, some, List, [], ◌∷◌, ◌++◌, map,
}
use Prim.Native.Nat.{compare, Ordering}

-- A pointer that was found one byte further on
abbrev pub past : Option ℕ → Option ℕ
past none = none
past (some k) = some (suc k)

-- strchr
unfoldable pub strchr : List ℕ → (c : ℕ) → Option ℕ
strchr [] c = if c == 0 then some 0 else none
strchr (x ∷ xs) c = if x == c then some 0 else past (strchr xs c)

-- The result of strchr as a truth value
abbrev pub is_found : Option ℕ → Bool
is_found none = false
is_found (some k) = true

-- memchr in `size` bytes
unfoldable pub memchr : (block : List ℕ) (ch size : ℕ) → Option ℕ
memchr block ch zero = none
memchr [] ch (suc n) = none
memchr (x ∷ xs) ch (suc n) = if x == ch then some 0 else past (memchr xs ch n)

-- memcmp of blocks that have `size` bytes
unfoldable pub memcmp : (a b : List ℕ) (size : ℕ) → Ordering
memcmp a b zero = Ordering.eq
memcmp (x ∷ xs) (y ∷ ys) (suc n) = let rest = memcmp xs ys n in if x == y then rest else compare x y
memcmp _ _ (suc n) = Ordering.eq

-- strcmp; past its bytes a string has the null byte.
unfoldable pub strcmp : (a b : List ℕ) → Ordering
strcmp [] [] = Ordering.eq
strcmp [] (y ∷ ys) = compare 0 y
strcmp (x ∷ xs) [] = compare x 0
strcmp (x ∷ xs) (y ∷ ys) = let rest = strcmp xs ys in if x == y then rest else compare x y

-- strcspn and strspn: the loop ends at the first byte that is in `stop`, or is not in `skip`.
unfoldable pub strcspn : List ℕ → (stop : List ℕ) → ℕ
strcspn [] stop = 0
strcspn (x ∷ xs) stop = if is_found (strchr stop x) then 0 else suc (strcspn xs stop)

unfoldable pub strspn : List ℕ → (skip : List ℕ) → ℕ
strspn [] skip = 0
strspn (x ∷ xs) skip = if is_found (strchr skip x) then suc (strspn xs skip) else 0

unfoldable pub strpbrk : List ℕ → (stop : List ℕ) → Option ℕ
strpbrk [] stop = none
strpbrk (x ∷ xs) stop = if is_found (strchr stop x) then some 0 else past (strpbrk xs stop)

-- The loop of strrchr: `at` is the offset of the byte that it looks at, `p` the last one found.
unfoldable pub strrchr_from : (at : ℕ) (p : Option ℕ) → List ℕ → (c : ℕ) → Option ℕ
strrchr_from at p [] c = p
strrchr_from at p (x ∷ xs) c = strrchr_from (at + 1) (if x == c then some at else p) xs c

abbrev pub strrchr : List ℕ → (c : ℕ) → Option ℕ
strrchr string c = strrchr_from 0 none string c

abbrev pub is_equal : Ordering → Bool
is_equal Ordering.eq = true
is_equal _ = false

-- The loop of strstr from offset `i` on, for `n` more offsets
unfoldable pub strstr_from : (n i : ℕ) (haystack needle : List ℕ) → Option ℕ
strstr_from zero i haystack needle = none
strstr_from (suc n) i haystack needle =
    let rest = strstr_from n (i + 1) haystack needle in
    if is_equal (memcmp (drop i haystack) needle (length needle)) then some i else rest

unfoldable pub strstr : (haystack needle : List ℕ) → Option ℕ
strstr haystack needle =
    if leb (length needle) (length haystack)
    then strstr_from (length haystack - length needle + 1) 0 haystack needle
    else none

unfoldable pub strnlen : List ℕ → (maxlen : ℕ) → ℕ
strnlen [] maxlen = 0
strnlen (x ∷ xs) zero = 0
strnlen (x ∷ xs) (suc n) = suc (strnlen xs n)

-- strlcat: the string that `dst` then holds, and the result
unfoldable pub strlcat : (dst src : List ℕ) (size : ℕ) → List ℕ × ℕ
strlcat dst src size = (
  if ltb 0 size && ltb (length dst) size
      then dst
        ++ take
            (if ltb (length src) (size - length dst - 1) then length src else size - length dst - 1)
            src
      else dst,
  length src + length dst,
)

-- The loop of strtok_r that skips delimiters: what is left of the string
unfoldable pub skip_delimiters : (delimiters : List ℕ) → List ℕ → List ℕ
skip_delimiters delimiters [] = []
skip_delimiters delimiters (x ∷ xs) =
    let rest = skip_delimiters delimiters xs in
    if is_found (strchr delimiters x) then rest else x ∷ xs

-- The loop that ends the token: the token, and the string behind the delimiter that ends it
unfoldable pub cut_token : (delimiters : List ℕ) → List ℕ → List ℕ × List ℕ
cut_token delimiters [] = ([], [])
cut_token delimiters (x ∷ xs) =
    let (token, rest) = cut_token delimiters xs in
    if is_found (strchr delimiters x) then ([], xs) else (x ∷ token, rest)

abbrev pub token_of : (delimiters : List ℕ) → List ℕ → Option (List ℕ) × List ℕ
token_of delimiters [] = (none, [])
token_of delimiters (x ∷ xs) =
    let (token, rest) = cut_token delimiters (x ∷ xs) in (some token, rest)

-- strtok_r on the string at `save_ptr`: the token, and the string that is left there
unfoldable pub strtok_r : (delimiters : List ℕ) → List ℕ → Option (List ℕ) × List ℕ
strtok_r delimiters s = token_of delimiters (skip_delimiters delimiters s)

abbrev pub add_token : Option (List ℕ) × List ℕ → (List ℕ → List (List ℕ)) → List (List ℕ)
add_token (none, rest) others = []
add_token (some token, rest) others = token ∷ others rest

-- strtok_r again and again, for at most `n` tokens: what start_process puts into `argv` when there is
-- a first token, and what its loop puts there behind the first
unfoldable pub tokenize : (n : ℕ) (delimiters : List ℕ) → List ℕ → List (List ℕ)
tokenize zero delimiters s = []
tokenize (suc n) delimiters s = add_token (strtok_r delimiters s) (tokenize n delimiters)

abbrev pub rest_of_argv :
    (n : ℕ) (delimiters : List ℕ) → Option (List ℕ) × List ℕ → List (Option (List ℕ))
rest_of_argv n delimiters (none, rest) = none ∷ []
rest_of_argv n delimiters (some token, rest) = some token ∷ map some (tokenize n delimiters rest)

-- The first `argc` places of `argv` in start_process, where MAX_ARGC is `n + 1`. The first is filled
-- before the loop, and counts also where it is NULL; strtok_r then gives NULL again.
unfoldable pub fill_argv : (n : ℕ) (delimiters : List ℕ) → List ℕ → List (Option (List ℕ))
fill_argv n delimiters s = rest_of_argv n delimiters (strtok_r delimiters s)

abbrev pub poke : (ℕ → ℕ) → ℕ → ℕ → ℕ → ℕ
poke mem at byte k = if k == at then byte else mem k

-- The loop of memcpy, and of memmove where `dst` is below `src`
unfoldable pub copy_up : (size dst src : ℕ) → (ℕ → ℕ) → ℕ → ℕ
copy_up zero dst src mem = mem
copy_up (suc n) dst src mem = copy_up n (dst + 1) (src + 1) (poke mem dst (mem src))

-- The other loop of memmove, from the ends of the blocks
unfoldable pub copy_down : (size dst src : ℕ) → (ℕ → ℕ) → ℕ → ℕ
copy_down zero dst src mem = mem
copy_down (suc n) dst src mem = copy_down n (dst - 1) (src - 1) (poke mem (dst - 1) (mem (src - 1)))

-- memmove: the memory, and the pointer that it returns
unfoldable pub memmove : (dst src size : ℕ) → (ℕ → ℕ) → Option ((ℕ → ℕ) × ℕ)
memmove dst src size mem = do
  assert (not (dst == 0) || size == 0)
  assert (not (src == 0) || size == 0)
  some (
      if ltb dst src
      then (copy_up size dst src mem, dst + size)
      else (copy_down size (dst + size) (src + size) mem, dst))

-- memset
unfoldable pub fill_up : (size dst value : ℕ) → (ℕ → ℕ) → ℕ → ℕ
fill_up zero dst value mem = mem
fill_up (suc n) dst value mem = fill_up n (dst + 1) value (poke mem dst (value % 256))
