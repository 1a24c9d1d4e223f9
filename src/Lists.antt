-- ===== src/Lists.antt =====
-- lib/kernel/list.c: doubly linked lists, as pointers. An element is the address of a struct
-- list_elem, NULL is 0, and the two fields of all elements are functions of the address; a list is
-- the addresses of its head and tail. `none` is a failed ASSERT.
pub mod Chains
pub mod Sequence
use pintos_nightmare.Base.{
  ◌==◌, if◌then◌else◌, ◌>>=◌, ◌>>◌, assert, ℕ, zero, suc, ◌+◌, Bool, not, ◌&&◌, ◌||◌, Option, none,
  some,
}

pub record Heap : Type 0 where
  pub prev : ℕ → ℕ
  pub next : ℕ → ℕ

pub record LinkedList : Type 0 where
  pub head : ℕ
  pub tail : ℕ

abbrev pub upd : (ℕ → ℕ) → ℕ → ℕ → ℕ → ℕ
upd f a v k = if k == a then v else f k

abbrev pub set_prev : ℕ → ℕ → Heap → Heap
set_prev elem v s = record s { prev = upd s.prev elem v }

abbrev pub set_next : ℕ → ℕ → Heap → Heap
set_next elem v s = record s { next = upd s.next elem v }

abbrev pub is_null : ℕ → Bool
is_null a = a == 0

abbrev pub is_head : Heap → ℕ → Bool
is_head s elem = not (is_null elem) && is_null (s.prev elem) && not (is_null (s.next elem))

abbrev pub is_interior : Heap → ℕ → Bool
is_interior s elem =
    not (is_null elem) && not (is_null (s.prev elem)) && not (is_null (s.next elem))

abbrev pub is_tail : Heap → ℕ → Bool
is_tail s elem = not (is_null elem) && not (is_null (s.prev elem)) && is_null (s.next elem)

unfoldable pub list_init : LinkedList → Heap → Heap
list_init l s =
    let s = set_prev l.head 0 s in
    let s = set_next l.head l.tail s in let s = set_prev l.tail l.head s in set_next l.tail 0 s

abbrev pub list_begin : LinkedList → Heap → ℕ
list_begin l s = s.next l.head

abbrev pub list_end : LinkedList → ℕ
list_end l = l.tail

abbrev pub list_rbegin : LinkedList → Heap → ℕ
list_rbegin l s = s.prev l.tail

abbrev pub list_rend : LinkedList → ℕ
list_rend l = l.head

unfoldable pub list_next : ℕ → Heap → Option ℕ
list_next elem s = do assert (is_head s elem || is_interior s elem); some (s.next elem)

unfoldable pub list_prev : ℕ → Heap → Option ℕ
list_prev elem s = do assert (is_interior s elem || is_tail s elem); some (s.prev elem)

-- The four stores of list_insert
unfoldable pub link_in : (before elem : ℕ) → Heap → Heap
link_in before elem s =
    let s = set_prev elem (s.prev before) s in
    let s = set_next elem before s in
    let s = set_next (s.prev before) elem s in set_prev before elem s

unfoldable pub list_insert : (before elem : ℕ) → Heap → Option Heap
list_insert before elem s = do
  assert (is_interior s before || is_tail s before)
  assert (not (is_null elem))
  some (link_in before elem s)

-- The six stores of list_splice, `last` being the last element of the range
unfoldable pub move_range : (before first last : ℕ) → Heap → Heap
move_range before first last s =
    let s = set_next (s.prev first) (s.next last) s in
    let s = set_prev (s.next last) (s.prev first) s in
    let s = set_prev first (s.prev before) s in
    let s = set_next last before s in
    let s = set_next (s.prev before) first s in set_prev before last s

unfoldable pub list_splice : (before first last : ℕ) → Heap → Option Heap
list_splice before first last s = do
  assert (is_interior s before || is_tail s before)
  if first == last then some s else (do
    last ← list_prev last s
    assert (is_interior s first)
    assert (is_interior s last)
    some (move_range before first last s))

unfoldable pub list_push_front : LinkedList → (elem : ℕ) → Heap → Option Heap
list_push_front l elem s = list_insert (list_begin l s) elem s

unfoldable pub list_push_back : LinkedList → (elem : ℕ) → Heap → Option Heap
list_push_back l elem s = list_insert (list_end l) elem s

-- The two stores of list_remove
unfoldable pub link_out : (elem : ℕ) → Heap → Heap
link_out elem s =
    let s = set_next (s.prev elem) (s.next elem) s in set_prev (s.next elem) (s.prev elem) s

unfoldable pub list_remove : (elem : ℕ) → Heap → Option (Heap × ℕ)
list_remove elem s = do assert (is_interior s elem); let s = link_out elem s; some (s, s.next elem)

abbrev pub list_empty : LinkedList → Heap → Bool
list_empty l s = list_begin l s == list_end l

unfoldable pub list_front : LinkedList → Heap → Option ℕ
list_front l s = do assert (not (list_empty l s)); some (s.next l.head)

unfoldable pub list_back : LinkedList → Heap → Option ℕ
list_back l s = do assert (not (list_empty l s)); some (s.prev l.tail)

unfoldable pub list_pop_front : LinkedList → Heap → Option (Heap × ℕ)
list_pop_front l s = do
  front ← list_front l s
  (s, following) ← list_remove front s
  some (s, front)

unfoldable pub list_pop_back : LinkedList → Heap → Option (Heap × ℕ)
list_pop_back l s = do back ← list_back l s; (s, following) ← list_remove back s; some (s, back)

-- The loop of list_size: the fuel is at least the number of elements and one more, or `none`.
unfoldable pub size_from : (fuel : ℕ) (e stop : ℕ) → Heap → Option ℕ
size_from zero e stop s = none
size_from (suc fuel) e stop s =
    let rest = size_from fuel (s.next e) stop s in
    if e == stop
    then some 0
    else (do assert (is_head s e || is_interior s e); cnt ← rest; some (cnt + 1))

unfoldable pub list_size : (fuel : ℕ) → LinkedList → Heap → Option ℕ
list_size fuel l s = size_from fuel (list_begin l s) (list_end l) s
