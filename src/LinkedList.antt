-- ===== src/LinkedList.antt =====
-- lib/kernel/list.c and list.h: the doubly linked lists of the kernel, on which threads wait.
-- A `struct list_elem` is known by its address, and NULL is 0; the two maps hold the fields of the
-- elements. A `struct list` at `l` has its `head` at `l` and its `tail` 8 bytes behind. An access
-- through NULL is a fault. `list_iterate` is declared in the source and defined nowhere.
pub mod Seg
pub mod Insert
pub mod Remove
pub mod Walk
mod Tests
use oslearn.Base.{
  ℕ, zero, suc, ◌+◌, Bool, true, false, ◌==◌, if◌then◌else◌, u32, Run, ok, fault, stuck, ◌>>=◌,
}
use oslearn.Interrupt.Status.{IntrStatus, intr_disable, intr_set_status}

pub record Links : Type 0 where
  pub prev : ℕ → ℕ
  pub next : ℕ → ℕ
  pub intr : IntrStatus

abbrev pub update : (ℕ → ℕ) → ℕ → ℕ → ℕ → ℕ
update f p v a = if p == a then v else f a

abbrev pub head_of : ℕ → ℕ
head_of l = l

abbrev pub tail_of : ℕ → ℕ
tail_of l = l + 8

-- `p->prev` and `p->next`
abbrev pub get_prev : ℕ → Links → Run ℕ
get_prev p s = if p == 0 then fault else ok (s.prev p)

abbrev pub get_next : ℕ → Links → Run ℕ
get_next p s = if p == 0 then fault else ok (s.next p)

-- `p->prev = v` and `p->next = v`
abbrev pub set_prev : ℕ → ℕ → Links → Run Links
set_prev p v s = if p == 0 then fault else ok (record s { prev = update s.prev p v })

abbrev pub set_next : ℕ → ℕ → Links → Run Links
set_next p v s = if p == 0 then fault else ok (record s { next = update s.next p v })

pub list_init : ℕ → Links → Run Links
list_init l s = do
  s ← set_prev (head_of l) 0 s
  s ← set_next (head_of l) (tail_of l) s
  s ← set_prev (tail_of l) (head_of l) s
  set_next (tail_of l) 0 s

pub list_insert_before : ℕ → ℕ → Links → Run Links
list_insert_before before elem s = do
  let (old_status, off) = intr_disable s.intr
  let s' = record s { intr = off }
  p ← get_prev before s'
  s' ← set_next p elem s'
  p ← get_prev before s'
  s' ← set_prev elem p s'
  s' ← set_next elem before s'
  s' ← set_prev before elem s'
  ok (record s' { intr = (intr_set_status old_status s'.intr).1 })

pub list_push : ℕ → ℕ → Links → Run Links
list_push plist elem s = do first ← get_next (head_of plist) s; list_insert_before first elem s

pub list_append : ℕ → ℕ → Links → Run Links
list_append plist elem s = list_insert_before (tail_of plist) elem s

pub list_remove : ℕ → Links → Run Links
list_remove pelem s = do
  let (old_status, off) = intr_disable s.intr
  let s' = record s { intr = off }
  p ← get_prev pelem s'
  n ← get_next pelem s'
  s' ← set_next p n s'
  n ← get_next pelem s'
  p ← get_prev pelem s'
  s' ← set_prev n p s'
  ok (record s' { intr = (intr_set_status old_status s'.intr).1 })

pub list_pop : ℕ → Links → Run (ℕ × Links)
list_pop plist s = do elem ← get_next (head_of plist) s; s' ← list_remove elem s; ok (elem, s')

pub list_empty : ℕ → Links → Run Bool
list_empty plist s = do first ← get_next (head_of plist) s; ok (first == tail_of plist)

-- The loops run on `fuel` rounds; one more than the list is long is enough.
len_from : ℕ → ℕ → Links → ℕ → ℕ → Run ℕ
len_from zero plist s elem length = stuck
len_from (suc f) plist s elem length =
    let rest = (get_next elem s >>= λ n. len_from f plist s n (u32 (length + 1))) in
    if elem == tail_of plist then ok length else rest

pub list_len : ℕ → ℕ → Links → Run ℕ
list_len fuel plist s = do first ← get_next (head_of plist) s; len_from fuel plist s first 0

-- `func` is the callback at its argument; the result is NULL if it holds of no element.
traverse_from : ℕ → ℕ → Links → (ℕ → Bool) → ℕ → Run ℕ
traverse_from zero plist s func elem = stuck
traverse_from (suc f) plist s func elem =
    let rest = (get_next elem s >>= traverse_from f plist s func) in
    if elem == tail_of plist then ok 0 else if func elem then ok elem else rest

pub list_traversal : ℕ → ℕ → Links → (ℕ → Bool) → Run ℕ
list_traversal fuel plist s func = do
  elem ← get_next (head_of plist) s
  none_there ← list_empty plist s
  if none_there then ok 0 else traverse_from fuel plist s func elem

find_from : ℕ → ℕ → Links → ℕ → ℕ → Run Bool
find_from zero plist s obj_elem elem = stuck
find_from (suc f) plist s obj_elem elem =
    let rest = (get_next elem s >>= find_from f plist s obj_elem) in
    if elem == tail_of plist then ok false else if elem == obj_elem then ok true else rest

pub elem_find : ℕ → ℕ → ℕ → Links → Run Bool
elem_find fuel plist obj_elem s = do
  elem ← get_next (head_of plist) s
  find_from fuel plist s obj_elem elem
