-- ===== src/LinkedList/Walk.antt =====
-- The functions that walk a list: `list_empty`, `list_len`, `list_traversal`, `elem_find`.
use oslearn.Base.{
  has, ℕ, zero, suc, ◌+◌, ◌^◌, ◌<◌, ◌≡◌, ap, ◌≢◌, inl, inr, ◌∙◌, Bool, true, false, List, [], ◌∷◌,
  arith, ◌==◌, if◌then◌else◌, ok, ==_of_ne, ==-refl, Bool-cases, length, u32,
}
use oslearn.LinkedList.{
  Links, head_of, tail_of, list_empty, len_from, list_len, traverse_from, list_traversal, find_from,
  elem_find,
}
use oslearn.LinkedList.Seg.{Seg, IsList}

-- What a loop meets that starts at `p`: the elements `xs`, then the tail.
abbrev Walk : Links → ℕ → ℕ → List ℕ → Type 0
Walk s l p [] = p ≡ tail_of l
Walk s l p (x ∷ xs) = (p ≡ x) × (x ≢ 0) × (x ≢ tail_of l) × Walk s l (s.next x) xs

Seg-Walk :
    (s : Links) (l a : ℕ) (xs : List ℕ)
    → Seg s a xs (tail_of l)
    → has 0 xs ≡ false
    → has (tail_of l) xs ≡ false
    → Walk s l (s.next a) xs
Seg-Walk s l a [] (n, p) h0 ht = n
Seg-Walk s l a (x ∷ xs) (n, p, r) h0 ht =
    (n, ground arith, ground arith, Seg-Walk s l x xs r (ground arith) (ground arith))

IsList-Walk : (s : Links) (l : ℕ) (xs : List ℕ) → IsList s l xs → Walk s l (s.next (head_of l)) xs
IsList-Walk s l xs v = Seg-Walk s l (head_of l) xs v.chain v.no_null v.no_tail

abbrev pub is_nil : List ℕ → Bool
is_nil [] = true
is_nil (x ∷ xs) = false

Walk-is_nil : (s : Links) (l p : ℕ) (xs : List ℕ) → Walk s l p xs → (p == tail_of l) ≡ is_nil xs
Walk-is_nil s l p [] w = ground arith
Walk-is_nil s l p (x ∷ xs) (e, n, t, w) = ground arith

-- `list_empty` tells whether the list has no element.
pub list_empty-is_nil :
    (s : Links) (l : ℕ) (xs : List ℕ) → IsList s l xs → list_empty l s ≡ ok (is_nil xs)
unfolding list_empty
list_empty-is_nil s l xs v =
    rw (==_of_ne l 0 v.place, Walk-is_nil s l (s.next l) xs (IsList-Walk s l xs v))

len_from-length :
    (f : ℕ) (s : Links) (l p n : ℕ) (xs : List ℕ)
    → Walk s l p xs
    → length xs < f
    → n + length xs < 2 ^ 32
    → len_from f l s p n ≡ ok (n + length xs)
unfolding len_from
len_from-length zero s l p n xs w h k = absurd (omega arith)
len_from-length (suc f) s l p n [] w h k = rw (w, ==-refl (tail_of l)) (ap ok (omega arith))
len_from-length (suc f) s l p n (x ∷ xs) (e, x0, xt, w) h k =
    let c : u32 (n + 1) ≡ n + 1 = omega arith in
    rw (e, ==_of_ne x (tail_of l) xt, ==_of_ne x 0 x0, c)
      (len_from-length f s l (s.next x) (n + 1) xs w (omega arith) (omega arith)
        ∙ ap ok (omega arith))

-- `list_len` is the number of elements.
pub list_len-length :
    (fuel : ℕ) (s : Links) (l : ℕ) (xs : List ℕ)
    → IsList s l xs
    → length xs < fuel
    → length xs < 2 ^ 32
    → list_len fuel l s ≡ ok (length xs)
unfolding list_len
list_len-length fuel s l xs v h k = rw (==_of_ne l 0 v.place) (
    len_from-length fuel s l (s.next l) 0 xs (IsList-Walk s l xs v) h (omega arith)
    ∙ ap ok (omega arith))

-- The first element that the callback accepts, NULL if there is none.
unfoldable pub first_match : (ℕ → Bool) → List ℕ → ℕ
first_match func [] = 0
first_match func (x ∷ xs) = if func x then x else first_match func xs

traverse_from-first_match :
    (f : ℕ) (s : Links) (l : ℕ) (func : ℕ → Bool) (p : ℕ) (xs : List ℕ)
    → Walk s l p xs
    → length xs < f
    → traverse_from f l s func p ≡ ok (first_match func xs)
unfolding traverse_from first_match
traverse_from-first_match zero s l func p xs w h = absurd (omega arith)
traverse_from-first_match (suc f) s l func p [] w h = rw (w, ==-refl (tail_of l))
traverse_from-first_match (suc f) s l func p (x ∷ xs) (e, x0, xt, w) h =
    rw (e, ==_of_ne x (tail_of l) xt, ==_of_ne x 0 x0)
      (elim (Bool-cases (func x)) [
        | inl q ↦ rw q
        | inr q ↦ rw q (traverse_from-first_match f s l func (s.next x) xs w (omega arith))
      ])

-- On a well-formed list, with more fuel than it has elements, `list_traversal` returns the first
-- element, in order, that the callback accepts, and NULL if it accepts none.
pub list_traversal-first_match :
    (fuel : ℕ) (s : Links) (l : ℕ) (func : ℕ → Bool) (xs : List ℕ)
    → IsList s l xs
    → length xs < fuel
    → list_traversal fuel l s func ≡ ok (first_match func xs)
unfolding list_traversal first_match
list_traversal-first_match fuel s l func [] v h =
    rw (==_of_ne l 0 v.place, list_empty-is_nil s l [] v)
list_traversal-first_match fuel s l func (x ∷ xs) v h =
    rw (==_of_ne l 0 v.place, list_empty-is_nil s l (x ∷ xs) v)
      (traverse_from-first_match fuel s l func (s.next l) (x ∷ xs) (IsList-Walk s l (x ∷ xs) v) h)

find_from-has :
    (f : ℕ) (s : Links) (l obj p : ℕ) (xs : List ℕ)
    → Walk s l p xs
    → length xs < f
    → find_from f l s obj p ≡ ok (has obj xs)
unfolding find_from
find_from-has zero s l obj p xs w h = absurd (omega arith)
find_from-has (suc f) s l obj p [] w h = rw (w, ==-refl (tail_of l))
find_from-has (suc f) s l obj p (x ∷ xs) (e, x0, xt, w) h =
    rw (e, ==_of_ne x (tail_of l) xt, ==_of_ne x 0 x0)
      (elim (Bool-cases (x == obj)) [
        | inl q ↦ rw q (ap ok (ground arith))
        | inr q ↦
            rw q (find_from-has f s l obj (s.next x) xs w (omega arith) ∙ ap ok (ground arith))
      ])

-- `elem_find` tells whether an element is in the list.
pub elem_find-has :
    (fuel : ℕ) (s : Links) (l obj : ℕ) (xs : List ℕ)
    → IsList s l xs
    → length xs < fuel
    → elem_find fuel l obj s ≡ ok (has obj xs)
unfolding elem_find
elem_find-has fuel s l obj xs v h =
    rw (==_of_ne l 0 v.place) (find_from-has fuel s l obj (s.next l) xs (IsList-Walk s l xs v) h)
