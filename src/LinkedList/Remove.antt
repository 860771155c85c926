-- ===== src/LinkedList/Remove.antt =====
-- `list_remove` and `list_pop`.
use oslearn.Base.{
  has, Distinct, has-append, ℕ, ◌+◌, ◌≡◌, refl, ◌≢◌, true, false, ◌||◌, List, [], ◌∷◌, ◌++◌, arith,
  ◌==◌, ok, fault, ==_of_ne,
}
use oslearn.Interrupt.Status.{intr_set_status-disable}
use oslearn.LinkedList.{Links, update, head_of, tail_of, list_remove, list_pop}
use oslearn.LinkedList.Seg.{Seg, Seg-frame, Seg-last, Seg-split, IsList}
use oslearn.LinkedList.Insert.{Spares}

-- The pointers after the element has been taken out.
abbrev removed : ℕ → Links → Links
removed x s = record s {
  next = update s.next (s.prev x) (s.next x);
  prev = update s.prev (s.next x) (s.prev x);
}

list_remove-removed :
    (x : ℕ) (s : Links)
    → x ≢ 0
    → s.prev x ≢ 0
    → s.next x ≢ 0
    → s.prev x ≢ x
    → list_remove x s ≡ ok (removed x s)
unfolding list_remove
list_remove-removed x s hx hp hn ne = rw (
  ==_of_ne x 0 hx,
  ==_of_ne (s.prev x) 0 hp,
  ==_of_ne (s.prev x) x ne,
  ==_of_ne (s.next x) 0 hn,
  (intr_set_status-disable s.intr).1,
)

-- The element after the start of a chain.
Seg-first :
    (s : Links) (a b : ℕ) (xs : List ℕ)
    → Seg s a xs b
    → ((s.next a == b) || has (s.next a) xs) ≡ true
Seg-first s a b [] (n, p) = ground arith
Seg-first s a b (x ∷ xs) (n, p, r) = ground arith

-- The chain behind the element, now reached from `a`.
Seg-rest :
    (s : Links) (a x b : ℕ) (ys : List ℕ)
    → Seg s x ys b
    → s.prev x ≡ a
    → ((a == x) || has a ys) ≡ false
    → ((b == x) || has b ys) ≡ false
    → Distinct (x ∷ ys)
    → Seg (removed x s) a ys b
Seg-rest s a x b [] (n, p) q ha hb d = (ground arith, ground arith)
Seg-rest s a x b (y ∷ ys) (n, p, r) q ha hb (dx, (dy, d)) = (
  ground arith,
  ground arith,
  Seg-frame s (removed x s) y b ys r (λ w h. ground arith) (λ w h. ground arith),
)

Seg-removed :
    (s : Links) (a x b : ℕ) (xs ys : List ℕ)
    → Seg s a xs x
    → Seg s x ys b
    → Distinct (a ∷ xs ++ x ∷ ys)
    → has b (a ∷ xs ++ x ∷ ys) ≡ false
    → Seg (removed x s) a (xs ++ ys) b
Seg-removed s a x b [] ys (n, p) t (da, d) hb = Seg-rest s a x b ys t p da (ground arith) d
Seg-removed s a x b (w ∷ xs) ys (n, p, r) t (da, d) hb =
    let last = Seg-last s w x xs r in
    let first = Seg-first s x b ys t in
    (
      ground (arith, last, has-append a xs (x ∷ ys)),
      ground (arith, first, has-append w xs (x ∷ ys)),
      Seg-removed s w x b xs ys r t d (ground arith),
    )

Distinct-drop : (xs : List ℕ) (x : ℕ) (ys : List ℕ) → Distinct (xs ++ x ∷ ys) → Distinct (xs ++ ys)
Distinct-drop [] x ys (h, d) = d
Distinct-drop (w ∷ xs) x ys (h, d) =
    (ground (arith, has-append w xs (x ∷ ys), has-append w xs ys), Distinct-drop xs x ys d)

Distinct-apart :
    (xs : List ℕ) (x : ℕ) (ys : List ℕ)
    → Distinct (xs ++ x ∷ ys)
    → (has x xs ≡ false) × (has x ys ≡ false)
Distinct-apart [] x ys (h, d) = (refl, h)
Distinct-apart (w ∷ xs) x ys (h, d) =
    let (p, q) = Distinct-apart xs x ys d in (ground (arith, has-append w xs (x ∷ ys)), q)

-- `list_remove` of an element of a well-formed list returns, takes the element out wherever it
-- stands, and keeps the order of the others; the pointers of elements outside the list, and the
-- interrupt flag, stay.
pub list_remove-IsList :
    (l x : ℕ) (s : Links) (xs ys : List ℕ)
    → IsList s l (xs ++ x ∷ ys)
    → (s' : Links) × (list_remove x s ≡ ok s') × IsList s' l (xs ++ ys) × Spares s s' l (xs ++ ys) x
list_remove-IsList l x s xs ys v =
    let (before, behind) = Seg-split s (head_of l) (tail_of l) x xs ys v.chain in
    let last = Seg-last s (head_of l) x xs before in
    let first = Seg-first s x (tail_of l) ys behind in
    let at_head = has-append (head_of l) xs (x ∷ ys) in
    let at_tail = has-append (tail_of l) xs (x ∷ ys) in
    let at_null = has-append 0 xs (x ∷ ys) in
    let apart = Distinct-apart xs x ys v.distinct in
    (
      removed x s,
      list_remove-removed x s (ground (arith, v.no_null)) (ground (arith, v.no_null, v.place))
          (ground (arith, v.no_null)) (ground (arith, v.no_head)),
      record {
        chain =
            Seg-removed s (head_of l) x (tail_of l) xs ys before behind (v.no_head, v.distinct)
              (ground (arith, v.no_tail));
        place = v.place;
        no_head = ground (arith, v.no_head, has-append (head_of l) xs ys);
        no_tail = ground (arith, v.no_tail, has-append (tail_of l) xs ys);
        no_null = ground (arith, v.no_null, has-append 0 xs ys);
        distinct = Distinct-drop xs x ys v.distinct;
      },
      record {
        intr = refl;
        others =
            λ q a b c d. (ground (arith, has-append q xs ys), ground (arith, has-append q xs ys));
      },
    )

-- On a well-formed list with a first element, `list_pop` takes that element out and returns it; the
-- pointers of elements outside the list, and the interrupt flag, stay.
pub list_pop-IsList :
    (l x : ℕ) (s : Links) (xs : List ℕ)
    → IsList s l (x ∷ xs)
    → (s' : Links) × (list_pop l s ≡ ok (x, s')) × IsList s' l xs × Spares s s' l xs x
unfolding list_pop
list_pop-IsList l x s xs v =
    let (s', r, is, spares) = list_remove-IsList l x s [] xs v in
    (s', rw (==_of_ne l 0 v.place, v.chain.0, r), is, spares)

-- On a well-formed empty list whose tail has NULL for its successor, `list_pop` takes the tail
-- sentinel for an element, and writes through NULL.
pub list_pop_empty :
    (l : ℕ) (s : Links) → IsList s l [] → s.next (tail_of l) ≡ 0 → list_pop l s ≡ fault
unfolding list_pop list_remove
list_pop_empty l s v h =
    rw (==_of_ne l 0 v.place, v.chain.0, ==_of_ne (l + 8) 0 (omega arith), v.chain.1)
      (rw (==_of_ne l 0 v.place, ==_of_ne l (l + 8) (omega arith), h))
