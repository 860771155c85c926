-- ===== src/LinkedList/Insert.antt =====
-- `list_insert_before`, `list_push` and `list_append`.
use oslearn.Base.{
  has, Distinct, Distinct-append, has-append, ℕ, ◌≡◌, refl, ◌≢◌, false, ◌||◌, List, [], ◌∷◌, ◌++◌,
  arith, ◌==◌, ok, ==_of_ne,
}
use oslearn.Interrupt.Status.{intr_set_status-disable}
use oslearn.LinkedList.{Links, update, head_of, tail_of, list_insert_before, list_push, list_append}
use oslearn.LinkedList.Seg.{Seg, Seg-frame, Seg-last, IsList, IsFresh}

-- The pointers after `elem` has been put in front of `before`.
abbrev inserted : ℕ → ℕ → Links → Links
inserted before elem s = record s {
  next = update (update s.next (s.prev before) elem) elem before;
  prev = update (update s.prev elem (s.prev before)) before elem;
}

insert_before-inserted :
    (before elem : ℕ) (s : Links)
    → before ≢ 0
    → s.prev before ≢ 0
    → elem ≢ 0
    → list_insert_before before elem s ≡ ok (inserted before elem s)
unfolding list_insert_before
insert_before-inserted before elem s hb hp he = rw (
  ==_of_ne before 0 hb,
  ==_of_ne (s.prev before) 0 hp,
  ==_of_ne elem 0 he,
  (intr_set_status-disable s.intr).1,
)

-- The chain up to the place grows by the element.
Seg-inserted :
    (s : Links) (a c e : ℕ) (xs : List ℕ)
    → Seg s a xs c
    → Distinct (a ∷ xs)
    → ((c == a) || has c xs) ≡ false
    → ((e == a) || has e xs) ≡ false
    → e ≢ c
    → Seg (inserted c e s) a (xs ++ e ∷ []) c
Seg-inserted s a c e [] (n, p) d hc he ne =
    (ground arith, ground arith, (ground arith, ground arith))
Seg-inserted s a c e (x ∷ xs) (n, p, r) (da, d) hc he ne =
    let last = Seg-last s x c xs r in
    (
      ground (arith, last),
      ground arith,
      Seg-inserted s x c e xs r d (ground arith) (ground arith) ne,
    )

-- What an operation leaves alone: the interrupt flag, and every element that is not concerned.
pub record Spares (s s' : Links) (l : ℕ) (xs : List ℕ) (e : ℕ) : Type 0 where
  pub intr : s'.intr ≡ s.intr
  pub others :
      (q : ℕ)
      → q ≢ head_of l
      → q ≢ tail_of l
      → q ≢ e
      → has q xs ≡ false
      → (s'.next q ≡ s.next q) × (s'.prev q ≡ s.prev q)

ends_apart : (l : ℕ) → (tail_of l == head_of l) ≡ false
ends_apart l = ground arith

-- On a well-formed list and an element that is not in it, `list_append` returns and puts the
-- element at the end; the pointers of elements outside the list, and the interrupt flag, stay.
pub list_append-IsList :
    (l e : ℕ) (s : Links) (xs : List ℕ)
    → IsList s l xs
    → IsFresh l xs e
    → (s' : Links) × (list_append l e s ≡ ok s') × IsList s' l (xs ++ e ∷ []) × Spares s s' l xs e
unfolding list_append
list_append-IsList l e s xs v f =
    let last = Seg-last s (head_of l) (tail_of l) xs v.chain in
    let nonzero : s.prev (tail_of l) ≢ 0 = ground (arith, v.place, v.no_null, last) in
    (
      inserted (tail_of l) e s,
      insert_before-inserted (tail_of l) e s (omega arith) nonzero f.not_null,
      record {
        chain =
            Seg-inserted s (head_of l) (tail_of l) e xs v.chain (v.no_head, v.distinct)
              (ground (arith, v.no_tail)) (ground (arith, f.not_head, f.not_in)) f.not_tail;
        place = v.place;
        no_head = ground (arith, has-append (head_of l) xs (e ∷ []), v.no_head, f.not_head);
        no_tail = ground (arith, has-append (tail_of l) xs (e ∷ []), v.no_tail, f.not_tail);
        no_null = ground (arith, has-append 0 xs (e ∷ []), v.no_null, f.not_null);
        distinct = Distinct-append xs e v.distinct f.not_in;
      },
      record { intr = refl; others = λ q a b c d. (ground (arith, last), ground arith) },
    )

-- The rest of a chain whose first element gets a new one in front.
Seg-behind :
    (s : Links) (b c e : ℕ) (xs : List ℕ)
    → Seg s c xs b
    → has c xs ≡ false
    → c ≢ b
    → ((e == c) || has e xs) ≡ false
    → e ≢ b
    → ((s.prev c == c) || has (s.prev c) xs) ≡ false
    → Seg (inserted c e s) c xs b
Seg-behind s b c e xs r hc cb he eb hp =
    Seg-frame s (inserted c e s) c b xs r (λ q h. ground arith) (λ q h. ground arith)

-- On a well-formed list and an element that is not in it, `list_push` returns and puts the element
-- at the front; the pointers of elements outside the list, and the interrupt flag, stay.
pub list_push-IsList :
    (l e : ℕ) (s : Links) (xs : List ℕ)
    → IsList s l xs
    → IsFresh l xs e
    → (s' : Links) × (list_push l e s ≡ ok s') × IsList s' l (e ∷ xs) × Spares s s' l xs e
unfolding list_push
list_push-IsList l e s [] v f =
    let (s', r, is, spares) = list_append-IsList l e s [] v f in
    (s', rw (==_of_ne l 0 v.place, v.chain.0) (unfold list_append in r), is, spares)
list_push-IsList l e s (x ∷ xs) v f =
    let (n, p, r) = v.chain in
    let nonzero : x ≢ 0 = ground (arith, v.no_null) in
    let head : s.prev x ≢ 0 = rw p v.place in
    let ne : e ≢ x = ground (arith, f.not_in) in
    (
      inserted x e s,
      rw (==_of_ne l 0 v.place, n) (insert_before-inserted x e s nonzero head f.not_null),
      record {
        chain = (
          ground (arith, f.not_head),
          ground arith,
          (
            ground arith,
            ground arith,
            Seg-behind s (tail_of l) x e xs r v.distinct.0 (ground (arith, v.no_tail))
                (ground (arith, f.not_in)) f.not_tail (ground (arith, v.no_head)),
          ),
        );
        place = v.place;
        no_head = ground (arith, v.no_head, f.not_head);
        no_tail = ground (arith, v.no_tail, f.not_tail);
        no_null = ground (arith, v.no_null, f.not_null);
        distinct = (f.not_in, v.distinct);
      },
      record { intr = refl; others = λ q a b c d. (ground arith, ground arith) },
    )
