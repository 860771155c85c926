-- ===== src/LinkedList/Seg.antt =====
-- The list that the pointers stand for.
use oslearn.Base.{
  ℕ, ◌+◌, ◌≡◌, refl, ◌≢◌, ◌∙◌, true, false, ◌||◌, List, [], ◌∷◌, ◌++◌, arith, ◌==◌, ok, ==_of_ne,
  has, Distinct,
}
use oslearn.LinkedList.{Links, update, head_of, tail_of, list_init}

-- From `a` the pointers lead through `xs` to `b`, and back.
abbrev pub Seg : Links → ℕ → List ℕ → ℕ → Type 0
Seg s a [] b = (s.next a ≡ b) × (s.prev b ≡ a)
Seg s a (x ∷ xs) b = (s.next a ≡ x) × (s.prev x ≡ a) × Seg s x xs b

-- The list at `l` has the elements `xs`, all of them different, and none is a sentinel or NULL.
pub record IsList (s : Links) (l : ℕ) (xs : List ℕ) : Type 0 where
  pub chain : Seg s (head_of l) xs (tail_of l)
  pub place : l ≢ 0
  pub no_head : has (head_of l) xs ≡ false
  pub no_tail : has (tail_of l) xs ≡ false
  pub no_null : has 0 xs ≡ false
  pub distinct : Distinct xs

-- An element that can be put into the list.
pub record IsFresh (l : ℕ) (xs : List ℕ) (e : ℕ) : Type 0 where
  pub not_null : e ≢ 0
  pub not_head : e ≢ head_of l
  pub not_tail : e ≢ tail_of l
  pub not_in : has e xs ≡ false

pub Seg-frame :
    (s s' : Links) (a b : ℕ) (xs : List ℕ)
    → Seg s a xs b
    → ((p : ℕ) → ((p == a) || has p xs) ≡ true → s'.next p ≡ s.next p)
    → ((p : ℕ) → ((p == b) || has p xs) ≡ true → s'.prev p ≡ s.prev p)
    → Seg s' a xs b
Seg-frame s s' a b [] (n, p) hn hp = (hn a (ground arith) ∙ n, hp b (ground arith) ∙ p)
Seg-frame s s' a b (x ∷ xs) (n, p, r) hn hp = (
  hn a (ground arith) ∙ n,
  hp x (ground arith) ∙ p,
  Seg-frame s s' x b xs r (λ q h. hn q (ground arith)) (λ q h. hp q (ground arith)),
)

-- A chain can be cut at an element.
pub Seg-split :
    (s : Links) (a b x : ℕ) (xs ys : List ℕ)
    → Seg s a (xs ++ x ∷ ys) b
    → Seg s a xs x × Seg s x ys b
Seg-split s a b x [] ys (n, p, r) = ((n, p), r)
Seg-split s a b x (y ∷ xs) ys (n, p, r) = let (l, r') = Seg-split s y b x xs ys r in ((n, p, l), r')

-- The element before the end of a chain.
pub Seg-last :
    (s : Links) (a b : ℕ) (xs : List ℕ)
    → Seg s a xs b
    → ((s.prev b == a) || has (s.prev b) xs) ≡ true
Seg-last s a b [] (n, p) = ground arith
Seg-last s a b (x ∷ xs) (n, p, r) = ground (arith, Seg-last s x b xs r)

-- `list_init` makes an empty list, and touches only its two sentinels.
pub list_init-IsList :
    (l : ℕ) (s : Links)
    → l ≢ 0
    → (s' : Links) × (list_init l s ≡ ok s')
      × IsList s' l []
      × ((p : ℕ) → p ≢ head_of l → p ≢ tail_of l → (s'.next p ≡ s.next p) × (s'.prev p ≡ s.prev p))
unfolding list_init
list_init-IsList l s h = (
  record s {
    prev = update (update s.prev l 0) (l + 8) l;
    next = update (update s.next l (l + 8)) (l + 8) 0;
  },
  rw (==_of_ne l 0 h, ==_of_ne (l + 8) 0 (omega arith)),
  record {
    chain = (ground arith, ground arith);
    place = h;
    no_head = refl;
    no_tail = refl;
    no_null = refl;
    distinct = tt;
  },
  λ p a b. (ground arith, ground arith),
)
