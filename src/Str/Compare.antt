-- ===== src/Str/Compare.antt =====
-- `strcmp` orders strings as a dictionary does, by the order of `char`.
use oslearn.Base.{
  ℕ, zero, suc, ◌+◌, ◌<◌, ◌≡◌, refl, ap, ◌≢◌, ◌↔◌, inl, inr, ◌∙◌, false, List, [], ◌∷◌, arith,
  length, ==_of_ne, Bool-cases, if◌then◌else◌, ℤ, pos, negsuc, ok, ap₂,
}
use oslearn.Str.{Mem, char_lt, strcmp_from, strcmp}
use oslearn.Str.Memory.{eq_of_char_lt}
use oslearn.Str.Strings.{IsString}

-- The order of two strings, as 1, -1 or 0.
unfoldable pub lex : List ℕ → List ℕ → ℤ
lex [] [] = pos 0
lex (x ∷ xs) [] = pos 1
lex [] (y ∷ ys) = negsuc 0
lex (x ∷ xs) (y ∷ ys) = if char_lt y x then pos 1 else if char_lt x y then negsuc 0 else lex xs ys

strcmp_from-lex :
    (f : ℕ) (m : Mem) (a b : ℕ) (xs ys : List ℕ)
    → IsString m a xs
    → IsString m b ys
    → length xs < f
    → strcmp_from f m a b ≡ ok (lex xs ys)
unfolding strcmp_from lex
strcmp_from-lex zero m a b xs ys s t h = absurd (omega arith)
strcmp_from-lex (suc f) m a b [] [] s t h = rw (s, t)
strcmp_from-lex (suc f) m a b [] (y ∷ ys) s (e, ne, t) h = rw (s, e, ==_of_ne y 0 ne)
strcmp_from-lex (suc f) m a b (x ∷ xs) [] (e, ne, s) t h = rw (e, t, ==_of_ne x 0 ne)
strcmp_from-lex (suc f) m a b (x ∷ xs) (y ∷ ys) (e, ne, s) (e', ne', t) h =
    rw (e, e', ==_of_ne x 0 ne, ==_of_ne y 0 ne')
      (elim (Bool-cases (char_lt y x)) [
        | inl p ↦ rw p
        | inr p ↦ elim (Bool-cases (char_lt x y)) [
          | inl q ↦ rw (p, q)
          | inr q ↦ rw (p, q) (strcmp_from-lex f m (a + 1) (b + 1) xs ys s t (omega arith))
        ]
      ])

-- On two strings, neither at NULL, with more fuel than the first is long, `strcmp` returns their
-- dictionary order.
pub strcmp-lex :
    (fuel : ℕ) (m : Mem) (a b : ℕ) (xs ys : List ℕ)
    → IsString m a xs
    → IsString m b ys
    → a ≢ 0
    → b ≢ 0
    → length xs < fuel
    → strcmp fuel m a b ≡ ok (lex xs ys)
unfolding strcmp
strcmp-lex fuel m a b xs ys s t ha hb h =
    rw (==_of_ne a 0 ha, ==_of_ne b 0 hb) (strcmp_from-lex fuel m a b xs ys s t h)

abbrev pub AllBytes : List ℕ → Type 0
AllBytes [] = Unit
AllBytes (x ∷ xs) = (x < 256) × AllBytes xs

-- Two strings of bytes compare as 0 exactly when they are the same.
pub lex-zero : (xs ys : List ℕ) → AllBytes xs → AllBytes ys → lex xs ys ≡ pos 0 → xs ≡ ys
unfolding lex
lex-zero [] [] p q h = refl
lex-zero [] (y ∷ ys) p q h = cc
lex-zero (x ∷ xs) [] p q h = cc
lex-zero (x ∷ xs) (y ∷ ys) (hx, p) (hy, q) h = elim (Bool-cases (char_lt y x)) [
  | inl e ↦ cc (rw e at h)
  | inr e ↦ elim (Bool-cases (char_lt x y)) [
    | inl e' ↦ cc (rw (e, e') at h)
    | inr e' ↦ ap₂ ◌∷◌ (eq_of_char_lt x y hx hy e' e) (lex-zero xs ys p q (rw (e, e') at h))
  ]
]

char_lt_irrefl : (x : ℕ) → char_lt x x ≡ false
unfolding char_lt
char_lt_irrefl x = ground arith

lex_refl : (xs : List ℕ) → lex xs xs ≡ pos 0
unfolding lex
lex_refl [] = refl
lex_refl (x ∷ xs) = rw (char_lt_irrefl x) (lex_refl xs)

-- `strcmp` is 0 exactly for equal strings.
pub strcmp_zero_iff :
    (fuel : ℕ) (m : Mem) (a b : ℕ) (xs ys : List ℕ)
    → IsString m a xs
    → IsString m b ys
    → AllBytes xs
    → AllBytes ys
    → a ≢ 0
    → b ≢ 0
    → length xs < fuel
    → (strcmp fuel m a b ≡ ok (pos 0)) ↔ (xs ≡ ys)
strcmp_zero_iff fuel m a b xs ys s t p q ha hb h = (
  λ e. lex-zero xs ys p q (value (lex xs ys) (cc (e, strcmp-lex fuel m a b xs ys s t ha hb h))),
  λ e. strcmp-lex fuel m a b xs ys s t ha hb h ∙ ap ok (rw e (lex_refl ys)),
)
  where
    value : (r : ℤ) → ok r ≡ ok (pos 0) → r ≡ pos 0
    value r e = cc
