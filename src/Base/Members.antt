-- ===== src/Base/Members.antt =====
-- Lists of addresses without repetition.
use Prim.Native.Nat.{ℕ, zero, suc, ◌<◌}
use mathlib.Core.Path.{◌≡◌, refl, ap, sym, ◌∙◌}
use mathlib.Core.Bool.{Bool, true, false, ◌||◌, false≢true}
use mathlib.Core.Logic.{◌≢◌}
use mathlib.Core.List.{List, [], ◌∷◌, ◌++◌}
use native.Mathlib.Omega.{arith}
use oslearn.Base.Test.{◌==◌, ==-refl}
use oslearn.Base.Array.{length, get_or}

abbrev pub has : ℕ → List ℕ → Bool
has a [] = false
has a (x ∷ xs) = (a == x) || has a xs

abbrev pub Distinct : List ℕ → Type 0
Distinct [] = Unit
Distinct (x ∷ xs) = (has x xs ≡ false) × Distinct xs

pub has-append : (a : ℕ) (xs ys : List ℕ) → has a (xs ++ ys) ≡ (has a xs || has a ys)
has-append a [] ys = refl
has-append a (x ∷ xs) ys = ground (arith, has-append a xs ys)

pub Distinct-append :
    (xs : List ℕ) (e : ℕ) → Distinct xs → has e xs ≡ false → Distinct (xs ++ e ∷ [])
Distinct-append [] e d h = (refl, tt)
Distinct-append (x ∷ xs) e (o, d) h =
    (ground (arith, has-append x xs (e ∷ [])), Distinct-append xs e d (ground arith))

pub has-get_or : (xs : List ℕ) (i : ℕ) → i < length xs → has (get_or xs i 0) xs ≡ true
has-get_or [] i h = absurd (omega arith)
has-get_or (x ∷ xs) zero h = rw (==-refl x) refl
has-get_or (x ∷ xs) (suc i) h = ground (arith, has-get_or xs i (omega arith))

pub Distinct-get_or :
    (xs : List ℕ) (i j : ℕ)
    → Distinct xs
    → i < length xs
    → j < length xs
    → i ≢ j
    → get_or xs i 0 ≢ get_or xs j 0
Distinct-get_or [] i j d hi hj ne e = omega arith
Distinct-get_or (x ∷ xs) zero zero d hi hj ne e = ne refl
Distinct-get_or (x ∷ xs) zero (suc j) (o, d) hi hj ne e =
    false≢true (sym o ∙ ap (λ t. has t xs) e ∙ has-get_or xs j (omega arith))
Distinct-get_or (x ∷ xs) (suc i) zero (o, d) hi hj ne e =
    false≢true (sym o ∙ ap (λ t. has t xs) (sym e) ∙ has-get_or xs i (omega arith))
Distinct-get_or (x ∷ xs) (suc i) (suc j) (o, d) hi hj ne e =
    Distinct-get_or xs i j d (omega arith) (omega arith) (λ q. ne (ap suc q)) e
