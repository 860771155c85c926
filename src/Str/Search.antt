-- ===== src/Str/Search.antt =====
-- `strchr`, `strrchr` and `strchrs`: the first place of a character, the last, and how many.
use oslearn.Base.{
  ℕ, zero, suc, ◌+◌, ◌^◌, ◌≤◌, ◌<◌, ◌≡◌, refl, ap, ◌≢◌, inl, inr, ◌∙◌, false, List, [], ◌∷◌, Option,
  none, some, arith, length, ==_of_ne, Bool-cases, if◌then◌else◌, ok, u32,
}
use mathlib.Core.Option
use oslearn.Str.{Mem, char_is, strchr_from, strchr, strrchr_from, strrchr, strchrs_from, strchrs}
use oslearn.Str.Strings.{IsString}

-- The index of the first `ch` among the characters.
unfoldable pub first_index : ℕ → List ℕ → Option ℕ
first_index ch [] = none
first_index ch (x ∷ xs) =
    if char_is x ch then some 0 else Option.map (λ i. i + 1) (first_index ch xs)

-- The index of the last one.
unfoldable pub last_index : ℕ → List ℕ → Option ℕ
last_index ch [] = none
last_index ch (x ∷ xs) = elim (last_index ch xs) [
  | some i ↦ some (i + 1)
  | none ↦ if char_is x ch then some 0 else none
]

unfoldable pub count : ℕ → List ℕ → ℕ
count ch [] = 0
count ch (x ∷ xs) = (if char_is x ch then 1 else 0) + count ch xs

-- The pointer to an index of the string at `p`, NULL if there is none.
abbrev pub pointer : ℕ → Option ℕ → ℕ
pointer p none = 0
pointer p (some i) = p + i

pointer-map : (p : ℕ) (o : Option ℕ) → pointer (p + 1) o ≡ pointer p (Option.map (λ i. i + 1) o)
pointer-map p none = refl
pointer-map p (some i) = omega arith

strchr_from-first_index :
    (f : ℕ) (m : Mem) (p ch : ℕ) (xs : List ℕ)
    → IsString m p xs
    → length xs < f
    → strchr_from f m p ch ≡ ok (pointer p (first_index ch xs))
unfolding strchr_from first_index
strchr_from-first_index zero m p ch xs s h = absurd (omega arith)
strchr_from-first_index (suc f) m p ch [] s h = rw s
strchr_from-first_index (suc f) m p ch (x ∷ xs) (e, ne, s) h =
    rw (e, ==_of_ne x 0 ne)
      (elim (Bool-cases (char_is x ch)) [
        | inl q ↦ rw q (ap ok (omega arith))
        | inr q ↦ rw q (
            strchr_from-first_index f m (p + 1) ch xs s (omega arith)
            ∙ ap ok (pointer-map p (first_index ch xs)))
      ])

-- `strchr` returns the place of the first character equal to `ch`, and NULL if there is none.
pub strchr-first_index :
    (fuel : ℕ) (m : Mem) (str ch : ℕ) (xs : List ℕ)
    → IsString m str xs
    → str ≢ 0
    → length xs < fuel
    → strchr fuel m str ch ≡ ok (pointer str (first_index ch xs))
unfolding strchr
strchr-first_index fuel m str ch xs s h l =
    rw (==_of_ne str 0 h) (strchr_from-first_index fuel m str ch xs s l)

abbrev later : ℕ → ℕ → Option ℕ → ℕ
later p last none = last
later p last (some i) = p + i

strrchr_from-last_index :
    (f : ℕ) (m : Mem) (p ch last : ℕ) (xs : List ℕ)
    → IsString m p xs
    → length xs < f
    → strrchr_from f m p ch last ≡ ok (later p last (last_index ch xs))
unfolding strrchr_from last_index
strrchr_from-last_index zero m p ch last xs s h = absurd (omega arith)
strrchr_from-last_index (suc f) m p ch last [] s h = rw s
strrchr_from-last_index (suc f) m p ch last (x ∷ xs) (e, ne, s) h =
    rw (e, ==_of_ne x 0 ne)
      (strrchr_from-last_index f m (p + 1) ch (if char_is x ch then p else last) xs s (omega arith)
        ∙ ap ok (here (last_index ch xs)))
  where
    here :
        (o : Option ℕ)
        → later (p + 1) (if char_is x ch then p else last) o
          ≡ later p last
              (elim o [ some i ↦ some (i + 1) | none ↦ if char_is x ch then some 0 else none ])
    here none = ground arith
    here (some i) = omega arith

-- `strrchr` returns the place of the last character equal to `ch`, and NULL if there is none.
pub strrchr-last_index :
    (fuel : ℕ) (m : Mem) (str ch : ℕ) (xs : List ℕ)
    → IsString m str xs
    → str ≢ 0
    → length xs < fuel
    → strrchr fuel m str ch ≡ ok (pointer str (last_index ch xs))
unfolding strrchr
strrchr-last_index fuel m str ch xs s h l =
    rw (==_of_ne str 0 h)
      (strrchr_from-last_index fuel m str ch 0 xs s l ∙ ap ok (same (last_index ch xs)))
  where
    same : (o : Option ℕ) → later str 0 o ≡ pointer str o
    same none = refl
    same (some i) = refl

strchrs_from-count :
    (f : ℕ) (m : Mem) (p ch n : ℕ) (xs : List ℕ)
    → IsString m p xs
    → length xs < f
    → n + length xs < 2 ^ 32
    → strchrs_from f m p ch n ≡ ok (n + count ch xs)
unfolding strchrs_from count
strchrs_from-count zero m p ch n xs s h l = absurd (omega arith)
strchrs_from-count (suc f) m p ch n [] s h l = rw s (ap ok (omega arith))
strchrs_from-count (suc f) m p ch n (x ∷ xs) (e, ne, s) h l =
    rw (e, ==_of_ne x 0 ne)
      (elim (Bool-cases (char_is x ch)) [
        | inl q ↦
            let c : u32 (n + 1) ≡ n + 1 = omega arith in
            rw (q, c)
              (strchrs_from-count f m (p + 1) ch (n + 1) xs s (omega arith) (omega arith)
                ∙ ap ok (omega arith))
        | inr q ↦ rw q (
            strchrs_from-count f m (p + 1) ch n xs s (omega arith) (omega arith)
            ∙ ap ok (omega arith))
      ])

-- `strchrs` counts the characters equal to `ch`.
pub strchrs-count :
    (fuel : ℕ) (m : Mem) (str ch : ℕ) (xs : List ℕ)
    → IsString m str xs
    → str ≢ 0
    → length xs < fuel
    → length xs < 2 ^ 32
    → strchrs fuel m str ch ≡ ok (count ch xs)
unfolding strchrs
strchrs-count fuel m str ch xs s h l k =
    rw (==_of_ne str 0 h)
      (strchrs_from-count fuel m str ch 0 xs s l (omega arith) ∙ ap ok (omega arith))

char_is_high : (c ch : ℕ) → 128 ≤ ch → char_is c ch ≡ false
unfolding char_is
char_is_high c ch h = ground arith

first_index_high : (ch : ℕ) (xs : List ℕ) → 128 ≤ ch → first_index ch xs ≡ none
unfolding first_index
first_index_high ch [] h = refl
first_index_high ch (x ∷ xs) h = rw (char_is_high x ch h, first_index_high ch xs h)

-- `strchr` returns NULL for a character code above 127, whatever the string holds, given fuel for
-- its length: `char` is signed and `ch` is not.
pub strchr_high :
    (fuel : ℕ) (m : Mem) (str ch : ℕ) (xs : List ℕ)
    → IsString m str xs
    → str ≢ 0
    → length xs < fuel
    → 128 ≤ ch
    → strchr fuel m str ch ≡ ok 0
strchr_high fuel m str ch xs s h l k =
    strchr-first_index fuel m str ch xs s h l ∙ rw (first_index_high ch xs k)
