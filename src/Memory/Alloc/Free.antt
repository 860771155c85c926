-- ===== src/Memory/Alloc/Free.antt =====
-- How many bits of a bitmap are free.
use oslearn.Base.{
  ℕ, zero, suc, ◌+◌, ◌<◌, ◌≤◌, ◌≡◌, refl, true, false, ◌==◌, if◌then◌else◌, arith, Bool-cases, inl,
  inr, Bool, List, [], ◌∷◌, length, has, Distinct, ◌||◌, ◌&&◌, leb, ltb, ◌∙◌, ap, sym,
}
use oslearn.Bitmap.{Bitmap}
use oslearn.Bitmap.Bits.{used}

unfoldable pub free_below : Bitmap → ℕ → ℕ
free_below bm zero = 0
free_below bm (suc n) = free_below bm n + (if used bm n then 0 else 1)

-- Where all bits are free, they all count.
pub free_below_all :
    (bm : Bitmap) (n : ℕ) → ((i : ℕ) → i < n → used bm i ≡ false) → free_below bm n ≡ n
unfolding free_below
free_below_all bm zero h = refl
free_below_all bm (suc n) h = ground (arith, free_below_all bm n (λ i lt. h i (omega arith)), h n)

pub some_free :
    (bm : Bitmap) (n : ℕ) → 0 < free_below bm n → (i : ℕ) × (i < n) × (used bm i ≡ false)
unfolding free_below
some_free bm zero h = absurd (omega arith)
some_free bm (suc n) h = elim (Bool-cases (used bm n)) [
  | inl e ↦ let (i, lt, u) = some_free bm n (ground arith) in (i, omega arith, u)
  | inr e ↦ (n, omega arith, e)
]

free_below_above :
    (bm bm' : Bitmap) (i n : ℕ)
    → ((j : ℕ) → used bm' j ≡ (if i == j then true else used bm j))
    → n ≤ i
    → free_below bm' n ≡ free_below bm n
unfolding free_below
free_below_above bm bm' i zero bit h = refl
free_below_above bm bm' i (suc n) bit h =
    ground (arith, free_below_above bm bm' i n bit (omega arith), bit n)

-- Taking a free bit leaves one less.
pub free_below-Stored :
    (bm bm' : Bitmap) (i n : ℕ)
    → ((j : ℕ) → used bm' j ≡ (if i == j then true else used bm j))
    → used bm i ≡ false
    → i < n
    → free_below bm' n + 1 ≡ free_below bm n
unfolding free_below
free_below-Stored bm bm' i zero bit u h = absurd (omega arith)
free_below-Stored bm bm' i (suc n) bit u h = elim (Bool-cases (i == n)) [
  | inl e ↦ ground (arith, free_below_above bm bm' i n bit (ground arith), bit n)
  | inr e ↦ ground (arith, free_below-Stored bm bm' i n bit u (ground arith), bit n)
]

-- How many of the first numbers do not have a property.
abbrev missing : (ℕ → Bool) → ℕ → ℕ
missing p zero = 0
missing p (suc n) = missing p n + (if p n then 0 else 1)

free_below-missing : (bm : Bitmap) (n : ℕ) → free_below bm n ≡ missing (used bm) n
unfolding free_below
free_below-missing bm zero = refl
free_below-missing bm (suc n) = ground (arith, free_below-missing bm n)

missing_same : (p q : ℕ → Bool) (n : ℕ) → ((j : ℕ) → j < n → q j ≡ p j) → missing q n ≡ missing p n
missing_same p q zero h = refl
missing_same p q (suc n) h = ground (arith, missing_same p q n (λ j lt. h j (omega arith)), h n)

missing_one :
    (p : ℕ → Bool) (x n : ℕ)
    → p x ≡ false
    → x < n
    → missing (λ j. (j == x) || p j) n + 1 ≡ missing p n
missing_one p x zero u h = absurd (omega arith)
missing_one p x (suc n) u h = elim (Bool-cases (n == x)) [
  | inl e ↦ ground (arith, missing_same p (λ j. (j == x) || p j) n (λ j lt. ground arith))
  | inr e ↦ ground (arith, missing_one p x n u (ground arith))
]

missing_all :
    (p : ℕ → Bool) (fs : List ℕ) (n : ℕ)
    → Distinct fs
    → ((i : ℕ) → has i fs ≡ true → i < n)
    → ((i : ℕ) → has i fs ≡ true → p i ≡ false)
    → missing (λ j. has j fs || p j) n + length fs ≡ missing p n
missing_all p [] n d inside free = omega arith
missing_all p (x ∷ fs) n (new, d) inside free =
    let rest : missing (λ j. has j fs || p j) n + length fs ≡ missing p n =
      missing_all p fs n d (λ i h. inside i (ground arith)) (λ i h. free i (ground arith)) in
    let one : missing (λ j. (j == x) || (has j fs || p j)) n + 1
        ≡ missing (λ j. has j fs || p j) n =
      missing_one (λ j. has j fs || p j) x n (ground (arith, free x)) (inside x (ground arith)) in
    ap (λ t. t + suc (length fs))
      (missing_same (λ j. (j == x) || (has j fs || p j)) (λ j. has j (x ∷ fs) || p j) n
        (λ j lt. ground arith))
    ∙ omega arith

-- Taking different free bits leaves as many less.
pub free_below-taken :
    (bm bm' : Bitmap) (fs : List ℕ) (n : ℕ)
    → Distinct fs
    → ((i : ℕ) → has i fs ≡ true → i < n)
    → ((i : ℕ) → has i fs ≡ true → used bm i ≡ false)
    → ((i : ℕ) → used bm' i ≡ (has i fs || used bm i))
    → free_below bm' n + length fs ≡ free_below bm n
free_below-taken bm bm' fs n d inside free taken =
    ap (λ t. t + length fs)
      (free_below-missing bm' n
        ∙ missing_same (λ j. has j fs || used bm j) (used bm') n (λ j lt. taken j))
    ∙ missing_all (used bm) fs n d inside free
    ∙ sym (free_below-missing bm n)

missing_run :
    (p : ℕ → Bool) (i n top : ℕ)
    → i + n ≤ top
    → ((j : ℕ) → j < n → p (i + j) ≡ false)
    → missing (λ j. if leb i j && ltb j (i + n) then true else p j) top + n ≡ missing p top
missing_run p i zero top h free =
    ap (λ t. t + 0)
      (missing_same p (λ j. if leb i j && ltb j (i + 0) then true else p j) top
        (λ j lt. ground arith))
    ∙ omega arith
missing_run p i (suc n) top h free =
    let q : ℕ → Bool = λ j. if leb i j && ltb j (i + n) then true else p j in
    let rest : missing q top + n ≡ missing p top =
      missing_run p i n top (omega arith) (λ j lt. free j (omega arith)) in
    let one : missing (λ j. (j == i + n) || q j) top + 1 ≡ missing q top =
      missing_one q (i + n) top (ground (arith, free n)) (omega arith) in
    ap (λ t. t + suc n)
      (missing_same (λ j. (j == i + n) || q j)
        (λ j. if leb i j && ltb j (i + suc n) then true else p j) top (λ j lt. ground arith))
    ∙ omega arith

-- Taking a run of free bits leaves as many less.
pub free_below-run :
    (bm bm' : Bitmap) (i n top : ℕ)
    → i + n ≤ top
    → ((j : ℕ) → j < n → used bm (i + j) ≡ false)
    → ((j : ℕ) → used bm' j ≡ (if leb i j && ltb j (i + n) then true else used bm j))
    → free_below bm' top + n ≡ free_below bm top
free_below-run bm bm' i n top h free taken =
    ap (λ t. t + n)
      (free_below-missing bm' top
        ∙ missing_same (λ j. if leb i j && ltb j (i + n) then true else used bm j) (used bm') top
            (λ j lt. taken j))
    ∙ missing_run (used bm) i n top h free
    ∙ sym (free_below-missing bm top)
