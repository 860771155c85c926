-- ===== src/Str/Tests.antt =====
-- The routines on a small memory.
use oslearn.Base.{ℕ, ◌+◌, ◌-◌, ◌≡◌, ◌↔◌, refl, inr, if◌then◌else◌, [], ◌∷◌, arith, ok, ◌==◌, negsuc}
use oslearn.Str.{char_lt, Mem, strcpy, strcmp}
use oslearn.Str.Memory.{within}
use oslearn.Str.Strings.{IsString}
use oslearn.Str.Compare.{lex, strcmp-lex}
use oslearn.Str.Copy.{strcpy_lem}

-- "ab" at 10, "ad" at 20, and 7 in every other byte.
abbrev memory : Mem
memory a =
    if a == 10
    then 0x61
    else if a == 11
    then 0x62
    else if a == 12
    then 0
    else if a == 20
    then 0x61
    else if a == 21
    then 0x64
    else if a == 22
    then 0
    else 7

ab : IsString memory 10 (0x61 ∷ 0x62 ∷ [])
ab = (refl, omega arith, (refl, omega arith, refl))

ad : IsString memory 20 (0x61 ∷ 0x64 ∷ [])
ad = (refl, omega arith, (refl, omega arith, refl))

strcmp-lex_example : strcmp 3 memory 10 20 ≡ ok (negsuc 0)
unfolding lex char_lt
strcmp-lex_example =
    strcmp-lex 3 memory 10 20 (0x61 ∷ 0x62 ∷ []) (0x61 ∷ 0x64 ∷ []) ab ad (omega arith)
      (omega arith) (omega arith)

strcpy_lem_example :
    (m' : Mem) × (strcpy 3 memory 30 10 ≡ ok (m', 30))
    × ((a : ℕ) → m' a ≡ (if within 30 2 a then memory (10 + (a - 30)) else memory a))
    × (IsString m' 30 (0x61 ∷ 0x62 ∷ []) ↔ (memory 32 ≡ 0))
strcpy_lem_example =
    strcpy_lem 3 memory 30 10 (0x61 ∷ 0x62 ∷ []) ab (inr (omega arith)) (omega arith)
