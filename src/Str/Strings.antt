-- ===== src/Str/Strings.antt =====
-- Strings in memory, and `strlen`.
use oslearn.Base.{
  ℕ, zero, suc, ◌+◌, ◌^◌, ◌≤◌, ◌<◌, ◌≡◌, ap, ◌≢◌, ◌∙◌, List, [], ◌∷◌, ◌++◌, arith, length, ==_of_ne,
  u32, ok,
}
use oslearn.Str.{Mem, strlen_from, strlen}

-- The bytes `xs`, none of them 0, stand from `p` on, and a terminator behind them.
abbrev pub IsString : Mem → ℕ → List ℕ → Type 0
IsString m p [] = m p ≡ 0
IsString m p (x ∷ xs) = (m p ≡ x) × (x ≢ 0) × IsString m (p + 1) xs

-- A string survives a change of memory that spares its bytes and its terminator.
pub IsString-frame :
    (m m' : Mem) (p : ℕ) (xs : List ℕ)
    → ((a : ℕ) → p ≤ a → a ≤ p + length xs → m' a ≡ m a)
    → IsString m p xs
    → IsString m' p xs
IsString-frame m m' p [] same s = same p (omega arith) (omega arith) ∙ s
IsString-frame m m' p (x ∷ xs) same (e, ne, s) = (
  same p (omega arith) (omega arith) ∙ e,
  ne,
  IsString-frame m m' (p + 1) xs (λ a h k. same a (omega arith) (omega arith)) s,
)

pub IsString-end : (m : Mem) (p : ℕ) (xs : List ℕ) → IsString m p xs → m (p + length xs) ≡ 0
IsString-end m p [] s = ap m (omega arith) ∙ s
IsString-end m p (x ∷ xs) (e, ne, s) = ap m (omega arith) ∙ IsString-end m (p + 1) xs s

pub IsString-append :
    (m : Mem) (p : ℕ) (xs ys : List ℕ) → IsString m p (xs ++ ys) → IsString m (p + length xs) ys
IsString-append m p [] ys s = let e : p + 0 ≡ p = omega arith in rw e s
IsString-append m p (x ∷ xs) ys (e, ne, s) =
    let q : p + suc (length xs) ≡ p + 1 + length xs = omega arith in
    rw q (IsString-append m (p + 1) xs ys s)

strlen_from-length :
    (f : ℕ) (m : Mem) (p count : ℕ) (xs : List ℕ)
    → IsString m p xs
    → length xs < f
    → count + length xs < 2 ^ 32
    → strlen_from f m p count ≡ ok (count + length xs)
unfolding strlen_from
strlen_from-length zero m p count xs s h l = absurd (omega arith)
strlen_from-length (suc f) m p count [] s h l = rw s (ap ok (omega arith))
strlen_from-length (suc f) m p count (x ∷ xs) (e, ne, s) h l =
    let c : u32 (count + 1) ≡ count + 1 = omega arith in
    rw (e, ==_of_ne x 0 ne, c)
      (strlen_from-length f m (p + 1) (count + 1) xs s (omega arith) (omega arith)
        ∙ ap ok (omega arith))

-- `strlen` is the number of bytes before the terminator.
pub strlen-length :
    (fuel : ℕ) (m : Mem) (str : ℕ) (xs : List ℕ)
    → IsString m str xs
    → str ≢ 0
    → length xs < fuel
    → length xs < 2 ^ 32
    → strlen fuel m str ≡ ok (length xs)
unfolding strlen
strlen-length fuel m str xs s h f l =
    rw (==_of_ne str 0 h)
      (strlen_from-length fuel m str 0 xs s f (omega arith) ∙ ap ok (omega arith))
