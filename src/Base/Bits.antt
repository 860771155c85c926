-- ===== src/Base/Bits.antt =====
-- The masks and shifts of the C code as arithmetic: a mask of adjacent ones, and `|` of fields that
-- share no bit.
use Prim.Native.Nat.{
  ℕ, zero, suc, ◌+◌, ◌-◌, ◌*◌, ◌/◌, ◌%◌, ◌^◌, ◌<◌, ◌≤◌, min, max, digits, bit_and, bit_or,
  bit_and-bitwise, bit_or-bitwise,
}
use mathlib.Core.Path.{◌≡◌, refl, ap, sym, ◌∙◌}
use native.Mathlib.Nat.{pow-suc, one-le-pow, div-add-mod', mod-lt}
use native.Mathlib.Omega.{arith}

-- Any two counts of rounds that cover `a` give the same digits.
digits-rounds :
    (z : ℕ → ℕ) (f : ℕ → ℕ → ℕ) (b a m n : ℕ) → a ≤ m → a ≤ n → digits z f m a b ≡ digits z f n a b
digits-rounds z f b zero zero zero hm hn = refl
digits-rounds z f b zero zero (suc n) hm hn = refl
digits-rounds z f b zero (suc m) zero hm hn = refl
digits-rounds z f b zero (suc m) (suc n) hm hn = refl
digits-rounds z f b (suc a) zero n hm hn = absurd (omega arith)
digits-rounds z f b (suc a) (suc m) zero hm hn = absurd (omega arith)
digits-rounds z f b (suc a) (suc m) (suc n) hm hn =
    ap (λ t. t * 2 + f (suc a % 2) (b % 2))
      (digits-rounds z f (b / 2) (suc a / 2) m n (omega arith) (omega arith))

-- The lowest digit, and the rest.
pub bit_and-digit : (a b : ℕ) → bit_and a b ≡ bit_and (a / 2) (b / 2) * 2 + min (a % 2) (b % 2)
bit_and-digit zero b = simp bit_and-bitwise (omega arith)
bit_and-digit (suc a) b = simp bit_and-bitwise (
    ap (λ t. t * 2 + min (suc a % 2) (b % 2))
      (digits-rounds (λ y. 0) min (b / 2) (suc a / 2) a (suc a / 2) (omega arith) (omega arith)))

pub bit_or-digit : (a b : ℕ) → bit_or a b ≡ bit_or (a / 2) (b / 2) * 2 + max (a % 2) (b % 2)
bit_or-digit zero b = simp bit_or-bitwise (omega arith)
bit_or-digit (suc a) b = simp bit_or-bitwise (
    ap (λ t. t * 2 + max (suc a % 2) (b % 2))
      (digits-rounds (λ y. y) max (b / 2) (suc a / 2) a (suc a / 2) (omega arith) (omega arith)))

and_zero : (n a : ℕ) → digits (λ y. 0) min n a 0 ≡ 0
and_zero zero a = refl
and_zero (suc n) zero = refl
and_zero (suc n) (suc a) = omega (arith, and_zero n (suc a / 2))

or_zero : (n a : ℕ) → a ≤ n → digits (λ y. y) max n a 0 ≡ a
or_zero zero zero h = refl
or_zero zero (suc a) h = absurd (omega arith)
or_zero (suc n) zero h = refl
or_zero (suc n) (suc a) h = omega (arith, or_zero n (suc a / 2) (omega arith))

pub bit_and-zero : (a : ℕ) → bit_and a 0 ≡ 0
bit_and-zero a = simp bit_and-bitwise (and_zero a a)

pub bit_or-zero : (a : ℕ) → bit_or a 0 ≡ a
bit_or-zero a = simp bit_or-bitwise (or_zero a a (omega arith))

twice : (q k : ℕ) → q * 2 ^ suc k ≡ 2 * (q * 2 ^ k)
twice q k = omega (arith, ap (λ (t : ℕ). q * t) (pow-suc 2 k))

-- A mask that is shifted left reads the digits from place `k` on.
pub bit_and-shifted :
    (k q r b : ℕ) → r < 2 ^ k → bit_and (q * 2 ^ k + r) (b * 2 ^ k) ≡ bit_and q b * 2 ^ k
bit_and-shifted zero q r b h =
    let e : q * 1 + r ≡ q = omega arith in
    let d : b * 1 ≡ b = omega arith in rw (e, d) (omega arith)
bit_and-shifted (suc k) q r b h = ground (
  arith,
  bit_and-digit (q * 2 ^ suc k + r) (b * 2 ^ suc k),
  twice q k,
  twice b k,
  twice (bit_and q b) k,
  pow-suc 2 k,
  bit_and-shifted k q (r / 2) b (omega (arith, pow-suc 2 k)),
)

-- A mask of `k` ones reads the digits below place `k`.
pub bit_and-ones : (k q r : ℕ) → r < 2 ^ k → bit_and (q * 2 ^ k + r) (2 ^ k - 1) ≡ r
bit_and-ones zero q r h = bit_and-zero (q * 1 + r) ∙ omega arith
bit_and-ones (suc k) q r h = ground (
  arith,
  bit_and-digit (q * 2 ^ suc k + r) (2 ^ suc k - 1),
  twice q k,
  pow-suc 2 k,
  one-le-pow k 2,
  bit_and-ones k q (r / 2) (omega (arith, pow-suc 2 k)),
)

-- Fields that share no digit.
pub bit_or-fields : (k q r : ℕ) → r < 2 ^ k → bit_or (q * 2 ^ k) r ≡ q * 2 ^ k + r
bit_or-fields zero q r h = let e : r ≡ 0 = omega arith in rw e (bit_or-zero (q * 1) ∙ omega arith)
bit_or-fields (suc k) q r h = ground (
  arith,
  bit_or-digit (q * 2 ^ suc k) r,
  twice q k,
  pow-suc 2 k,
  bit_or-fields k q (r / 2) (omega (arith, pow-suc 2 k)),
)

-- The same for any number.
pub bit_and_low : (k a : ℕ) → bit_and a (2 ^ k - 1) ≡ a % 2 ^ k
bit_and_low k a =
    ap (λ t. bit_and t (2 ^ k - 1)) (sym (div-add-mod' a (2 ^ k)))
    ∙ bit_and-ones k (a / 2 ^ k) (a % 2 ^ k) (mod-lt a (omega (arith, one-le-pow k 2)))

-- A mask of `w` ones, from place `k` on.
pub bit_and_field : (w k a : ℕ) → bit_and a ((2 ^ w - 1) * 2 ^ k) ≡ a / 2 ^ k % 2 ^ w * 2 ^ k
bit_and_field w k a =
    ap (λ t. bit_and t ((2 ^ w - 1) * 2 ^ k)) (sym (div-add-mod' a (2 ^ k)))
    ∙ bit_and-shifted k (a / 2 ^ k) (a % 2 ^ k) (2 ^ w - 1)
        (mod-lt a (omega (arith, one-le-pow k 2)))
    ∙ ap (λ t. t * 2 ^ k) (bit_and_low w (a / 2 ^ k))

pub bit_or-fields_swap : (k q r : ℕ) → r < 2 ^ k → bit_or r (q * 2 ^ k) ≡ q * 2 ^ k + r
bit_or-fields_swap zero q r h = let e : r ≡ 0 = omega arith in rw e (or_left (q * 1) ∙ omega arith)
  where
    or_left : (b : ℕ) → bit_or 0 b ≡ b
    or_left b = simp bit_or-bitwise refl
bit_or-fields_swap (suc k) q r h = ground (
  arith,
  bit_or-digit r (q * 2 ^ suc k),
  twice q k,
  pow-suc 2 k,
  bit_or-fields_swap k q (r / 2) (omega (arith, pow-suc 2 k)),
)
