-- ===== src/Str/Memory.antt =====
-- The routines that are given a size: `memset`, `memcpy`, `memcmp`.
use oslearn.Base.{
  ℕ, zero, suc, ◌+◌, ◌-◌, ◌≤◌, ◌<◌, ◌≡◌, refl, ◌≢◌, ◌⊎◌, inl, inr, Bool, true, false, ◌&&◌, arith,
  ltb, leb, ==_of_ne, Bool-cases, if◌then◌else◌, ℤ, pos, negsuc, ok,
}
use oslearn.Str.{Mem, store, fill, memset, copy, memcpy, char_lt, compare_bytes, memcmp}

-- `a` is one of the `n` addresses from `p` on.
abbrev pub within : ℕ → ℕ → ℕ → Bool
within p n a = leb p a && ltb a (p + n)

fill_lem : (n : ℕ) (m : Mem) (p v a : ℕ) → fill n m p v a ≡ (if within p n a then v else m a)
unfolding fill
fill_lem zero m p v a = ground arith
fill_lem (suc n) m p v a = ground (arith, fill_lem n (store m p v) (p + 1) v a)

-- `memset` writes the value to the `size` bytes from `dst` on, and to no other.
pub memset_lem :
    (m : Mem) (dst value size : ℕ)
    → dst ≢ 0
    → (m' : Mem) × (memset m dst value size ≡ ok m')
      × ((a : ℕ) → m' a ≡ (if within dst size a then value else m a))
unfolding memset
memset_lem m dst value size h =
    (fill size m dst value, rw (==_of_ne dst 0 h), fill_lem size m dst value)

-- The target does not start inside the source.
abbrev pub CopiesForward : ℕ → ℕ → ℕ → Type 0
CopiesForward n dst src = (dst ≤ src) ⊎ (src + n ≤ dst)

pub copy_lem :
    (n : ℕ) (m : Mem) (d s a : ℕ)
    → CopiesForward n d s
    → copy n m d s a ≡ (if within d n a then m (s + (a - d)) else m a)
unfolding copy
copy_lem zero m d s a h = ground arith
copy_lem (suc n) m d s a h = ground (arith, copy_lem n (store m d (m s)) (d + 1) (s + 1) a)

-- Unless an area is at NULL or the target starts inside the source, `memcpy` leaves in the `size`
-- bytes from `dst` on what those from `src` on held before, and changes no other byte.
pub memcpy_lem :
    (m : Mem) (dst src size : ℕ)
    → dst ≢ 0
    → src ≢ 0
    → CopiesForward size dst src
    → (m' : Mem) × (memcpy m dst src size ≡ ok m')
      × ((a : ℕ) → m' a ≡ (if within dst size a then m (src + (a - dst)) else m a))
unfolding memcpy
memcpy_lem m dst src size hd hs f = (
  copy size m dst src,
  rw (==_of_ne dst 0 hd, ==_of_ne src 0 hs),
  λ a. copy_lem size m dst src a f,
)

abbrev pub SameBytes : Mem → ℕ → ℕ → ℕ → Type 0
SameBytes m a b n = (i : ℕ) → i < n → m (a + i) ≡ m (b + i)

-- What a result of `memcmp` says.
abbrev pub Verdict : Mem → ℕ → ℕ → ℕ → ℤ → Type 0
Verdict m a b n r =
    ((r ≡ pos 0) × SameBytes m a b n)
    ⊎ ((i : ℕ) × (i < n)
        × SameBytes m a b i
        × (((r ≡ pos 1) × (char_lt (m (b + i)) (m (a + i)) ≡ true))
            ⊎ ((r ≡ negsuc 0) × (char_lt (m (a + i)) (m (b + i)) ≡ true))))

-- Every stored value is a byte.
abbrev pub IsMemory : Mem → Type 0
IsMemory m = (a : ℕ) → m a < 256

pub eq_of_char_lt :
    (x y : ℕ) → x < 256 → y < 256 → char_lt x y ≡ false → char_lt y x ≡ false → x ≡ y
unfolding char_lt
eq_of_char_lt x y hx hy p q = ground arith

module _ (m : Mem) (a b : ℕ) where
  SameBytes-suc : {n : ℕ} → m a ≡ m b → SameBytes m (a + 1) (b + 1) n → SameBytes m a b (suc n)
  SameBytes-suc e s zero h =
      let za : a + 0 ≡ a = omega arith in let zb : b + 0 ≡ b = omega arith in rw (za, zb) e
  SameBytes-suc e s (suc i) h =
      let sa : a + suc i ≡ a + 1 + i = omega arith in
      let sb : b + suc i ≡ b + 1 + i = omega arith in rw (sa, sb) (s i (omega arith))

  Verdict-suc :
      {n : ℕ} {r : ℤ} → m a ≡ m b → Verdict m (a + 1) (b + 1) n r → Verdict m a b (suc n) r
  Verdict-suc e (inl (r, s)) = inl (r, SameBytes-suc e s)
  Verdict-suc e (inr (i, h, s, v)) =
      let sa : a + suc i ≡ a + 1 + i = omega arith in
      let sb : b + suc i ≡ b + 1 + i = omega arith in
      inr (suc i, omega arith, SameBytes-suc e s, rw (sa, sb) v)

  Verdict-head :
      {n : ℕ} {r : ℤ}
      → ((r ≡ pos 1) × (char_lt (m b) (m a) ≡ true))
        ⊎ ((r ≡ negsuc 0) × (char_lt (m a) (m b) ≡ true))
      → Verdict m a b (suc n) r
  Verdict-head v =
      let za : a + 0 ≡ a = omega arith in
      let zb : b + 0 ≡ b = omega arith in
      inr (0, omega arith, λ i h. absurd (omega arith), rw (za, zb) v)

compare_bytes-Verdict :
    (n : ℕ) (m : Mem) (a b : ℕ) → IsMemory m → Verdict m a b n (compare_bytes n m a b)
unfolding compare_bytes
compare_bytes-Verdict zero m a b w = inl (refl, λ i h. absurd (omega arith))
compare_bytes-Verdict (suc n) m a b w = elim (Bool-cases (char_lt (m b) (m a))) [
  | inl e ↦ rw e (Verdict-head m a b (inl (refl, e)))
  | inr e ↦ elim (Bool-cases (char_lt (m a) (m b))) [
    | inl f ↦ rw (e, f) (Verdict-head m a b (inr (refl, f)))
    | inr f ↦
        rw (e, f)
          (Verdict-suc m a b (eq_of_char_lt (m a) (m b) (w a) (w b) f e)
            (compare_bytes-Verdict n m (a + 1) (b + 1) w))
  ]
]

-- On two areas of bytes, neither at NULL, `memcmp` returns: 0 and the two areas hold the same
-- bytes, or 1 or -1 and the `char` at the first place where they differ is greater, or smaller, in
-- the first.
pub memcmp-Verdict :
    (m : Mem) (a b size : ℕ)
    → IsMemory m
    → a ≢ 0
    → b ≢ 0
    → (r : ℤ) × (memcmp m a b size ≡ ok r) × Verdict m a b size r
unfolding memcmp
memcmp-Verdict m a b size w ha hb = (
  compare_bytes size m a b,
  rw (==_of_ne a 0 ha, ==_of_ne b 0 hb),
  compare_bytes-Verdict size m a b w,
)
