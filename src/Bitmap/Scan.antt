-- ===== src/Bitmap/Scan.antt =====
-- The first two loops of `bitmap_scan`: they stop at the first free bit.
use oslearn.Base.{
  ℕ, zero, suc, ◌+◌, ◌-◌, ◌≤◌, ◌<◌, ◌≡◌, refl, ◌≢◌, inl, inr, Bool, true, false, not, ◌&&◌, List,
  [], ◌∷◌, arith, length, get_or, ltb, ◌==◌, Bool-cases, Run, ok, panic, fault, stuck, every_below,
  every_below_lem,
}
use oslearn.Bitmap.{skip_full, first_free}
use oslearn.Bitmap.Byte.{digit}

-- The first loop stops at `n`: the bytes before it are full, and it is not unless it is the end.
pub record Skipped (len idx : ℕ) (bs : List ℕ) (n : ℕ) : Type 0 where
  pub from : idx ≤ n
  pub to : n ≤ len
  pub full : (k : ℕ) → idx + k < n → get_or bs k 0 ≡ 255
  pub free : n < len → get_or bs (n - idx) 0 ≢ 255

Skipped-cons :
    {len idx b n : ℕ} {bs : List ℕ}
    → b ≡ 255
    → Skipped len (idx + 1) bs n
    → Skipped len idx (b ∷ bs) n
Skipped-cons {len} {idx} {b} {n} {bs} e s = record {
  from = omega (arith, s.from);
  to = s.to;
  full = λ k h.
      elim k as (λ m. idx + m < n → get_or (b ∷ bs) m 0 ≡ 255) [
        | zero ↦ λ _. e
        | suc m ↦ λ q. s.full m (omega arith)
      ]
        h;
  free = λ h. let e' : n - idx ≡ suc (n - (idx + 1)) = omega (arith, s.from) in rw e' (s.free h);
}

pub skip_full-Skipped :
    (len : ℕ) (bs : List ℕ) (idx : ℕ)
    → idx ≤ len
    → len < idx + length bs
    → (n : ℕ) × (skip_full len bs idx ≡ ok n) × Skipped len idx bs n
unfolding skip_full
skip_full-Skipped len [] idx h l = absurd (omega arith)
skip_full-Skipped len (b ∷ bs) idx h l = elim (Bool-cases ((0xff == b) && ltb idx len)) [
  | inl e ↦
      let (n, r, s) = skip_full-Skipped len bs (idx + 1) (ground arith) (omega arith) in
      (n, rw e r, Skipped-cons (ground arith) s)
  | inr e ↦ (
    idx,
    rw e,
    record {
      from = omega arith;
      to = h;
      full = λ k q. absurd (omega arith);
      free = λ q. let z : idx - idx ≡ 0 = omega arith in rw z (ground arith);
    },
  )
]

-- `k` is the lowest clear bit of the byte.
pub record Lowest (byte k : ℕ) : Type 0 where
  pub below : k < 8
  pub clear : digit byte k ≡ false
  pub taken : (j : ℕ) → j < k → digit byte j ≡ true

abbrev check : ℕ → Run ℕ → Bool
check b (ok k) = ltb k 8 && (not (digit b k) && every_below k (digit b))
check b panic = false
check b fault = false
check b stuck = false

free_table : every_below 255 (λ b. check b (first_free 9 b 0)) ≡ true
unfolding every_below digit first_free
free_table = refl

check_sound : (b : ℕ) (r : Run ℕ) → check b r ≡ true → (k : ℕ) × (r ≡ ok k) × Lowest b k
check_sound b (ok k) h = (
  k,
  refl,
  record {
    below = ground arith;
    clear = ground arith;
    taken = λ j q. every_below_lem k (digit b) j (ground arith) q;
  },
)
check_sound b panic h = cc
check_sound b fault h = cc
check_sound b stuck h = cc

pub first_free-Lowest :
    (b : ℕ) → b < 256 → b ≢ 255 → (k : ℕ) × (first_free 9 b 0 ≡ ok k) × Lowest b k
first_free-Lowest b h ne =
    check_sound b (first_free 9 b 0) (every_below_lem 255 _ b free_table (omega arith))

pub Skipped-free : {len n : ℕ} {bs : List ℕ} → Skipped len 0 bs n → n < len → get_or bs n 0 ≢ 255
Skipped-free {n} s h = let z : n - 0 ≡ n = omega arith in rw z at (s.free h)
