-- ===== src/Bitmap/Init.antt =====
-- `bitmap_init` frees every bit.
use oslearn.Base.{
  ℕ, zero, suc, ◌*◌, ◌/◌, ◌%◌, ◌^◌, ◌≤◌, ◌<◌, ◌≡◌, refl, inl, inr, true, false, ap, List, [], ◌∷◌,
  arith, length, get_or, ltb, ◌==◌, Bool-cases, if◌then◌else◌, ok, every_below, every_below_lem,
  not,
}
use oslearn.Bitmap.{Bitmap, clear_bytes, init}
use oslearn.Bitmap.Byte.{digit}
use oslearn.Bitmap.Bits.{used, IsValid}

record Cleared (n : ℕ) (bs bs' : List ℕ) : Type 0 where
  same_length : length bs' ≡ length bs
  byte : (i : ℕ) → get_or bs' i 0 ≡ (if ltb i n then 0 else get_or bs i 0)

clear_bytes-Cleared :
    (n : ℕ) (bs : List ℕ)
    → n ≤ length bs
    → (bs' : List ℕ) × (clear_bytes n bs ≡ ok bs') × Cleared n bs bs'
unfolding clear_bytes
clear_bytes-Cleared zero bs h = (bs, refl, record { same_length = refl; byte = λ i. ground arith })
clear_bytes-Cleared (suc n) [] h = absurd (omega arith)
clear_bytes-Cleared (suc n) (b ∷ bs) h =
    let (bs', r, c) = clear_bytes-Cleared n bs (omega arith) in
    (0 ∷ bs', rw r, record { same_length = ap suc c.same_length; byte = byte bs' c })
  where
    byte :
        (bs' : List ℕ)
        → Cleared n bs bs'
        → (i : ℕ) → get_or (0 ∷ bs') i 0 ≡ (if ltb i (suc n) then 0 else get_or (b ∷ bs) i 0)
    byte bs' c zero = ground arith
    byte bs' c (suc i) = ground (arith, c.byte i)

digit-zero : (k : ℕ) → k < 8 → digit 0 k ≡ false
unfolding digit
digit-zero k h =
    ground
      (arith, every_below_lem 8 (λ k. not (0 / 2 ^ k % 2 == 1)) k (unfold every_below in refl) h)

-- `bitmap_init` of a well-formed bitmap returns one that is well formed and has its first `8 *
-- btmp_bytes_len` bits free, and it changes no bit behind them.
pub init-IsValid :
    {bm : Bitmap}
    → IsValid bm
    → (bm' : Bitmap) × (init bm ≡ ok bm')
      × IsValid bm'
      × (bm'.btmp_bytes_len ≡ bm.btmp_bytes_len)
      × ((i : ℕ) → used bm' i ≡ (if ltb i (bm.btmp_bytes_len * 8) then false else used bm i))
unfolding init used
init-IsValid {bm} v =
    let (bs, r, c) = clear_bytes-Cleared bm.btmp_bytes_len bm.bits (omega (arith, v.readable)) in
    (
      record bm { bits = bs },
      rw r,
      record {
        bytes = λ i. ground (arith, c.byte i, v.bytes i);
        small = v.small;
        readable = rw c.same_length v.readable;
      },
      refl,
      λ i. elim (Bool-cases (ltb i (bm.btmp_bytes_len * 8))) [
        | inl e ↦ rw (e, c.byte (i / 8), below i e) (digit-zero (i % 8) (omega arith))
        | inr e ↦ rw (e, c.byte (i / 8), above i e)
      ],
    )
  where
    below : (i : ℕ) → ltb i (bm.btmp_bytes_len * 8) ≡ true → ltb (i / 8) bm.btmp_bytes_len ≡ true
    below i e = ground arith

    above : (i : ℕ) → ltb i (bm.btmp_bytes_len * 8) ≡ false → ltb (i / 8) bm.btmp_bytes_len ≡ false
    above i e = ground arith
