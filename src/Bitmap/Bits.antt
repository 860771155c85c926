-- ===== src/Bitmap/Bits.antt =====
-- The bitmap as a set of bits: what the operations that read and write one bit do.
use oslearn.Base.{
  ℕ, ◌*◌, ◌/◌, ◌%◌, ◌^◌, ◌≤◌, ◌<◌, ◌≡◌, refl, ap, inl, inr, Bool, not, ◌∙◌, ==_of_ne, arith, length,
  get_or, set, get_elem?-eq-get_or, length-set, get_or-set_self, get_or-set_ne, ◌==◌, ==_iff,
  Bool-cases, if◌then◌else◌, ok,
}
use oslearn.Bitmap.{Bitmap, scan_test, put}
use oslearn.Bitmap.Byte.{
  mask_set, mask_clear, digit, mask_test-digit, digit-mask_set, digit-mask_clear,
}

abbrev pub byte_at : Bitmap → ℕ → ℕ
byte_at bm i = get_or bm.bits i 0

-- Bit `i`, counted from the lowest bit of byte 0.
unfoldable pub used : Bitmap → ℕ → Bool
used bm i = digit (byte_at bm (i / 8)) (i % 8)

-- The stored bytes are bytes, the bit numbers fit an `int`, and one byte past the end can be read.
pub record IsValid (bm : Bitmap) : Type 0 where
  pub bytes : (i : ℕ) → byte_at bm i < 256
  pub small : bm.btmp_bytes_len * 8 < 2 ^ 31
  pub readable : bm.btmp_bytes_len < length bm.bits

pub scan_test-used :
    {bm : Bitmap} (i : ℕ) → IsValid bm → i ≤ bm.btmp_bytes_len * 8 → scan_test bm i ≡ ok (used bm i)
unfolding scan_test used
scan_test-used {bm} i v h =
    rw (get_elem?-eq-get_or bm.bits (i / 8) 0 (omega (arith, v.readable)))
      (ap ok (mask_test-digit (byte_at bm (i / 8)) (i % 8) (v.bytes (i / 8)) (omega arith)))

abbrev stored : ℕ → ℕ → ℕ → ℕ
stored byte k v = if not (v == 0) then mask_set byte k else mask_clear byte k

digit-stored :
    (b k j v : ℕ)
    → b < 256
    → k < 8
    → j < 8
    → digit (stored b k v) j ≡ (if k == j then not (v == 0) else digit b j)
digit-stored b k j v hb hk hj = elim (Bool-cases (v == 0)) [
  | inl e ↦ rw e (digit-mask_clear b k j hb hk hj)
  | inr e ↦ rw e (digit-mask_set b k j hb hk hj)
]

stored-lt : (b k v : ℕ) → stored b k v < 256
stored-lt b k v = ground arith

-- What `bitmap_set` leaves behind.
pub record Stored (bm : Bitmap) (i : ℕ) (on : Bool) (bm' : Bitmap) : Type 0 where
  pub valid : IsValid bm'
  pub len : bm'.btmp_bytes_len ≡ bm.btmp_bytes_len
  pub bit : (j : ℕ) → used bm' j ≡ (if i == j then on else used bm j)

==-mod-div : (i j : ℕ) → i / 8 ≡ j / 8 → (i % 8 == j % 8) ≡ (i == j)
==-mod-div i j h = ground arith

module _ {bm : Bitmap} (i v : ℕ) (w : IsValid bm) (h : i / 8 < length bm.bits) where
  abbrev after : Bitmap
  after = record bm { bits = set bm.bits (i / 8) (stored (byte_at bm (i / 8)) (i % 8) v) }

  byte_at-after :
      (k : ℕ)
      → byte_at after k
        ≡ (if i / 8 == k then stored (byte_at bm (i / 8)) (i % 8) v else byte_at bm k)
  byte_at-after k = elim (Bool-cases (i / 8 == k)) [
    | inl e ↦ rw (e, ← (==_iff (i / 8) k).0 e) (get_or-set_self bm.bits (i / 8) _ 0 h)
    | inr e ↦ rw e (get_or-set_ne bm.bits (i / 8) k _ 0 (ground arith))
  ]

  after-bytes : (k : ℕ) → byte_at after k < 256
  after-bytes k =
      ground (arith, byte_at-after k, stored-lt (byte_at bm (i / 8)) (i % 8) v, w.bytes k)

  after-bit : (j : ℕ) → used after j ≡ (if i == j then not (v == 0) else used bm j)
  unfolding used
  after-bit j = elim (Bool-cases (i / 8 == j / 8)) [
    | inl e ↦
        rw (byte_at-after (j / 8), e)
          (digit-stored (byte_at bm (i / 8)) (i % 8) (j % 8) v (w.bytes (i / 8)) (omega arith)
              (omega arith)
            ∙ rw (==-mod-div i j ((==_iff _ _).0 e), ← ((==_iff _ _).0 e)))
    | inr e ↦ rw (byte_at-after (j / 8), e, ==_of_ne i j (ground arith))
  ]

not_zero : (v : ℕ) → v ≤ 1 → not (v == 0) ≡ (v == 1)
not_zero v h = ground arith

-- `bitmap_set` of a bit in range of a well-formed bitmap to 0 or 1 succeeds, keeps the bitmap well
-- formed, and changes that bit only.
pub put-Stored :
    {bm : Bitmap} (i v : ℕ)
    → IsValid bm
    → i < bm.btmp_bytes_len * 8
    → v ≤ 1
    → (bm' : Bitmap) × (put bm i v ≡ ok bm') × Stored bm i (v == 1) bm'
unfolding put
put-Stored {bm} i v w h hv =
    let inside : i / 8 < length bm.bits = omega (arith, w.readable) in
    (
      after i v w inside,
      rw (get_elem?-eq-get_or bm.bits (i / 8) 0 inside) (ground arith),
      record {
        valid = record {
          bytes = after-bytes i v w inside;
          small = w.small;
          readable = rw length-set w.readable;
        };
        len = refl;
        bit = λ j. after-bit i v w inside j ∙ rw (not_zero v hv);
      },
    )
