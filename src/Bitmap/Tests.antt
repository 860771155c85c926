-- ===== src/Bitmap/Tests.antt =====
-- The bitmap operations on a small bitmap.
use oslearn.Base.{
  ◌*◌, ◌+◌, ◌≡◌, refl, [], ◌∷◌, arith, every_below, every_below_lem, ◌==◌, if◌then◌else◌, ok, some,
  none,
}
use oslearn.Bitmap.{Bitmap, put, scan, skip_full, first_free, scan_run, scan_test}
use oslearn.Bitmap.Byte.{digit}
use oslearn.Bitmap.Bits.{IsValid, used, Stored, put-Stored}
use oslearn.Bitmap.Free.{Finds}
use oslearn.Bitmap.FirstFit.{scan-Finds, scan_past_end}

-- Bits 8, 9, 11 and 14 of the second byte are taken, and all of the first; a spare byte follows.
abbrev busy : Bitmap
busy = record { btmp_bytes_len = 2; bits = 0xff ∷ 0x4b ∷ 0 ∷ [] }

-- All taken but the last bit, and a free bit behind the end.
abbrev tight : Bitmap
tight = record { btmp_bytes_len = 1; bits = 0x7f ∷ 0 ∷ [] }

busy-IsValid : IsValid busy
busy-IsValid = record { bytes = λ i. ground arith; small = omega arith; readable = omega arith }

tight-IsValid : IsValid tight
tight-IsValid = record { bytes = λ i. ground arith; small = omega arith; readable = omega arith }

scan-busy : scan busy 2 ≡ ok (some 12)
unfolding scan skip_full first_free scan_run scan_test
scan-busy = refl

scan-busy-none : scan busy 5 ≡ ok none
unfolding scan skip_full first_free scan_run scan_test
scan-busy-none = refl

scan-Finds_example : Finds busy 2 (2 * 8 + (if 1 == 2 then 0 else 1)) (scan busy 2)
unfolding used digit
scan-Finds_example = scan-Finds 2 12 busy-IsValid (omega arith) (omega arith) refl

put-Stored_example : (bm' : Bitmap) × (put busy 12 1 ≡ ok bm') × Stored busy 12 (1 == 1) bm'
put-Stored_example = put-Stored 12 1 busy-IsValid (omega arith) (omega arith)

scan_past_end_example : scan tight 2 ≡ ok (some 7)
unfolding used digit every_below
scan_past_end_example =
    scan_past_end 7 tight-IsValid refl (λ i h. every_below_lem 7 (used tight) i refl h) refl refl
