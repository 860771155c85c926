-- ===== src/Bitmap/FirstFit.antt =====
-- `bitmap_scan` as a whole, and how far past the end of the bitmap it looks.
use oslearn.Base.{
  ℕ, zero, suc, ◌+◌, ◌-◌, ◌*◌, ◌/◌, ◌%◌, ◌^◌, ◌<◌, ◌≡◌, refl, ◌≢◌, inl, inr, true, false, none,
  some, arith, ltb, ◌==◌, ==_iff, Bool-cases, if◌then◌else◌, ok, u32, panic, lt→ltb,
  get_elem?-eq-get_or, ==_of_ne,
}
use oslearn.Bitmap.{Bitmap, skip_full, first_free, scan_run, scan}
use oslearn.Bitmap.Byte.{digit-full}
use oslearn.Bitmap.Bits.{byte_at, used, IsValid}
use oslearn.Bitmap.Scan.{Skipped, Skipped-free, skip_full-Skipped, Lowest, first_free-Lowest}
use oslearn.Bitmap.Free.{Blocked, Finds, Finds-of_eq, Scanning, scan_run-Finds}

-- Where the first two loops stop.
record IsFirst (bm : Bitmap) (n k : ℕ) : Type 0 where
  skip : Skipped bm.btmp_bytes_len 0 bm.bits n
  inside : n < bm.btmp_bytes_len
  lowest : Lowest (byte_at bm n) k

module _ {bm : Bitmap} {n k : ℕ} (f : IsFirst bm n k) where
  used_before : (t : ℕ) → t < n * 8 + k → used bm t ≡ true
  unfolding used
  used_before t h = elim (Bool-cases (ltb (t / 8) n)) [
    | inl e ↦ rw (f.skip.full (t / 8) (ground arith)) (digit-full (t % 8) (omega arith))
    | inr e ↦
        let q : t / 8 ≡ n = ground (arith, f.lowest.below) in
        rw q (f.lowest.taken (t % 8) (omega arith))
  ]

  free_at : used bm (n * 8 + k) ≡ false
  unfolding used
  free_at =
      let l = f.lowest.below in
      let p : (n * 8 + k) / 8 ≡ n = omega arith in
      let q : (n * 8 + k) % 8 ≡ k = omega arith in rw (p, q) f.lowest.clear

  scan_one : IsValid bm → Finds bm 1 (bm.btmp_bytes_len * 8) (ok (some (n * 8 + k)))
  scan_one v = (
    some (n * 8 + k),
    refl,
    record {
      fits = omega (arith, f.inside, f.lowest.below);
      free = λ j h. let e : n * 8 + k + j ≡ n * 8 + k = omega arith in rw e free_at;
      first = λ t h. (0, omega arith, let e : t + 0 ≡ t = omega arith in rw e (used_before t h));
    },
  )

  start-Scanning : (cnt : ℕ) → 1 < cnt → Scanning bm cnt (n * 8 + k + 1) 1
  start-Scanning cnt h = record {
    few = h;
    le = omega arith;
    free = λ j p. let e : n * 8 + k + 1 - 1 + j ≡ n * 8 + k = omega arith in rw e free_at;
    edge = λ p. used_before _ (omega arith);
    before = λ t p.
        (0, omega arith, let e : t + 0 ≡ t = omega arith in rw e (used_before t (omega arith)));
  }

  scan-eq :
      (cnt : ℕ)
      → IsValid bm
      → skip_full bm.btmp_bytes_len bm.bits 0 ≡ ok n
      → first_free 9 (byte_at bm n) 0 ≡ ok k
      → scan bm cnt ≡ (
          if 1 == cnt
          then ok (some (n * 8 + k))
          else scan_run bm cnt (bm.btmp_bytes_len * 8 - (n * 8 + k)) (n * 8 + k + 1) 1)
  unfolding scan
  scan-eq cnt v p q =
      let len = bm.btmp_bytes_len in
      let i = f.inside in
      let l = f.lowest.below in
      let small = v.small in
      let start : u32 (u32 (n * 8) + k) ≡ n * 8 + k = omega arith in
      let left : u32 (u32 (len * 8) + 2 ^ 32 - (n * 8 + k)) ≡ len * 8 - (n * 8 + k) = omega arith in
      let next : u32 (n * 8 + k + 1) ≡ n * 8 + k + 1 = omega arith in
      rw (
        p,
        lt→ltb n len i,
        ==_of_ne n len (omega arith),
        get_elem?-eq-get_or bm.bits n 0 (omega (arith, v.readable)),
        q,
        start,
        left,
        next,
      )

  scan-IsFirst :
      (cnt : ℕ)
      → IsValid bm
      → 0 < cnt
      → skip_full bm.btmp_bytes_len bm.bits 0 ≡ ok n
      → first_free 9 (byte_at bm n) 0 ≡ ok k
      → Finds bm cnt (bm.btmp_bytes_len * 8 + (if 1 == cnt then 0 else 1)) (scan bm cnt)
  scan-IsFirst cnt v h p q = elim (Bool-cases (1 == cnt)) [
    | inl e ↦
        let e' : 1 ≡ cnt = (==_iff 1 cnt).0 e in
        rw (scan-eq cnt v p q, e) (rw (← e') (Finds-of_eq (omega arith) refl (scan_one v)))
    | inr e ↦
        let more : 1 < cnt = ground arith in
        rw (scan-eq cnt v p q, e)
          (Finds-of_eq (omega (arith, f.inside, f.lowest.below)) refl (
            scan_run-Finds cnt (bm.btmp_bytes_len * 8 - (n * 8 + k)) (n * 8 + k + 1) 1 v
              (omega (arith, f.inside, f.lowest.below)) (start-Scanning cnt more)))
  ]

-- In a well-formed bitmap with a free bit, `bitmap_scan` for `cnt > 0` bits returns, and finds the
-- first free run of `cnt` bits or says that there is none. For one bit it searches the bitmap; for
-- more it searches one bit past its end too.
pub scan-Finds :
    {bm : Bitmap} (cnt i : ℕ)
    → IsValid bm
    → 0 < cnt
    → i < bm.btmp_bytes_len * 8
    → used bm i ≡ false
    → Finds bm cnt (bm.btmp_bytes_len * 8 + (if 1 == cnt then 0 else 1)) (scan bm cnt)
unfolding used
scan-Finds {bm} cnt i v h l u =
    let (n, p, s) =
      skip_full-Skipped bm.btmp_bytes_len bm.bits 0 (omega arith) (omega (arith, v.readable)) in
    let inside : n < bm.btmp_bytes_len = not_all_full n s in
    let ne : byte_at bm n ≢ 255 = Skipped-free s inside in
    let (k, q, low) = first_free-Lowest (byte_at bm n) (v.bytes n) ne in
    scan-IsFirst (record { skip = s; inside = inside; lowest = low }) cnt v h p q
  where
    not_all_full : (n : ℕ) → Skipped bm.btmp_bytes_len 0 bm.bits n → n < bm.btmp_bytes_len
    not_all_full n s = elim (Bool-cases (ltb n bm.btmp_bytes_len)) [
      | inl e ↦ ground arith
      | inr e ↦
          let full : byte_at bm (i / 8) ≡ 255 = s.full (i / 8) (ground arith) in
          absurd (cc (rw full at u, digit-full (i % 8) (omega arith)))
    ]

-- With no free bit left in a well-formed bitmap, `bitmap_scan` does not return -1: its assertion
-- stops the kernel.
pub scan_panic :
    {bm : Bitmap} (cnt : ℕ)
    → IsValid bm
    → ((i : ℕ) → i < bm.btmp_bytes_len * 8 → used bm i ≡ true)
    → scan bm cnt ≡ panic
unfolding scan
scan_panic {bm} cnt v all =
    let (n, p, s) =
      skip_full-Skipped bm.btmp_bytes_len bm.bits 0 (omega arith) (omega (arith, v.readable)) in
    rw (p, at_end n s)
  where
    at_end : (n : ℕ) → Skipped bm.btmp_bytes_len 0 bm.bits n → ltb n bm.btmp_bytes_len ≡ false
    at_end n s = elim (Bool-cases (ltb n bm.btmp_bytes_len)) [
      | inl e ↦
          let inside : n < bm.btmp_bytes_len = ground arith in
          let (k, q, low) = first_free-Lowest (byte_at bm n) (v.bytes n) (Skipped-free s inside) in
          let clear : used bm (n * 8 + k) ≡ false =
            free_at (record { skip = s; inside = inside; lowest = low }) in
          absurd (cc (clear, all (n * 8 + k) (omega (arith, low.below))))
      | inr e ↦ e
    ]

-- When the last bit of a well-formed bitmap alone is free and the bit after the end reads as free,
-- a request for two bits is granted a run that ends outside the bitmap.
pub scan_past_end :
    {bm : Bitmap} (last : ℕ)
    → IsValid bm
    → last + 1 ≡ bm.btmp_bytes_len * 8
    → ((i : ℕ) → i < last → used bm i ≡ true)
    → used bm last ≡ false
    → used bm (last + 1) ≡ false
    → scan bm 2 ≡ ok (some last)
scan_past_end {bm} last v e before free past =
    go (scan-Finds 2 last v (omega arith) (omega arith) free)
  where
    go : Finds bm 2 (bm.btmp_bytes_len * 8 + 1) (scan bm 2) → scan bm 2 ≡ ok (some last)
    go (none, r, block) = absurd (never (block last (omega arith)))
      where
        never : Blocked bm last 2 → ⊥
        never (zero, h, u) = let z : last + 0 ≡ last = omega arith in cc (rw z at u)
        never (suc zero, h, u) = cc
        never (suc (suc j), h, u) = omega arith
    go (some s, r, f) = elim (Bool-cases (s == last)) [
      | inl q ↦ rw (← (==_iff s last).0 q) r
      | inr q ↦
          let early : used bm s ≡ true = before s (ground (arith, f.fits)) in
          let z : s + 0 ≡ s = omega arith in absurd (cc (early, rw z at (f.free 0 (omega arith))))
    ]
