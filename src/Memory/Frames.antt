-- ===== src/Memory/Frames.antt =====
-- `palloc`: page frames.
use oslearn.Base.{
  ℕ, ◌+◌, ◌*◌, ◌<◌, ◌≤◌, ◌^◌, ◌≡◌, refl, true, false, Option, none, some, arith, u32, ok,
}
use oslearn.Bitmap.{Bitmap, scan, put}
use oslearn.Bitmap.Bits.{IsValid, used, Stored, put-Stored}
use oslearn.Bitmap.Free.{Found, Blocked}
use oslearn.Bitmap.FirstFit.{scan-Finds}
use oslearn.Memory.{Pool, palloc, take_page, pg_size}

-- The bitmap is sound, and the frames that it stands for have 32-bit addresses.
pub record IsPool (p : Pool) : Type 0 where
  pub bitmap : IsValid p.pool_bitmap
  pub frames : p.phy_addr_start + p.pool_bitmap.btmp_bytes_len * 8 * pg_size ≤ 2 ^ 32

-- What taking frame `i` does to the pool: it was free, all frames before it were taken, and its bit
-- alone changes.
pub record Takes (p p' : Pool) (i : ℕ) : Type 0 where
  pub inside : i < p.pool_bitmap.btmp_bytes_len * 8
  pub was_free : used p.pool_bitmap i ≡ false
  pub lowest : (t : ℕ) → t < i → used p.pool_bitmap t ≡ true
  pub stored : Stored p.pool_bitmap i true p'.pool_bitmap
  pub same_start : p'.phy_addr_start ≡ p.phy_addr_start
  pub same_lock : p'.lock ≡ p.lock

Blocked-one : (bm : Bitmap) (t : ℕ) → Blocked bm t 1 → used bm t ≡ true
Blocked-one bm t (j, lt, taken) = let e : t + j ≡ t = omega arith in rw e at taken

palloc_steps :
    (p : Pool) (i : ℕ) (bm : Bitmap)
    → scan p.pool_bitmap 1 ≡ ok (some i)
    → put p.pool_bitmap i 1 ≡ ok bm
    → u32 (u32 (i * pg_size) + p.phy_addr_start) ≡ p.phy_addr_start + i * pg_size
    → palloc p ≡ ok (record p { pool_bitmap = bm }, p.phy_addr_start + i * pg_size)
unfolding palloc take_page
palloc_steps p i bm s q e = simp (s, q, e)

-- With a free frame in a well-formed pool, `palloc` returns the address of the lowest one and marks
-- it taken; no other frame changes.
pub palloc-Takes :
    (p : Pool) (free : ℕ)
    → IsPool p
    → free < p.pool_bitmap.btmp_bytes_len * 8
    → used p.pool_bitmap free ≡ false
    → (p' : Pool) × (i : ℕ) × (palloc p ≡ ok (p', p.phy_addr_start + i * pg_size))
      × IsPool p'
      × Takes p p' i
palloc-Takes p free v h u =
    let (o, r, found) = scan-Finds 1 free v.bitmap (omega arith) h u in by_result o r found
  where
    by_result :
        (o : Option ℕ)
        → scan p.pool_bitmap 1 ≡ ok o
        → Found p.pool_bitmap 1 (p.pool_bitmap.btmp_bytes_len * 8 + 0) o
        → (p' : Pool) × (i : ℕ) × (palloc p ≡ ok (p', p.phy_addr_start + i * pg_size))
          × IsPool p'
          × Takes p p' i
    by_result none r blocked =
        let (j, lt, taken) = blocked free (omega arith) in
        let e : free + j ≡ free = omega arith in absurd (cc (rw e at taken, u))
    by_result (some i) r fit =
        let inside : i < p.pool_bitmap.btmp_bytes_len * 8 = omega (arith, fit.fits) in
        let (bm, q, stored) = put-Stored i 1 v.bitmap inside (omega arith) in
        let at_i : i + 0 ≡ i = omega arith in
        let first_bit : used p.pool_bitmap (i + 0) ≡ false = fit.free 0 (omega arith) in
        let was_free : used p.pool_bitmap i ≡ false = rw at_i at first_bit in
        (
          record p { pool_bitmap = bm },
          i,
          palloc_steps p i bm r q (omega (arith, v.frames)),
          record { bitmap = stored.valid; frames = omega (arith, v.frames, stored.len) },
          record {
            inside = inside;
            was_free = was_free;
            lowest = λ t lt. Blocked-one p.pool_bitmap t (fit.first t lt);
            stored = stored;
            same_start = refl;
            same_lock = refl;
          },
        )
