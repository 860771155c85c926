-- ===== src/Memory/Addresses.antt =====
-- `vaddr_get`: ranges of virtual addresses.
use oslearn.Base.{
  ℕ, zero, suc, ◌+◌, ◌-◌, ◌*◌, ◌<◌, ◌≤◌, ◌^◌, ◌≡◌, ◌⊎◌, inl, inr, ◌∙◌, refl, Bool, true, false,
  ◌&&◌, leb, ltb, ◌==◌, Option, none, some, arith, u32, Run, ok, if◌then◌else◌, Bool-cases,
}
use oslearn.Bitmap.{Bitmap, scan}
use oslearn.Bitmap.Bits.{IsValid, used, put-Stored}
use oslearn.Bitmap.Free.{Found, FreeRun, Blocked}
use oslearn.Bitmap.FirstFit.{scan-Finds}
use oslearn.Memory.{
  VirtualAddr, pf_kernel, Memory, mark_pages, take_run, reserve, vaddr_get, pg_size,
}

-- The `n` bits from `i` on are taken, and all others are as before.
pub record Marked (bm : Bitmap) (i n : ℕ) (bm' : Bitmap) : Type 0 where
  pub valid : IsValid bm'
  pub len : bm'.btmp_bytes_len ≡ bm.btmp_bytes_len
  pub bit : (j : ℕ) → used bm' j ≡ (if leb i j && ltb j (i + n) then true else used bm j)

pub mark_pages-Marked :
    (n : ℕ) (bm : Bitmap) (i : ℕ)
    → IsValid bm
    → i + n ≤ bm.btmp_bytes_len * 8
    → (bm' : Bitmap) × (mark_pages n bm i ≡ ok bm') × Marked bm i n bm'
unfolding mark_pages
mark_pages-Marked zero bm i v h =
    (bm, refl, record { valid = v; len = refl; bit = λ j. ground arith })
mark_pages-Marked (suc n) bm i v h =
    let (bm₁, r₁, s) = put-Stored i 1 v (omega arith) (omega arith) in
    let (bm₂, r₂, m) = mark_pages-Marked n bm₁ (i + 1) s.valid (omega (arith, s.len)) in
    (
      bm₂,
      simp (r₁, r₂),
      record {
        valid = m.valid;
        len = m.len ∙ s.len;
        bit = λ j. m.bit j ∙ joined (used bm₁ j) (used bm j) j (s.bit j);
      },
    )
  where
    joined :
        (b c : Bool) (j : ℕ)
        → b ≡ (if i == j then true else c)
        → (if leb (i + 1) j && ltb j (i + 1 + n) then true else b)
          ≡ (if leb i j && ltb j (i + suc n) then true else c)
    joined b c j e = ground arith

-- The addresses that the bitmap stands for, and NULL is none of them.
pub record IsVirtual (v : VirtualAddr) : Type 0 where
  pub bitmap : IsValid v.vaddr_bitmap
  pub positive : 0 < v.vaddr_start
  pub addresses : v.vaddr_start + v.vaddr_bitmap.btmp_bytes_len * 8 * pg_size ≤ 2 ^ 32

-- Pages `i` to `i + n` have been reserved: they were free, it is the first such run, and no other
-- page changes.
pub record Reserves (v v' : VirtualAddr) (n i : ℕ) : Type 0 where
  pub inside : i + n ≤ v.vaddr_bitmap.btmp_bytes_len * 8
  pub was_free : FreeRun v.vaddr_bitmap i n
  pub first : (t : ℕ) → t < i → Blocked v.vaddr_bitmap t n
  pub marked : Marked v.vaddr_bitmap i n v'.vaddr_bitmap
  pub same_start : v'.vaddr_start ≡ v.vaddr_start

reserve-none : (v : VirtualAddr) (n : ℕ) → scan v.vaddr_bitmap n ≡ ok none → reserve v n ≡ ok (v, 0)
unfolding reserve take_run
reserve-none v n e = simp e

reserve-some :
    (v : VirtualAddr) (n i : ℕ) (bm : Bitmap)
    → scan v.vaddr_bitmap n ≡ ok (some i)
    → mark_pages n v.vaddr_bitmap i ≡ ok bm
    → u32 (v.vaddr_start + u32 (i * pg_size)) ≡ v.vaddr_start + i * pg_size
    → reserve v n ≡ ok (record v { vaddr_bitmap = bm }, v.vaddr_start + i * pg_size)
unfolding reserve take_run
reserve-some v n i bm e m a = simp (e, m, a)

-- What comes back: NULL and no change if there is no run, else the address of the first one.
abbrev pub Answer : VirtualAddr → ℕ → Run (VirtualAddr × ℕ) → Type 0
Answer v n r =
    ((r ≡ ok (v, 0))
      × ((t : ℕ) → t + n ≤ v.vaddr_bitmap.btmp_bytes_len * 8 → Blocked v.vaddr_bitmap t n))
    ⊎ ((i : ℕ) × (v' : VirtualAddr) × (r ≡ ok (v', v.vaddr_start + i * pg_size))
        × Reserves v v' n i)

-- A free run that may reach one bit further ends before a taken bit.
ends_inside :
    (bm : Bitmap) (lim i n : ℕ)
    → 0 < n
    → FreeRun bm i n
    → i + n ≤ lim + (if 1 == n then 0 else 1)
    → used bm lim ≡ true
    → i + n ≤ lim
ends_inside bm lim i n pos free le taken = elim (Bool-cases (ltb lim (i + n))) [
  | inl e ↦
      let last : i + (n - 1) ≡ lim = ground arith in
      let clear : used bm (i + (n - 1)) ≡ false = free (n - 1) (ground arith) in
      absurd (cc (rw last at clear, taken))
  | inr e ↦ ground arith
]

reserve-Answer :
    (v : VirtualAddr) (n free : ℕ)
    → IsVirtual v
    → 0 < n
    → free < v.vaddr_bitmap.btmp_bytes_len * 8
    → used v.vaddr_bitmap free ≡ false
    → used v.vaddr_bitmap (v.vaddr_bitmap.btmp_bytes_len * 8) ≡ true
    → Answer v n (reserve v n)
reserve-Answer v n free w pos h u behind =
    let (o, r, found) = scan-Finds n free w.bitmap pos h u in by_result o r found
  where
    by_result :
        (o : Option ℕ)
        → scan v.vaddr_bitmap n ≡ ok o
        → Found v.vaddr_bitmap n (v.vaddr_bitmap.btmp_bytes_len * 8 + (if 1 == n then 0 else 1)) o
        → Answer v n (reserve v n)
    by_result none r blocked = inl (reserve-none v n r, λ t le. blocked t (omega arith))
    by_result (some i) r fit =
        let inside : i + n ≤ v.vaddr_bitmap.btmp_bytes_len * 8 =
          ends_inside v.vaddr_bitmap _ i n pos fit.free fit.fits behind in
        let (bm, q, marked) = mark_pages-Marked n v.vaddr_bitmap i w.bitmap inside in
        inr (
          i,
          record v { vaddr_bitmap = bm },
          reserve-some v n i bm r q (omega (arith, w.addresses)),
          record {
            inside = inside;
            was_free = fit.free;
            first = fit.first;
            marked = marked;
            same_start = refl;
          },
        )

vaddr_get_kernel :
    (n : ℕ) (m : Memory) (v : VirtualAddr) (a : ℕ)
    → reserve m.kernel_vaddr n ≡ ok (v, a)
    → vaddr_get pf_kernel n m ≡ ok (record m { kernel_vaddr = v }, a)
unfolding vaddr_get
vaddr_get_kernel n m v a e = simp e

-- Where the kernel's addresses are well formed, their bitmap has a free bit, and the bit behind it
-- is taken, `vaddr_get(PF_KERNEL, n)` for `n > 0` returns. It reserves the first run of `n` free
-- pages and gives its address, which is not NULL; or there is no such run, the result is NULL, and
-- nothing changes.
pub vaddr_get-Reserves :
    (n : ℕ) (m : Memory) (free : ℕ)
    → IsVirtual m.kernel_vaddr
    → 0 < n
    → free < m.kernel_vaddr.vaddr_bitmap.btmp_bytes_len * 8
    → used m.kernel_vaddr.vaddr_bitmap free ≡ false
    → used m.kernel_vaddr.vaddr_bitmap (m.kernel_vaddr.vaddr_bitmap.btmp_bytes_len * 8) ≡ true
    → (v : VirtualAddr) × (a : ℕ) × (vaddr_get pf_kernel n m
        ≡ ok (record m { kernel_vaddr = v }, a))
      × (((a ≡ 0)
            × (v ≡ m.kernel_vaddr)
            × ((t : ℕ)
                → t + n ≤ m.kernel_vaddr.vaddr_bitmap.btmp_bytes_len * 8
                → Blocked m.kernel_vaddr.vaddr_bitmap t n))
          ⊎ ((i : ℕ) × (a ≡ m.kernel_vaddr.vaddr_start + i * pg_size)
              × (0 < a)
              × Reserves m.kernel_vaddr v n i))
vaddr_get-Reserves n m free w pos h u behind =
    elim (reserve-Answer m.kernel_vaddr n free w pos h u behind) [
      | inl (r, blocked) ↦
          (m.kernel_vaddr, 0, vaddr_get_kernel n m _ _ r, inl (refl, refl, blocked))
      | inr (i, v, r, took) ↦
          (v, _, vaddr_get_kernel n m _ _ r, inr (i, refl, omega (arith, w.positive), took))
    ]
