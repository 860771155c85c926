-- ===== src/Process/Addresses.antt =====
-- The addresses of a user process.
use oslearn.Base.{
  ℕ, zero, suc, ◌+◌, ◌*◌, ◌^◌, ◌<◌, ◌≤◌, ◌≡◌, ◌≢◌, refl, ap, ◌∙◌, false, List, ==_of_ne, length,
  get_or, ok, arith,
}
use oslearn.Bitmap.{Bitmap}
use oslearn.Bitmap.Bits.{IsValid, used}
use oslearn.Bitmap.Init.{init-IsValid}
use oslearn.Memory.{VirtualAddr, pg_size}
use oslearn.Memory.Addresses.{IsVirtual}
use oslearn.Memory.Alloc.{Space, get_kernel_pages}
use oslearn.Memory.Alloc.Free.{free_below}
use oslearn.Memory.Alloc.Kernel.{IsKernelSpace}
use oslearn.Memory.Alloc.Pages.{frames, frame_bits}
use oslearn.Memory.Alloc.Granted.{HasPlainFrames, HasRun, Granted, frame_at}
use oslearn.Memory.Alloc.Zeroed.{get_kernel_pages-Granted}
use oslearn.Process.{zeros, fresh_bitmap, user_vaddr_start, create_user_vaddr_bitmap}

length-zeros : (n : ℕ) → length (zeros n) ≡ n
unfolding zeros
length-zeros zero = refl
length-zeros (suc n) = ap suc (length-zeros n)

get_or-zeros : (n i : ℕ) → get_or (zeros n) i 0 ≡ 0
unfolding zeros
get_or-zeros zero i = refl
get_or-zeros (suc n) zero = refl
get_or-zeros (suc n) (suc i) = get_or-zeros n i

zeros-IsValid :
    (n len : ℕ)
    → len < n
    → len * 8 < 2 ^ 31
    → IsValid (record { btmp_bytes_len = len; bits = zeros n })
zeros-IsValid n len lt small = record {
  bytes = λ i. omega (arith, get_or-zeros n i);
  small = small;
  readable = omega (arith, length-zeros n);
}

fresh_bitmap-IsValid :
    (bits pg len : ℕ)
    → bits ≢ 0
    → len < pg * 4096
    → len * 8 < 2 ^ 31
    → (bm : Bitmap) × (fresh_bitmap bits pg len ≡ ok bm)
      × IsValid bm
      × (bm.btmp_bytes_len ≡ len)
      × ((i : ℕ) → i < len * 8 → used bm i ≡ false)
unfolding fresh_bitmap
fresh_bitmap-IsValid bits pg len ne lt small =
    let (bm, r, valid, same, bit) = init-IsValid (zeros-IsValid (pg * 4096) len lt small) in
    (bm, simp (==_of_ne bits 0 ne, r), valid, same, λ i h. bit i ∙ ground arith)

user_bitmap_steps :
    (s s' : Space) (bits : ℕ) (bm : Bitmap)
    → get_kernel_pages 23 s ≡ ok (s', bits)
    → fresh_bitmap bits 23 94199 ≡ ok bm
    → create_user_vaddr_bitmap s
      ≡ ok (s', record { vaddr_bitmap = bm; vaddr_start = user_vaddr_start })
unfolding create_user_vaddr_bitmap
user_bitmap_steps s s' bits bm r f = simp (r, f)

-- In a well-formed kernel memory with a run of 23 free pages and 23 free frames, where no free frame
-- holds a table of the kernel, `create_user_vaddr_bitmap` takes 23 pages, which are zeroed and show
-- frames that were free, and returns a well-formed pool of addresses that begins at 0x8048000 and
-- ends exactly where the kernel begins, with every page free. The kernel's memory stays well formed.
pub create_user_vaddr_bitmap-IsVirtual :
    (s : Space)
    → IsKernelSpace s
    → HasPlainFrames s
    → HasRun s 23
    → 23 ≤ free_below (frames s).pool_bitmap (frame_bits s)
    → (s' : Space) × (a : ℕ) × (fs : List ℕ) × (v : VirtualAddr) × (create_user_vaddr_bitmap s
        ≡ ok (s', v))
      × (length fs ≡ 23)
      × Granted s s' a fs
      × ((j w : ℕ) → j < 23 → w < 1024 → s'.machine.words (frame_at s (get_or fs j 0) + w * 4) ≡ 0)
      × IsVirtual v
      × (v.vaddr_start ≡ user_vaddr_start)
      × (v.vaddr_start + v.vaddr_bitmap.btmp_bytes_len * 8 * pg_size ≡ 0xc0000000)
      × ((i : ℕ) → i < v.vaddr_bitmap.btmp_bytes_len * 8 → used v.vaddr_bitmap i ≡ false)
create_user_vaddr_bitmap-IsVirtual s w plain run few =
    let (s', a, fs, r, count, g, cleared, words) =
      get_kernel_pages-Granted 23 s w plain (omega arith) (omega arith) run few in
    let (bm, f, valid, same, free) =
      fresh_bitmap-IsValid a 23 94199 (λ e. omega (arith, w.range.low, g.place)) (omega arith)
        (omega arith) in
    (
      s',
      a,
      fs,
      record { vaddr_bitmap = bm; vaddr_start = user_vaddr_start },
      user_bitmap_steps s s' a bm r f,
      count,
      g,
      cleared,
      record { bitmap = valid; positive = omega arith; addresses = omega (arith, same) },
      refl,
      omega (arith, same),
      λ i h. free i (omega (arith, same)),
    )
