-- ===== src/Memory/Alloc/Room.antt =====
-- How much the kernel can still get.
use oslearn.Base.{ℕ, ◌+◌, ◌≤◌, ◌<◌, ◌≡◌, false, ap, ◌∙◌, List, length, arith}
use oslearn.Bitmap.Bits.{used}
use oslearn.Memory.Alloc.{Space}
use oslearn.Memory.Alloc.Free.{free_below, free_below-run, some_free}
use oslearn.Memory.Alloc.Pages.{frames, frame_bits}
use oslearn.Memory.Alloc.Kernel.{addresses, page_bits}
use oslearn.Memory.Alloc.Granted.{Granted, free_less}

-- At least `n` pages of the kernel and `n` frames are free.
pub record HasRoom (s : Space) (n : ℕ) : Type 0 where
  pub free_pages : n ≤ free_below (addresses s).vaddr_bitmap (page_bits (addresses s))
  pub free_frames : n ≤ free_below (frames s).pool_bitmap (frame_bits s)

-- As many pages fewer are free as have been given.
pages_less :
    {s s' : Space} {a : ℕ} {fs : List ℕ}
    → Granted s s' a fs
    → free_below (addresses s').vaddr_bitmap (page_bits (addresses s')) + length fs
      ≡ free_below (addresses s).vaddr_bitmap (page_bits (addresses s))
pages_less {s} {s'} {a} {fs} g =
    ap (λ n. free_below (addresses s').vaddr_bitmap n + length fs) g.pages.len
    ∙ free_below-run (addresses s).vaddr_bitmap (addresses s').vaddr_bitmap g.page (length fs)
        (page_bits (addresses s)) g.pages.inside g.pages.was_free g.pages.bit

pub Granted-HasRoom :
    {s s' : Space} {a n : ℕ} {fs : List ℕ} (k : ℕ)
    → Granted s s' a fs
    → length fs ≡ k
    → HasRoom s (k + n)
    → HasRoom s' n
Granted-HasRoom k g e r = record {
  free_pages = omega (arith, pages_less g, r.free_pages);
  free_frames = omega (arith, free_less g, r.free_frames);
}

-- Where there is room, there is a free page.
pub room_page :
    (n : ℕ) (s : Space)
    → HasRoom s (1 + n)
    → (i : ℕ) × (i < page_bits (addresses s)) × (used (addresses s).vaddr_bitmap i ≡ false)
room_page n s r =
    some_free (addresses s).vaddr_bitmap (page_bits (addresses s)) (omega (arith, r.free_pages))
