-- ===== src/Memory/Alloc/Given.antt =====
-- `get_kernel_pages(1)`: one page.
use oslearn.Base.{
  ℕ, ◌+◌, ◌*◌, ◌^◌, ◌<◌, ◌≤◌, ◌≡◌, ◌≢◌, zero, suc, refl, ap, subst, ◌∙◌, false, ◌||◌, List, [], ◌∷◌,
  length, get_or, ==-refl, ok, arith,
}
use oslearn.Bitmap.Bits.{used}
use oslearn.Machine.{Machine, frame_of}
use oslearn.Memory.Alloc.{Space, get_kernel_pages}
use oslearn.Memory.Alloc.Free.{free_below}
use oslearn.Memory.Alloc.Pages.{frames, frame_bits}
use oslearn.Memory.Alloc.Kernel.{addresses, page_bits, IsKernelSpace}
use oslearn.Memory.Alloc.Page.{IsPlain, Keeps, Shows, Keeps-Shows}
use oslearn.Memory.Alloc.Granted.{HasPlainFrames, HasRun, Granted, Spares, Keeps-Granted, frame_at}
use oslearn.Memory.Alloc.Zeroed.{get_kernel_pages-Granted}

-- No word changes in a frame that holds no table and is not `f`.
abbrev pub SparesBut : Space → Space → ℕ → Type 0
SparesBut s s' f =
    (b : ℕ)
    → IsPlain s.machine (frame_of b)
    → frame_of b ≢ f
    → s'.machine.words b ≡ s.machine.words b

-- A page has been given, and it shows the frame `f`.
pub record Given (s s' : Space) (a f : ℕ) : Type 0 where
  pub index : ℕ
  pub granted : Granted s s' a (index ∷ [])
  pub place : f ≡ frame_at s index
  pub shows : Shows s'.machine a f
  pub small : f + 4096 ≤ 2 ^ 32

pub Keeps-Given :
    {s s' : Space} {m : Machine} {a f : ℕ}
    → Given s s' a f
    → Keeps s'.machine m
    → Given s (record s' { machine = m }) a f
Keeps-Given g d = record {
  index = g.index;
  granted = Keeps-Granted g.granted d;
  place = g.place;
  shows = Keeps-Shows g.shows d;
  small = g.small;
}

Granted-Given :
    {s s' : Space} (a i : ℕ)
    → IsKernelSpace s
    → Granted s s' a (i ∷ [])
    → Given s s' a (frame_at s i)
Granted-Given {s} {s'} a i w g = record {
  index = i;
  granted = g;
  place = refl;
  shows = subst (λ p. Shows s'.machine p (frame_at s i)) (omega arith) (g.shows 0 (omega arith));
  small = omega (arith, w.ready.pool.frames, g.inside i (ap (λ b. b || false) (==-refl i)));
}

-- A free page is a run of one.
pub free-HasRun :
    (s : Space) (free : ℕ)
    → free < page_bits (addresses s)
    → used (addresses s).vaddr_bitmap free ≡ false
    → HasRun s 1
free-HasRun s free lt unused = record {
  at = free;
  fits = omega arith;
  free = λ j l. ap (used (addresses s).vaddr_bitmap) (omega arith) ∙ unused;
}

only_frame :
    (s : Space) (b j i : ℕ)
    → j < 1
    → frame_of b ≢ frame_at s i
    → frame_of b ≢ frame_at s (get_or (i ∷ []) j 0)
only_frame s b zero i lt ne = ne
only_frame s b (suc j) i lt ne = absurd (omega arith)

-- The same for one page.
pub get_kernel_pages-Given :
    (free : ℕ) (s : Space)
    → IsKernelSpace s
    → HasPlainFrames s
    → free < page_bits (addresses s)
    → used (addresses s).vaddr_bitmap free ≡ false
    → 1 ≤ free_below (frames s).pool_bitmap (frame_bits s)
    → (s' : Space) × (a : ℕ) × (f : ℕ) × (get_kernel_pages 1 s ≡ ok (s', a))
      × Given s s' a f
      × ((j : ℕ) → j < 1024 → s'.machine.words (f + j * 4) ≡ 0)
      × SparesBut s s' f
get_kernel_pages-Given free s w plain lt unused few =
    let (s', a, fs, r, count, g, zeros, words) =
      get_kernel_pages-Granted 1 s w plain (omega arith) (omega arith)
        (free-HasRun s free lt unused) few in
    one s' a fs r count g zeros words
  where
    one :
        (s' : Space) (a : ℕ) (fs : List ℕ)
        → get_kernel_pages 1 s ≡ ok (s', a)
        → length fs ≡ 1
        → Granted s s' a fs
        → ((j w : ℕ) → j < 1 → w < 1024 → s'.machine.words (frame_at s (get_or fs j 0) + w * 4) ≡ 0)
        → Spares s s' fs
        → (s' : Space) × (a : ℕ) × (f : ℕ) × (get_kernel_pages 1 s ≡ ok (s', a))
          × Given s s' a f
          × ((j : ℕ) → j < 1024 → s'.machine.words (f + j * 4) ≡ 0)
          × SparesBut s s' f
    one s' a [] r count g zeros words = absurd (omega arith)
    one s' a (i ∷ j ∷ fs) r count g zeros words = absurd (omega arith)
    one s' a (i ∷ []) r count g zeros words = (
      s',
      a,
      frame_at s i,
      r,
      Granted-Given a i w g,
      λ j lt. zeros 0 j (omega arith) lt,
      λ b p ne. words b p (λ j lt. only_frame s b j i lt ne),
    )
