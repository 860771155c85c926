-- ===== src/Memory/Alloc/Granted.antt =====
-- What the kernel has got when `malloc_page(PF_KERNEL, n)` has returned pages.
use oslearn.Base.{
  ℕ, ◌+◌, ◌*◌, ◌/◌, ◌<◌, ◌≤◌, ◌≡◌, ◌≢◌, ◌⊎◌, inl, inr, ap, sym, subst, ◌∙◌, true, false, ◌||◌, ◌&&◌,
  leb, ltb, some, List, length, has, has-get_or, get_or, Distinct, if◌then◌else◌, ok, arith,
}
use mathlib.Core.Bool.{false≢true}
use oslearn.Bitmap.Bits.{used}
use oslearn.Bitmap.Free.{Blocked}
use oslearn.Machine.{Machine, frame_of, pde_addr, walk}
use oslearn.Memory.{pf_kernel, pg_size}
use oslearn.Memory.Addresses.{Reserves}
use oslearn.Memory.Alloc.{Space, malloc_page}
use oslearn.Memory.Alloc.Free.{free_below, free_below-taken}
use oslearn.Memory.Alloc.Tables.{InKernel}
use oslearn.Memory.Alloc.Pages.{frames, frame_bits, frame_used, Mapped}
use oslearn.Memory.Alloc.Kernel.{
  addresses, page_bits, with_addresses, IsKernelSpace, malloc_page-IsKernelSpace,
}
use oslearn.Memory.Alloc.Page.{
  IsPlain, Keeps, Shows, Keeps-Shows, entries-IsPlain, same_walk, same_table, Keeps-HasTables,
  Keeps-Unmapped, Keeps-IsPlain,
}

-- No free frame of the kernel's pool holds a table of the kernel.
pub record HasPlainFrames (s : Space) : Type 0 where
  pub plain :
      (i : ℕ)
      → i < frame_bits s
      → frame_used s i ≡ false
      → IsPlain s.machine ((frames s).phy_addr_start + i * pg_size)

-- The address of a frame of the kernel's pool.
abbrev pub frame_at : Space → ℕ → ℕ
frame_at s i = (frames s).phy_addr_start + i * pg_size

-- No word changes in a frame that holds no table and is none of `fs`.
abbrev pub Spares : Space → Space → List ℕ → Type 0
Spares s s' fs =
    (b : ℕ)
    → IsPlain s.machine (frame_of b)
    → ((j : ℕ) → j < length fs → frame_of b ≢ frame_at s (get_or fs j 0))
    → s'.machine.words b ≡ s.machine.words b

-- The pages `i` to `i + n` of the kernel are the first such run that was free, and they alone are
-- taken.
pub record Taken (s s' : Space) (i n : ℕ) : Type 0 where
  pub inside : i + n ≤ page_bits (addresses s)
  pub was_free : (j : ℕ) → j < n → used (addresses s).vaddr_bitmap (i + j) ≡ false
  pub first : (t : ℕ) → t < i → Blocked (addresses s).vaddr_bitmap t n
  pub start : (addresses s').vaddr_start ≡ (addresses s).vaddr_start
  pub len : page_bits (addresses s') ≡ page_bits (addresses s)
  pub bit :
      (j : ℕ)
      → used (addresses s').vaddr_bitmap j
        ≡ (if leb i j && ltb j (i + n) then true else used (addresses s).vaddr_bitmap j)

-- Pages from `a` on have been given: they show the frames `fs`, which were free and different, and no
-- other page of the kernel changes.
pub record Granted (s s' : Space) (a : ℕ) (fs : List ℕ) : Type 0 where
  pub space : IsKernelSpace s'
  pub plain : HasPlainFrames s'
  pub page : ℕ
  pub place : a ≡ (addresses s).vaddr_start + page * pg_size
  pub pages : Taken s s' page (length fs)
  pub start : (frames s').phy_addr_start ≡ (frames s).phy_addr_start
  pub bits : frame_bits s' ≡ frame_bits s
  pub distinct : Distinct fs
  pub inside : (i : ℕ) → has i fs ≡ true → i < frame_bits s
  pub was_free : (i : ℕ) → has i fs ≡ true → frame_used s i ≡ false
  pub taken : (i : ℕ) → frame_used s' i ≡ (has i fs || frame_used s i)
  pub cr3 : s'.machine.cr3 ≡ s.machine.cr3
  pub directory :
      (u : ℕ)
      → InKernel u
      → s'.machine.words (pde_addr s'.machine u) ≡ s.machine.words (pde_addr s.machine u)
  pub shows :
      (j : ℕ) → j < length fs → Shows s'.machine (a + j * pg_size) (frame_at s (get_or fs j 0))
  pub others :
      (u : ℕ)
      → InKernel u
      → (u / 4096 < a / 4096) ⊎ (a / 4096 + length fs ≤ u / 4096)
      → walk s'.machine u ≡ walk s.machine u

Mapped-Granted :
    (i a : ℕ) (s s' : Space) (fs : List ℕ)
    → IsKernelSpace s
    → HasPlainFrames s
    → IsKernelSpace s'
    → a ≡ (addresses s).vaddr_start + i * pg_size
    → Reserves (addresses s) (addresses s') (length fs) i
    → Mapped (with_addresses (addresses s') s) s' a fs
    → Granted s s' a fs
Mapped-Granted i a s s' fs w plain w' place took x = record {
  space = w';
  plain = record {
    plain = λ f lt free.
        subst (λ t. IsPlain s'.machine (t + f * pg_size)) (sym x.start)
          (still f (plain.plain f (omega (arith, x.bits)) (ground (arith, x.taken f))));
  };
  page = i;
  place = place;
  pages = record {
    inside = took.inside;
    was_free = took.was_free;
    first = took.first;
    start = took.same_start;
    len = ap (λ t. t * 8) took.marked.len;
    bit = took.marked.bit;
  };
  start = x.start;
  bits = x.bits;
  distinct = x.distinct;
  inside = x.inside;
  was_free = x.was_free;
  taken = x.taken;
  cr3 = x.cr3;
  directory = x.directory;
  shows = shows;
  others = x.others;
}
  where
    still : (f : ℕ) → IsPlain s.machine (frame_at s f) → IsPlain s'.machine (frame_at s f)
    still f = entries-IsPlain s.machine s'.machine x.cr3 x.directory (frame_at s f)

    in_kernel : (j : ℕ) → j < length fs → InKernel (a + j * pg_size)
    in_kernel j lt =
        (omega (arith, w.range.low), omega (arith, w.range.low, w.range.top, took.inside))

    shows :
        (j : ℕ) → j < length fs → Shows s'.machine (a + j * pg_size) (frame_at s (get_or fs j 0))
    shows j lt =
        let f = get_or fs j 0 in
        let it = has-get_or fs j lt in
        record {
          tables = w'.ready.tables;
          plain = still f (plain.plain f (x.inside f it) (x.was_free f it));
          kernel = in_kernel j lt;
          page = omega (arith, w.range.aligned);
          shown =
              x.mapped j (a + j * pg_size) lt (in_kernel j lt) (omega arith)
              ∙ ap some (omega (arith, w.range.aligned));
        }

-- Only a frame without tables has changed: the kernel's memory is as well formed as before.
pub Keeps-IsKernelSpace :
    {s : Space} {m : Machine}
    → IsKernelSpace s
    → Keeps s.machine m
    → IsKernelSpace (record s { machine = m })
Keeps-IsKernelSpace w d = record {
  ready = record {
    tables = Keeps-HasTables w.ready.tables d;
    pool = w.ready.pool;
    aligned = w.ready.aligned;
    positive = w.ready.positive;
  };
  range = record {
    virtual = w.range.virtual;
    aligned = w.range.aligned;
    low = w.range.low;
    top = w.range.top;
    behind = w.range.behind;
    unmapped = λ i u l e k q. Keeps-Unmapped w.ready.tables d u k (w.range.unmapped i u l e k q);
  };
}

-- The memory of `Granted` with a change that keeps the tables.
pub Keeps-Granted :
    {s s' : Space} {m : Machine} {a : ℕ} {fs : List ℕ}
    → Granted s s' a fs
    → Keeps s'.machine m
    → Granted s (record s' { machine = m }) a fs
Keeps-Granted g d =
    let t = g.space.ready.tables in
    record {
      space = Keeps-IsKernelSpace g.space d;
      plain = record { plain = λ f lt free. Keeps-IsPlain t d _ (g.plain.plain f lt free) };
      page = g.page;
      place = g.place;
      pages = record {
        inside = g.pages.inside;
        was_free = g.pages.was_free;
        first = g.pages.first;
        start = g.pages.start;
        len = g.pages.len;
        bit = g.pages.bit;
      };
      start = g.start;
      bits = g.bits;
      distinct = g.distinct;
      inside = g.inside;
      was_free = g.was_free;
      taken = g.taken;
      cr3 = d.cr3 ∙ g.cr3;
      directory = λ u k. same_table t d u k ∙ g.directory u k;
      shows = λ j lt. Keeps-Shows (g.shows j lt) d;
      others = λ u k o. same_walk t d u k ∙ g.others u k o;
    }

-- There is a run of `n` free pages.
pub record HasRun (s : Space) (n : ℕ) : Type 0 where
  pub at : ℕ
  pub fits : at + n ≤ page_bits (addresses s)
  pub free : (j : ℕ) → j < n → used (addresses s).vaddr_bitmap (at + j) ≡ false

-- With a run of free pages and enough free frames, `malloc_page` gives pages.
pub malloc_page-Granted :
    (n : ℕ) (s : Space)
    → IsKernelSpace s
    → HasPlainFrames s
    → 0 < n
    → n < 3840
    → HasRun s n
    → n ≤ free_below (frames s).pool_bitmap (frame_bits s)
    → (s' : Space) × (a : ℕ) × (fs : List ℕ) × (malloc_page pf_kernel n s ≡ ok (s', a))
      × (length fs ≡ n)
      × Granted s s' a fs
      × ((b : ℕ) → IsPlain s.machine (frame_of b) → s'.machine.words b ≡ s.machine.words b)
malloc_page-Granted n s w plain pos small run few =
    let (s', a, r, w', out) =
      malloc_page-IsKernelSpace n run.at s w pos small (omega (arith, run.fits))
        (ap (used (addresses s).vaddr_bitmap) (omega arith) ∙ run.free 0 pos) few in
    elim out [
      | inl (z, same, blocked) ↦
          let (j, l, b) = blocked run.at run.fits in absurd (false≢true (sym (run.free j l) ∙ b))
      | inr (i, fs, e, count, took, x) ↦ (
        s',
        a,
        fs,
        r,
        count,
        Mapped-Granted i a s s' fs w plain w' e
            (subst (λ k. Reserves (addresses s) (addresses s') k i) (sym count) took) x,
        x.words,
      )
    ]

-- As many frames fewer are free as pages have been given.
pub free_less :
    {s s' : Space} {a : ℕ} {fs : List ℕ}
    → Granted s s' a fs
    → free_below (frames s').pool_bitmap (frame_bits s') + length fs
      ≡ free_below (frames s).pool_bitmap (frame_bits s)
free_less {s} {s'} {a} {fs} g =
    ap (λ n. free_below (frames s').pool_bitmap n + length fs) g.bits
    ∙ free_below-taken (frames s).pool_bitmap (frames s').pool_bitmap fs (frame_bits s) g.distinct
        g.inside g.was_free g.taken
