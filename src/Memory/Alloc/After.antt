-- ===== src/Memory/Alloc/After.antt =====
-- What one grant of pages leaves for the next.
use oslearn.Base.{
  ℕ, ◌+◌, ◌-◌, ◌*◌, ◌/◌, ◌<◌, ◌≤◌, ◌≡◌, ◌⊎◌, inl, inr, ap, sym, ◌∙◌, true, false, ◌&&◌, leb, ltb,
  Bool-cases, List, length, if◌then◌else◌, arith,
}
use mathlib.Core.Bool.{false≢true}
use oslearn.Bitmap.Bits.{used}
use oslearn.Memory.{pg_size}
use oslearn.Memory.Alloc.{Space}
use oslearn.Memory.Alloc.Kernel.{addresses, IsKernelSpace}
use oslearn.Memory.Alloc.Page.{Shows, entries-IsPlain}
use oslearn.Memory.Alloc.Granted.{Granted, HasRun}

-- A page that was mapped before shows its frame as before.
pub Granted-Shows :
    {s s' : Space} {a p f : ℕ} {fs : List ℕ}
    → Granted s s' a fs
    → Shows s.machine p f
    → (p / 4096 < a / 4096) ⊎ (a / 4096 + length fs ≤ p / 4096)
    → Shows s'.machine p f
Granted-Shows {s} {s'} {a} {p} {f} g h apart = record {
  tables = g.space.ready.tables;
  plain = entries-IsPlain s.machine s'.machine g.cr3 g.directory f h.plain;
  kernel = h.kernel;
  page = h.page;
  shown = g.others p h.kernel apart ∙ h.shown;
}

-- A page that is taken lies apart from those of the next grant.
pub taken-apart :
    {s s' : Space} {a b : ℕ} {gs : List ℕ} (p : ℕ)
    → IsKernelSpace s
    → used (addresses s).vaddr_bitmap p ≡ true
    → a ≡ (addresses s).vaddr_start + p * pg_size
    → Granted s s' b gs
    → (a / 4096 < b / 4096) ⊎ (b / 4096 + length gs ≤ a / 4096)
taken-apart {s} {s'} {a} {b} {gs} p w taken place h =
    elim (Bool-cases (leb h.page p && ltb p (h.page + length gs))) [
      | inl e ↦
          let free : used (addresses s).vaddr_bitmap p ≡ false =
            ap (used (addresses s).vaddr_bitmap) (ground arith)
            ∙ h.pages.was_free (p - h.page) (ground arith) in
          absurd (false≢true (sym free ∙ taken))
      | inr e ↦ elim (Bool-cases (ltb p h.page)) [
        | inl l ↦ inl (ground (arith, place, h.place, w.range.aligned))
        | inr l ↦ inr (ground (arith, place, h.place, w.range.aligned))
      ]
    ]

-- The page that a grant of one page has given is taken.
pub page_taken :
    {s s' : Space} {a : ℕ} {fs : List ℕ} (g : Granted s s' a fs)
    → length fs ≡ 1
    → used (addresses s').vaddr_bitmap g.page ≡ true
page_taken g one = g.pages.bit g.page ∙ ground arith

-- The first free page is no later than a run of free pages, so that the run less its first page is
-- still free.
pub Granted-HasRun :
    {s s₁ : Space} {a n : ℕ} {fs : List ℕ}
    → Granted s s₁ a fs
    → length fs ≡ 1
    → HasRun s (1 + n)
    → HasRun s₁ n
Granted-HasRun {s} {s₁} {a} {n} {fs} g one run = record {
  at = run.at + 1;
  fits = omega (arith, run.fits, g.pages.len);
  free = λ j lt.
      g.pages.bit (run.at + 1 + j)
      ∙ not_taken j
      ∙ ap (used (addresses s).vaddr_bitmap) (omega arith)
      ∙ run.free (1 + j) (omega arith);
}
  where
    early : g.page ≤ run.at
    early = elim (Bool-cases (leb g.page run.at)) [
      | inl e ↦ ground arith
      | inr e ↦
          let (j, lt, busy) = g.pages.first run.at (ground arith) in
          let free : used (addresses s).vaddr_bitmap (run.at + j) ≡ false =
            run.free j (omega arith) in
          absurd (false≢true (sym free ∙ busy))
    ]

    not_taken :
        (j : ℕ)
        → (if leb g.page (run.at + 1 + j) && ltb (run.at + 1 + j) (g.page + length fs)
            then true
            else used (addresses s).vaddr_bitmap (run.at + 1 + j))
          ≡ used (addresses s).vaddr_bitmap (run.at + 1 + j)
    not_taken j = ground (arith, early)
