-- ===== src/Spawn/Later.antt =====
-- The page of a thread after a page has been given to another.
use mathlib.Core.Bool.{false≢true}
use oslearn.Base.{
  ℕ, ◌+◌, ◌*◌, ◌<◌, ◌≡◌, ◌≢◌, ap, sym, subst, ◌∙◌, true, false, ==-refl, refl, arith,
}
use oslearn.Bitmap.Bits.{used}
use oslearn.Machine.{frame_of, load}
use oslearn.Memory.{pg_size}
use oslearn.Memory.Alloc.{Space}
use oslearn.Memory.Alloc.Pages.{frame_used}
use oslearn.Memory.Alloc.Kernel.{addresses, IsKernelSpace}
use oslearn.Memory.Alloc.Page.{IsPlain, Shows}
use oslearn.Memory.Alloc.Granted.{frame_at}
use oslearn.Memory.Alloc.After.{Granted-Shows, page_taken, taken-apart}
use oslearn.Memory.Alloc.Given.{Given, SparesBut}
use oslearn.Spawn.Start.{frame_load}

-- The page `a`, which is taken, shows the frame `f`, which is taken too.
pub record Placed (s : Space) (a f : ℕ) : Type 0 where
  pub shows : Shows s.machine a f
  pub page : ℕ
  pub place : a ≡ (addresses s).vaddr_start + page * pg_size
  pub page_used : used (addresses s).vaddr_bitmap page ≡ true
  pub index : ℕ
  pub frame_place : f ≡ frame_at s index
  pub frame_is_used : frame_used s index ≡ true

pub Given-Placed : {s s' : Space} {a f : ℕ} → Given s s' a f → Placed s' a f
Given-Placed g = record {
  shows = g.shows;
  page = g.granted.page;
  place = omega (arith, g.granted.place, g.granted.pages.start);
  page_used = page_taken g.granted refl;
  index = g.index;
  frame_place = omega (arith, g.place, g.granted.start);
  frame_is_used = g.granted.taken g.index ∙ rw (==-refl g.index) refl;
}

module _ {s s' : Space} {a f b h : ℕ} (w : IsKernelSpace s) (p : Placed s a f)
    (g : Given s s' b h) where
  pub Placed-Shows : Shows s'.machine a f
  Placed-Shows =
      Granted-Shows g.granted p.shows (taken-apart p.page w p.page_used p.place g.granted)

  frames_apart : f ≢ h
  frames_apart e =
      let free : frame_used s g.index ≡ false =
        g.granted.was_free g.index (rw (==-refl g.index) refl) in
      let same : p.index ≡ g.index = omega (arith, e, p.frame_place, g.place) in
      absurd (false≢true (sym free ∙ ap (frame_used s) (sym same) ∙ p.frame_is_used))

  -- The words of the page stay.
  pub Placed-load :
      (j : ℕ)
      → SparesBut s s' h
      → j < 1024
      → load s'.machine (a + j * 4) ≡ load s.machine (a + j * 4)
  Placed-load j spares lt =
      let at : frame_of (f + j * 4) ≡ f = omega (arith, p.shows.plain.aligned) in
      frame_load j (s.machine.words (f + j * 4)) Placed-Shows lt (
        spares (f + j * 4) (subst (IsPlain s.machine) (sym at) p.shows.plain)
          (λ q. frames_apart (sym at ∙ q)))
      ∙ sym (frame_load j (s.machine.words (f + j * 4)) p.shows lt refl)
