-- ===== src/Memory/Alloc/Chain.antt =====
-- Several grants of pages in a row.
use oslearn.Base.{
  ℕ, ◌<◌, ◌≡◌, ap, sym, ◌∙◌, true, false, ◌||◌, Bool-cases, inl, inr, List, [], ◌∷◌, ◌++◌, has,
  has-append, Distinct, arith,
}
use mathlib.Core.Bool.{false≢true}
use oslearn.Bitmap.Bits.{used}
use oslearn.Machine.{Machine}
use oslearn.Memory.Alloc.{Space}
use oslearn.Memory.Alloc.Pages.{frames, frame_bits, frame_used}
use oslearn.Memory.Alloc.Kernel.{addresses}
use oslearn.Memory.Alloc.Granted.{Granted}

-- The frames `fs` of the kernel's pool are different and were free, and they alone are taken.
pub record Gets (s s' : Space) (fs : List ℕ) : Type 0 where
  pub start : (frames s').phy_addr_start ≡ (frames s).phy_addr_start
  pub bits : frame_bits s' ≡ frame_bits s
  pub distinct : Distinct fs
  pub inside : (i : ℕ) → has i fs ≡ true → i < frame_bits s
  pub was_free : (i : ℕ) → has i fs ≡ true → frame_used s i ≡ false
  pub taken : (i : ℕ) → frame_used s' i ≡ (has i fs || frame_used s i)

pub Granted-Gets : {s s' : Space} {a : ℕ} {fs : List ℕ} → Granted s s' a fs → Gets s s' fs
Granted-Gets g = record {
  start = g.start;
  bits = g.bits;
  distinct = g.distinct;
  inside = g.inside;
  was_free = g.was_free;
  taken = g.taken;
}

-- What the memory's words were does not matter.
pub put_Gets :
    {s s' : Space} {m : Machine} {a : ℕ} {fs : List ℕ}
    → Granted (record s { machine = m }) s' a fs
    → Gets s s' fs
put_Gets g = record {
  start = g.start;
  bits = g.bits;
  distinct = g.distinct;
  inside = g.inside;
  was_free = g.was_free;
  taken = g.taken;
}

Distinct-join :
    (xs ys : List ℕ)
    → Distinct xs
    → Distinct ys
    → ((i : ℕ) → has i xs ≡ true → has i ys ≡ false)
    → Distinct (xs ++ ys)
Distinct-join [] ys d e apart = e
Distinct-join (x ∷ xs) ys (o, d) e apart = (
  has-append x xs ys ∙ ground (arith, apart x),
  Distinct-join xs ys d e (λ i h. apart i (ground arith)),
)

pub Gets-trans :
    {s s₁ s₂ : Space} {fs gs : List ℕ} → Gets s s₁ fs → Gets s₁ s₂ gs → Gets s s₂ (fs ++ gs)
Gets-trans {s} {s₁} {s₂} {fs} {gs} g h = record {
  start = h.start ∙ g.start;
  bits = h.bits ∙ g.bits;
  distinct = Distinct-join fs gs g.distinct h.distinct (λ i e. elim (Bool-cases (has i gs)) [
    | inl t ↦
        absurd (false≢true (sym (h.was_free i t) ∙ g.taken i ∙ ap (λ b. b || frame_used s i) e))
    | inr f ↦ f
  ]);
  inside = λ i e. ground (arith, has-append i fs gs, g.inside i, h.inside i, g.bits);
  was_free = λ i e. ground (arith, has-append i fs gs, g.was_free i, h.was_free i, g.taken i);
  taken = λ i. ground (arith, has-append i fs gs, g.taken i, h.taken i);
}

-- A frame that is taken stays so, and a page too.
pub Gets-used :
    {s s' : Space} {fs : List ℕ} (i : ℕ)
    → Gets s s' fs
    → frame_used s i ≡ true
    → frame_used s' i ≡ true
Gets-used i g e = g.taken i ∙ ground arith

pub Granted-used :
    {s s' : Space} {a : ℕ} {fs : List ℕ} (i : ℕ)
    → Granted s s' a fs
    → used (addresses s).vaddr_bitmap i ≡ true
    → used (addresses s').vaddr_bitmap i ≡ true
Granted-used i g e = g.pages.bit i ∙ ground arith
