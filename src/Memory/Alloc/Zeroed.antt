-- ===== src/Memory/Alloc/Zeroed.antt =====
-- `get_kernel_pages(n)`: pages of the kernel that are all zeros.
use oslearn.Base.{
  ℕ, zero, suc, ◌+◌, ◌*◌, ◌%◌, ◌<◌, ◌≤◌, ◌≡◌, ◌≢◌, refl, ap, sym, subst, fun_ext, ◌∙◌, Run, ◌>>=◌,
  bind_assoc, false, List, length, get_or, Distinct-get_or, ◌==◌, ==_of_ne, if◌then◌else◌, ok,
  arith,
}
use oslearn.Machine.{Machine, frame_of, store}
use oslearn.Memory.{pf_kernel, pg_size}
use oslearn.Memory.Paging.{clear_words}
use oslearn.Memory.Paging.Clear.{among, clear_words-among}
use oslearn.Memory.Alloc.{Space, malloc_page, get_kernel_pages}
use oslearn.Memory.Alloc.Free.{free_below}
use oslearn.Memory.Alloc.Tables.{HasTables}
use oslearn.Memory.Alloc.Pages.{frames, frame_bits}
use oslearn.Memory.Alloc.Kernel.{IsKernelSpace}
use oslearn.Memory.Alloc.Page.{
  Keeps, Shows, Keeps-Shows, Keeps-refl, Keeps-trans, within-Keeps, word_walk, put_word-Keeps,
}
use oslearn.Memory.Alloc.Granted.{
  HasPlainFrames, HasRun, Granted, Spares, Keeps-Granted, frame_at, malloc_page-Granted,
}

page_cleared :
    (m : Machine) (a f : ℕ)
    → Shows m a f
    → (m' : Machine) × (clear_words 1024 a m ≡ ok m')
      × Keeps m m'
      × ((b : ℕ) → m'.words b ≡ (if among f 0 1024 b then 0 else m.words b))
page_cleared m a f s =
    let al = s.plain.aligned in
    let (m', r, g, c, w) =
      clear_words-among (λ n. Shows n a f) a f al (λ n j g lt. word_walk j g lt)
        (λ n j g lt. Keeps-Shows g (put_word-Keeps j 0 g lt)) 1024 0 a m s (omega arith)
        (omega arith) in
    (m', r, within-Keeps s c (λ b ne. w b ∙ ground arith), w)

clear_words-add :
    (k n t p : ℕ) (m : Machine)
    → t ≡ k + n
    → clear_words t p m ≡ (clear_words k p m >>= clear_words n (p + k * 4))
unfolding clear_words
clear_words-add zero n t p m e =
    ap (λ z. clear_words z p m) (omega arith) ∙ ap (λ z. clear_words n z m) (omega arith)
clear_words-add (suc k) n zero p m e = absurd (omega arith)
clear_words-add (suc k) n (suc t) p m e =
    ap (λ (f : Machine → Run Machine). store m p 0 >>= f)
      (fun_ext (λ m'.
        clear_words-add k n t (p + 4) m' (omega arith)
        ∙ ap (λ z. clear_words k (p + 4) m' >>= clear_words n z) (omega arith)))
    ∙ sym (bind_assoc (store m p 0) (clear_words k (p + 4)) (clear_words n (p + suc k * 4)))

-- `n` pages that show different frames are cleared: the words of the frames are 0, and no other word
-- changes.
record Cleared (n : ℕ) (g : ℕ → ℕ) (m m' : Machine) : Type 0 where
  keeps : Keeps m m'
  zeros : (j w : ℕ) → j < n → w < 1024 → m'.words (g j + w * 4) ≡ 0
  others : (b : ℕ) → ((j : ℕ) → j < n → frame_of b ≢ g j) → m'.words b ≡ m.words b

Cleared-cons :
    (n : ℕ) (g : ℕ → ℕ) {m m₁ m' : Machine}
    → HasTables m
    → g 0 % 4096 ≡ 0
    → Keeps m m₁
    → ((b : ℕ) → m₁.words b ≡ (if among (g 0) 0 1024 b then 0 else m.words b))
    → Cleared n (λ j. g (suc j)) m₁ m'
    → ((j : ℕ) → j < n → g 0 ≢ g (suc j))
    → Cleared (suc n) g m m'
Cleared-cons n g {m} {m₁} {m'} t al k w c ne = record {
  keeps = Keeps-trans t k c.keeps;
  zeros = zeros;
  others =
      λ b o. c.others b (λ j lt. o (suc j) (omega arith)) ∙ w b ∙ outside b (o 0 (omega arith));
}
  where
    outside :
        (b : ℕ) → frame_of b ≢ g 0 → (if among (g 0) 0 1024 b then 0 else m.words b) ≡ m.words b
    outside b o = ground arith

    inside : (v : ℕ) → v < 1024 → m₁.words (g 0 + v * 4) ≡ 0
    inside v lt = w (g 0 + v * 4) ∙ ground arith

    zeros : (j v : ℕ) → j < suc n → v < 1024 → m'.words (g j + v * 4) ≡ 0
    zeros zero v lt h = c.others (g 0 + v * 4) (λ j l e. ne j l (omega arith)) ∙ inside v h
    zeros (suc j) v lt h = c.zeros j v (omega arith) h

pages-Cleared :
    (n a : ℕ) (g : ℕ → ℕ) (m : Machine)
    → ((j : ℕ) → j < n → Shows m (a + j * pg_size) (g j))
    → ((i j : ℕ) → i < n → j < n → i ≢ j → g i ≢ g j)
    → (m' : Machine) × (clear_words (n * 1024) a m ≡ ok m') × Cleared n g m m'
unfolding clear_words
pages-Cleared zero a g m s d = (
  m,
  refl,
  record { keeps = Keeps-refl m; zeros = λ j w lt. absurd (omega arith); others = λ b o. refl },
)
pages-Cleared (suc n) a g m s d =
    let first : Shows m a (g 0) = subst (λ p. Shows m p (g 0)) (omega arith) (s 0 (omega arith)) in
    let (m₁, r, k, w) = page_cleared m a (g 0) first in
    let (m', rest, c) =
      pages-Cleared n (a + 4096) (λ j. g (suc j)) m₁
        (λ j lt.
          subst (λ p. Shows m₁ p (g (suc j))) (omega arith)
            (Keeps-Shows (s (suc j) (omega arith)) k))
        (λ i j hi hj ne. d (suc i) (suc j) (omega arith) (omega arith) (λ e. ne (omega arith))) in
    (
      m',
      clear_words-add 1024 (n * 1024) (suc n * 1024) a m (omega arith)
          ∙ ap (λ (x : Run Machine). x >>= clear_words (n * 1024) (a + 4096)) r
          ∙ rest,
      Cleared-cons n g first.tables first.plain.aligned k w c
          (λ j lt. d 0 (suc j) (omega arith) (omega arith) (λ e. omega arith)),
    )

get_kernel_pages_steps :
    (n : ℕ) (s s' : Space) (a : ℕ) (m : Machine)
    → malloc_page pf_kernel n s ≡ ok (s', a)
    → (a == 0) ≡ false
    → clear_words (n * 1024) a s'.machine ≡ ok m
    → get_kernel_pages n s ≡ ok (record s' { machine = m }, a)
unfolding get_kernel_pages
get_kernel_pages_steps n s s' a m r z c = simp (r, z, c)

-- In a well-formed kernel memory with a run of `n` free pages and `n` free frames, where no free frame
-- holds a table of the kernel, `get_kernel_pages(n)` for `0 < n < 3840` returns pages that show
-- different frames, each of which was free; every word of these is 0, no word changes in another
-- frame without tables, every other page of the kernel goes where it went, and the memory stays well
-- formed, with no table in a free frame.
pub get_kernel_pages-Granted :
    (n : ℕ) (s : Space)
    → IsKernelSpace s
    → HasPlainFrames s
    → 0 < n
    → n < 3840
    → HasRun s n
    → n ≤ free_below (frames s).pool_bitmap (frame_bits s)
    → (s' : Space) × (a : ℕ) × (fs : List ℕ) × (get_kernel_pages n s ≡ ok (s', a))
      × (length fs ≡ n)
      × Granted s s' a fs
      × ((j w : ℕ) → j < n → w < 1024 → s'.machine.words (frame_at s (get_or fs j 0) + w * 4) ≡ 0)
      × Spares s s' fs
get_kernel_pages-Granted n s w plain pos small run few =
    let (s', a, fs, r, count, g, words) = malloc_page-Granted n s w plain pos small run few in
    let (m, r₂, c) =
      pages-Cleared n a (λ j. frame_at s (get_or fs j 0)) s'.machine
        (λ j lt. g.shows j (omega arith))
        (λ i j hi hj ne e.
          Distinct-get_or fs i j g.distinct (omega arith) (omega arith) ne (omega arith)) in
    (
      record s' { machine = m },
      a,
      fs,
      get_kernel_pages_steps n s s' a m r (==_of_ne a 0 (λ e. omega (arith, w.range.low, g.place)))
          r₂,
      count,
      Keeps-Granted g c.keeps,
      c.zeros,
      λ b p o. c.others b (λ j lt. o j (omega arith)) ∙ words b p,
    )
