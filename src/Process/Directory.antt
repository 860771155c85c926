-- ===== src/Process/Directory.antt =====
-- The directory that `create_page_dir` makes.
use oslearn.Base.{
  ℕ, zero, suc, ◌+◌, ◌-◌, ◌*◌, ◌/◌, ◌%◌, ◌^◌, ◌<◌, ◌≤◌, ◌≡◌, ◌≢◌, refl, ap, sym, ◌∙◌, false, none,
  some, ◌==◌, ==_of_ne, ==-refl, if◌then◌else◌, ok, arith,
}
use oslearn.Bitmap.Bits.{used}
use oslearn.Machine.{Machine, walk, put_word, store}
use oslearn.Machine.Walk.{walk_mapped, walk_no_table, walk_entry, walk-some, load_at, store_at}
use oslearn.Memory.Paging.{entry_for, addr_v2p}
use oslearn.Memory.Paging.Clear.{among}
use oslearn.Memory.Paging.SelfMap.{IsDirectory, entry_for_lem, addr_v2p-walk}
use oslearn.Memory.Alloc.{Space, get_kernel_pages}
use oslearn.Memory.Alloc.Free.{free_below}
use oslearn.Memory.Alloc.Tables.{InKernel}
use oslearn.Memory.Alloc.Pages.{frames, frame_bits}
use oslearn.Memory.Alloc.Kernel.{addresses, page_bits, IsKernelSpace}
use oslearn.Memory.Alloc.Page.{Keeps, Shows, Keeps-Shows, word_walk, put_word-Keeps, Keeps-trans}
use oslearn.Memory.Alloc.Given.{Given, SparesBut, Keeps-Given, get_kernel_pages-Given}
use oslearn.Memory.Alloc.Granted.{HasPlainFrames}
use oslearn.Process.{copy_words, create_page_dir}

-- The last page of the addresses shows the directory.
directory_word :
    (m : Machine) (p j : ℕ)
    → IsDirectory m
    → j < 1024
    → p ≡ 0xfffff000 + j * 4
    → walk m p ≡ some (m.cr3 + j * 4)
directory_word m p j s h q =
    let self = s.self_frame in
    walk_mapped m p (m.words (m.cr3 + 4092)) (m.words (m.cr3 + 4092)) (ap m.words (omega arith))
      s.self_present (ap m.words (omega arith)) s.self_present
    ∙ ap some (omega arith)

-- Words `i` to `i + n` of the directory are copied.
copy_words-Shows :
    (n i p q : ℕ) (m : Machine) (a f : ℕ)
    → Shows m a f
    → i + n ≤ 1024
    → p ≡ a + i * 4
    → q ≡ 0xfffff000 + i * 4
    → (m' : Machine) × (copy_words n p q m ≡ ok m')
      × Keeps m m'
      × ((b : ℕ) → m'.words b ≡ (if among f i n b then m.words (m.cr3 + (b - f)) else m.words b))
unfolding copy_words
copy_words-Shows zero i p q m a f s le e g =
    (m, refl, record { cr3 = refl; outside = λ b ne. refl }, λ b. ground arith)
copy_words-Shows (suc n) i p q m a f s le e g =
    let word = m.words (m.cr3 + i * 4) in
    let m₁ = put_word (f + i * 4) word m in
    let d₁ : Keeps m m₁ = put_word-Keeps i word s (omega arith) in
    let (m₂, r, d, w) =
      copy_words-Shows n (i + 1) (p + 4) (q + 4) m₁ a f (Keeps-Shows s d₁) (omega arith)
        (omega arith) (omega arith) in
    (
      m₂,
      simp (
        load_at m q (m.cr3 + i * 4) (directory_word m q i s.tables.directory (omega arith) g),
        store_at m p (f + i * 4) word (ap (walk m) e ∙ word_walk i s (omega arith)),
        r,
      ),
      Keeps-trans s.tables d₁ d,
      λ b. w b ∙ joined b,
    )
  where
    joined :
        (b : ℕ)
        → (if among f (i + 1) n b
            then (put_word (f + i * 4) (m.words (m.cr3 + i * 4)) m).words (m.cr3 + (b - f))
            else (put_word (f + i * 4) (m.words (m.cr3 + i * 4)) m).words b)
          ≡ (if among f i (suc n) b then m.words (m.cr3 + (b - f)) else m.words b)
    joined b = ground (arith, s.tables.directory.aligned, s.plain.aligned, s.plain.directory)

-- The machine with another directory loaded.
abbrev pub with_cr3 : ℕ → Machine → Machine
with_cr3 f m = record m { cr3 = f }

-- What the new directory in the frame `f` is: it leads to itself, it shows the kernel as the
-- kernel's directory does, and it maps no address below the kernel.
pub record IsPageDir (m : Machine) (f : ℕ) : Type 0 where
  pub directory : IsDirectory (with_cr3 f m)
  pub kernel : (u : ℕ) → InKernel u → walk (with_cr3 f m) u ≡ walk m u
  pub user : (u : ℕ) → u < 0xc0000000 → walk (with_cr3 f m) u ≡ none

-- The words of the new directory.
record Copied (m : Machine) (f : ℕ) : Type 0 where
  aligned : f % 4096 ≡ 0
  low : (j : ℕ) → j < 768 → m.words (f + j * 4) ≡ 0
  high : (j : ℕ) → 768 ≤ j → j < 1023 → m.words (f + j * 4) ≡ m.words (m.cr3 + j * 4)
  last : m.words (f + 4092) ≡ f + 7

Copied-IsPageDir : {m : Machine} {f : ℕ} → Copied m f → IsPageDir m f
Copied-IsPageDir {m} {f} c = record {
  directory = record {
    aligned = c.aligned;
    self_present = omega (arith, c.last, c.aligned);
    self_frame = omega (arith, c.last, c.aligned);
  };
  kernel = λ u k.
      let e : m.words (f + u / 4194304 * 4) ≡ m.words (m.cr3 + u / 4194304 * 4) =
        c.high (u / 4194304) (omega arith) (omega arith) in
      walk_entry m (with_cr3 f m) u e (ap m.words (omega arith));
  user =
      λ u l. walk_no_table (with_cr3 f m) u (ap (λ w. w % 2) (c.low (u / 4194304) (omega arith)));
}

entries-Copied :
    (m m₁ : Machine) (a f : ℕ)
    → Shows m a f
    → m₁.cr3 ≡ m.cr3
    → ((j : ℕ) → j < 1024 → m.words (f + j * 4) ≡ 0)
    → ((b : ℕ) → m₁.words b ≡ (if among f 768 256 b then m.words (m.cr3 + (b - f)) else m.words b))
    → Copied (put_word (f + 1023 * 4) (entry_for f) m₁) f
entries-Copied m m₁ a f s c zeros words = record {
  aligned = al;
  low = λ j l.
      rw (==_of_ne (f + 1023 * 4) (f + j * 4) (λ e. omega arith))
        (words (f + j * 4) ∙ ground (arith, zeros j));
  high = λ j l h.
      let e : m₁.words (f + j * 4) ≡ m.words (m.cr3 + j * 4) = words (f + j * 4) ∙ ground arith in
      let k : m₁.words (m₁.cr3 + j * 4) ≡ m.words (m.cr3 + j * 4) =
        ap m₁.words (omega (arith, c)) ∙ words (m.cr3 + j * 4) ∙ ground (arith, al, dir_al, ne) in
      rw (==_of_ne (f + 1023 * 4) (f + j * 4) (λ q. omega arith))
        (rw (==_of_ne (f + 1023 * 4) (m₁.cr3 + j * 4) (λ q. ne (omega (arith, c)))) (e ∙ sym k));
  last = rw (==-refl (f + 1023 * 4)) (entry_for_lem f al);
}
  where
    al : f % 4096 ≡ 0
    al = s.plain.aligned

    dir_al : m.cr3 % 4096 ≡ 0
    dir_al = s.tables.directory.aligned

    ne : f ≢ m.cr3
    ne = s.plain.directory

create_page_dir_steps :
    (s s' : Space) (a f : ℕ) (m₁ m₂ : Machine)
    → get_kernel_pages 1 s ≡ ok (s', a)
    → (a == 0) ≡ false
    → copy_words 256 (a + 0x300 * 4) (0xfffff000 + 0x300 * 4) s'.machine ≡ ok m₁
    → addr_v2p a m₁ ≡ ok f
    → store m₁ (a + 1023 * 4) (entry_for f) ≡ ok m₂
    → create_page_dir s ≡ ok (record s' { machine = m₂ }, a)
unfolding create_page_dir
create_page_dir_steps s s' a f m₁ m₂ r z c v t = simp (r, z, c, v, t)

-- `addr_v2p` of a page gives the frame that it shows.
pub addr_v2p-shown : (m : Machine) (a f : ℕ) → Shows m a f → f + 4096 ≤ 2 ^ 32 → addr_v2p a m ≡ ok f
addr_v2p-shown m a f s small =
    let (d, t, e) = walk-some m a f s.shown in
    addr_v2p-walk m a f s.tables.directory (omega (arith, s.kernel)) (omega (arith, s.page)) s.shown

-- In a well-formed kernel memory with a free page and a free frame, where no free frame holds a table
-- of the kernel, `create_page_dir` returns a page that shows a frame which was free. Loaded into cr3,
-- the frame is a directory that leads to itself, takes every address of the kernel where it goes
-- already, and maps nothing below the kernel. No word changes in another frame without tables, and
-- the kernel's memory stays well formed.
pub create_page_dir-IsPageDir :
    (free : ℕ) (s : Space)
    → IsKernelSpace s
    → HasPlainFrames s
    → free < page_bits (addresses s)
    → used (addresses s).vaddr_bitmap free ≡ false
    → 1 ≤ free_below (frames s).pool_bitmap (frame_bits s)
    → (s' : Space) × (a : ℕ) × (f : ℕ) × (create_page_dir s ≡ ok (s', a))
      × Given s s' a f
      × IsPageDir s'.machine f
      × SparesBut s s' f
create_page_dir-IsPageDir free s w plain lt unused few =
    let (s₁, a, f, r, g, zeros, spares) = get_kernel_pages-Given free s w plain lt unused few in
    let (m₁, c, d₁, words) =
      copy_words-Shows 256 768 (a + 0x300 * 4) (0xfffff000 + 0x300 * 4) s₁.machine a f g.shows
        (omega arith) refl refl in
    let shows₁ = Keeps-Shows g.shows d₁ in
    let m₂ = put_word (f + 1023 * 4) (entry_for f) m₁ in
    let d : Keeps s₁.machine m₂ =
      Keeps-trans g.shows.tables d₁ (put_word-Keeps 1023 (entry_for f) shows₁ (omega arith)) in
    (
      record s₁ { machine = m₂ },
      a,
      f,
      create_page_dir_steps s s₁ a f m₁ m₂ r (==_of_ne a 0 (λ e. omega (arith, g.shows.kernel))) c
          (addr_v2p-shown m₁ a f shows₁ g.small)
          (store_at m₁ (a + 1023 * 4) (f + 1023 * 4) (entry_for f)
            (word_walk 1023 shows₁ (omega arith))),
      Keeps-Given g d,
      Copied-IsPageDir (entries-Copied s₁.machine m₁ a f g.shows d₁.cr3 zeros words),
      λ b p ne.
          rw (==_of_ne (f + 1023 * 4) b (λ e. ne (omega (arith, g.shows.plain.aligned))))
            (words b ∙ ground (arith, g.shows.plain.aligned))
          ∙ spares b p ne,
    )
