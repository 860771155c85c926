-- ===== src/Memory/Paging/Fresh.antt =====
-- The page that `page_table_add` clears for a new table, seen through the directory.
use oslearn.Base.{
  ℕ, ◌+◌, ◌*◌, ◌/◌, ◌%◌, ◌^◌, ◌<◌, ◌≡◌, ◌≢◌, refl, ap, ◌∙◌, some, ==_of_ne, if◌then◌else◌, ok,
  arith,
}
use oslearn.Machine.{Machine, frame_of, pde_addr, walk, put_word}
use oslearn.Machine.Walk.{walk_mapped}
use oslearn.Memory.Paging.{clear_words}
use oslearn.Memory.Paging.Clear.{among, clear_words-among}
use oslearn.Memory.Paging.SelfMap.{IsDirectory}

-- A word outside the directory's frame is none of its entries.
pub put_word_outside :
    (m : Machine) (a x p : ℕ)
    → m.cr3 % 4096 ≡ 0
    → p < 2 ^ 32
    → frame_of a ≢ m.cr3
    → (put_word a x m).words (pde_addr m p) ≡ m.words (pde_addr m p)
put_word_outside m a x p al h ne = rw (==_of_ne a (pde_addr m p) (λ e. ne (omega arith)))

pub put_word-IsDirectory :
    (m : Machine) (a x : ℕ) → IsDirectory m → a ≢ m.cr3 + 4092 → IsDirectory (put_word a x m)
put_word-IsDirectory m a x s ne =
    let kept : (put_word a x m).words (m.cr3 + 4092) ≡ m.words (m.cr3 + 4092) =
      rw (==_of_ne a (m.cr3 + 4092) ne) in
    record {
      aligned = s.aligned;
      self_present = ap (λ w. w % 2) kept ∙ s.self_present;
      self_frame = ap frame_of kept ∙ s.self_frame;
    }

-- Word `i` of the page at which the table of `v` shows is word `i` of the table's frame.
table_word :
    (m : Machine) (v f i p : ℕ)
    → IsDirectory m
    → v < 2 ^ 32
    → m.words (pde_addr m v) ≡ f + 7
    → f % 4096 ≡ 0
    → i < 1024
    → p ≡ 0xffc00000 + v / 4194304 * 4096 + i * 4
    → walk m p ≡ some (f + i * 4)
table_word m v f i p s h e al hi q =
    let self = s.self_frame in
    walk_mapped m p (m.words (m.cr3 + 4092)) (f + 7) (ap m.words (omega arith)) s.self_present
      (ap m.words (omega arith) ∙ e) (omega arith)
    ∙ ap some (omega arith)

-- The new table stays in reach while it is cleared.
record HasEntry (v f : ℕ) (m : Machine) : Type 0 where
  directory : IsDirectory m
  entry : m.words (pde_addr m v) ≡ f + 7
  apart : f ≢ m.cr3

put_word-HasEntry :
    (v f : ℕ) (m : Machine) (j : ℕ)
    → v < 2 ^ 32
    → f % 4096 ≡ 0
    → HasEntry v f m
    → j < 1024
    → HasEntry v f (put_word (f + j * 4) 0 m)
put_word-HasEntry v f m j h al g lt =
    let s = g.directory in
    let ne = g.apart in
    record {
      directory = put_word-IsDirectory m (f + j * 4) 0 s (λ c. ne (omega (arith, s.aligned)));
      entry =
          put_word_outside m (f + j * 4) 0 v s.aligned h (λ c. ne (omega (arith, s.aligned)))
          ∙ g.entry;
      apart = ne;
    }

pub table_cleared :
    (p : ℕ) (m : Machine) (v f : ℕ)
    → IsDirectory m
    → v < 2 ^ 32
    → m.words (pde_addr m v) ≡ f + 7
    → f % 4096 ≡ 0
    → f ≢ m.cr3
    → p ≡ 0xffc00000 + v / 4194304 * 4096
    → (m' : Machine) × (clear_words 1024 p m ≡ ok m')
      × IsDirectory m'
      × (m'.cr3 ≡ m.cr3)
      × ((a : ℕ) → m'.words a ≡ (if among f 0 1024 a then 0 else m.words a))
table_cleared p m v f s h e al ne q =
    let (m', r, g, c, w) =
      clear_words-among (HasEntry v f) (0xffc00000 + v / 4194304 * 4096) f al
        (λ n j g lt. table_word n v f j _ g.directory h g.entry al lt refl)
        (λ n j g lt. put_word-HasEntry v f n j h al g lt) 1024 0 p m
        (record { directory = s; entry = e; apart = ne }) (omega arith) (omega arith) in
    (m', r, g.directory, c, w)
