-- ===== src/Memory/Paging/Table.antt =====
-- `page_table_add` where the page table is there.
use oslearn.Base.{
  ℕ, ◌+◌, ◌/◌, ◌%◌, ◌^◌, ◌<◌, ◌≡◌, ◌≢◌, refl, ap, sym, ◌∙◌, bit_and, some, ==-refl, ==_of_ne, ok,
  arith,
}
use oslearn.Base.Bits.{bit_and_low}
use oslearn.Machine.{Machine, frame_of, pde_addr, pte_addr, walk, put_word}
use oslearn.Machine.Walk.{walk_mapped, walk_same, load_at, store_at}
use oslearn.Memory.{Pool}
use oslearn.Memory.Paging.{pte_ptr, pde_ptr, entry_for, check_table, page_table_add}
use oslearn.Memory.Paging.SelfMap.{IsDirectory, entry_for_lem, walk-pde_ptr, walk-pte_ptr}

-- The table of `v` is there, it is not the directory, and its entry for `v` is free.
pub record IsFree (m : Machine) (v : ℕ) : Type 0 where
  pub table : m.words (pde_addr m v) % 2 ≡ 1
  pub apart : frame_of (m.words (pde_addr m v)) ≢ m.cr3
  pub free : m.words (pte_addr m v) % 2 ≡ 0

-- What mapping the page of `v` to a frame does: the addresses of the page lead into the frame, and
-- every address with another table entry goes where it went.
pub record Maps (m m' : Machine) (v frame : ℕ) : Type 0 where
  pub mapped : (u : ℕ) → u < 2 ^ 32 → u / 4096 ≡ v / 4096 → walk m' u ≡ some (frame + u % 4096)
  pub cr3 : m'.cr3 ≡ m.cr3
  pub directory : (u : ℕ) → u < 2 ^ 32 → m'.words (pde_addr m u) ≡ m.words (pde_addr m u)
  pub entries :
      (u : ℕ) → pte_addr m u ≢ pte_addr m v → m'.words (pte_addr m u) ≡ m.words (pte_addr m u)
  pub words : (b : ℕ) → b ≢ pte_addr m v → m'.words b ≡ m.words b
  pub others : (u : ℕ) → u < 2 ^ 32 → pte_addr m u ≢ pte_addr m v → walk m' u ≡ walk m u

module _ {m : Machine} (s : IsDirectory m) (v frame : ℕ) (h : v < 2 ^ 32) (f : IsFree m v)
    (aligned : frame % 4096 ≡ 0) where
  -- A table entry outside the directory is no directory entry.
  pub outside : (p : ℕ) → p < 2 ^ 32 → pte_addr m v ≢ pde_addr m p
  outside p k e = f.apart (omega (arith, s.aligned))

  -- The machine after the entry has been written.
  abbrev pub mapped_to : Machine
  mapped_to = put_word (pte_addr m v) (entry_for frame) m

  pub entry_written : mapped_to.words (pte_addr m v) ≡ frame + 7
  entry_written = rw (==-refl (pte_addr m v)) (entry_for_lem frame aligned)

  pub entry_kept : (a : ℕ) → pte_addr m v ≢ a → mapped_to.words a ≡ m.words a
  entry_kept a ne = rw (==_of_ne (pte_addr m v) a ne)

  pub mapped_to-Maps : Maps m mapped_to v frame
  mapped_to-Maps = record {
    mapped = λ u k e.
        walk_mapped mapped_to u (m.words (pde_addr m v)) (frame + 7)
          (entry_kept (pde_addr m u) (outside u k) ∙ ap m.words (omega arith)) f.table
          (ap mapped_to.words (omega arith) ∙ entry_written) (omega arith)
        ∙ ap some (omega arith);
    cr3 = refl;
    directory = λ u k. entry_kept (pde_addr m u) (outside u k);
    entries = λ u ne. entry_kept (pte_addr m u) (λ e. ne (sym e));
    words = λ b ne. entry_kept b (λ e. ne (sym e));
    others = λ u k ne.
        walk_same m mapped_to u refl (entry_kept (pde_addr m u) (outside u k))
          (entry_kept (pte_addr m u) (λ e. ne (sym e)));
  }

  pub mapped_to-IsDirectory : IsDirectory mapped_to
  mapped_to-IsDirectory =
      let kept : mapped_to.words (m.cr3 + 4092) ≡ m.words (m.cr3 + 4092) =
        entry_kept (m.cr3 + 4092) (λ e. outside 0xffc00000 (omega arith) (e ∙ omega arith)) in
      record {
        aligned = s.aligned;
        self_present = ap (λ w. w % 2) kept ∙ s.self_present;
        self_frame = ap frame_of kept ∙ s.self_frame;
      }

page_table_add_steps :
    (m : Machine) (v frame : ℕ) (pool : Pool) (p q : ℕ)
    → walk m (pde_ptr v) ≡ some p
    → bit_and (m.words p) 1 ≡ 1
    → walk m (pte_ptr v) ≡ some q
    → bit_and (m.words q) 1 ≡ 0
    → page_table_add v frame pool m ≡ ok (pool, put_word q (entry_for frame) m)
unfolding page_table_add check_table
page_table_add_steps m v frame pool p q w₁ d w₂ t = simp (
  load_at m (pde_ptr v) p w₁,
  d,
  load_at m (pte_ptr v) q w₂,
  t,
  store_at m (pte_ptr v) q (entry_for frame) w₂,
)

-- Where the page table of `v` is there, apart from the directory, and its entry for `v` free,
-- `page_table_add` maps the page of `v` to the frame, takes no frame from the pool, and leaves every
-- address with another table entry as it was.
pub page_table_add-Maps :
    (m : Machine) (v frame : ℕ) (pool : Pool)
    → IsDirectory m
    → v < 2 ^ 32
    → IsFree m v
    → frame % 4096 ≡ 0
    → (m' : Machine) × (page_table_add v frame pool m ≡ ok (pool, m'))
      × IsDirectory m'
      × Maps m m' v frame
page_table_add-Maps m v frame pool s h f aligned = (
  mapped_to s v frame h f aligned,
  page_table_add_steps m v frame pool (pde_addr m v) (pte_addr m v) (walk-pde_ptr s v h)
      (bit_and_low 1 (m.words (pde_addr m v)) ∙ f.table) (walk-pte_ptr s v h f.table)
      (bit_and_low 1 (m.words (pte_addr m v)) ∙ f.free),
  mapped_to-IsDirectory s v frame h f aligned,
  mapped_to-Maps s v frame h f aligned,
)
