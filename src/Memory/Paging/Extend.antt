-- ===== src/Memory/Paging/Extend.antt =====
-- `page_table_add` where the page table has to be made.
use oslearn.Base.{
  ℕ, ◌+◌, ◌*◌, ◌/◌, ◌%◌, ◌^◌, ◌<◌, ◌≡◌, ◌≢◌, refl, ap, ◌∙◌, bit_and, none, some, ◌==◌, ==-refl,
  if◌then◌else◌, ok, arith,
}
use oslearn.Base.Bits.{bit_and_field}
use oslearn.Machine.{Machine, frame_of, pde_addr, pte_addr, walk, put_word, store}
use oslearn.Machine.Walk.{walk_no_page, walk_same, store_at}
use oslearn.Memory.Paging.{pte_ptr, entry_for, clear_words}
use oslearn.Memory.Paging.SelfMap.{IsDirectory, pte_ptr_lem, entry_for_lem, walk-pte_ptr}
use oslearn.Memory.Paging.Table.{
  IsFree, mapped_to, entry_kept, mapped_to-Maps, mapped_to-IsDirectory,
}
use oslearn.Memory.Paging.Clear.{among}
use oslearn.Memory.Paging.Fresh.{put_word-IsDirectory, table_cleared}

-- The machine with an empty table for `v` in the frame `f`.
pub record HasTable (m m₂ : Machine) (v f : ℕ) : Type 0 where
  pub directory : IsDirectory m₂
  pub cr3 : m₂.cr3 ≡ m.cr3
  pub words :
      (a : ℕ)
      → m₂.words a
        ≡ (if among f 0 1024 a then 0 else if pde_addr m v == a then f + 7 else m.words a)

-- What `page_table_add` does then: as before, and no other page of the 4 MB of `v` is mapped; an
-- address outside them whose table is neither the new frame nor the directory goes where it went, and
-- only words of these two change.
pub record Extends (m m' : Machine) (v frame table : ℕ) : Type 0 where
  pub mapped : (u : ℕ) → u < 2 ^ 32 → u / 4096 ≡ v / 4096 → walk m' u ≡ some (frame + u % 4096)
  pub alone :
      (u : ℕ) → u < 2 ^ 32 → u / 4194304 ≡ v / 4194304 → u / 4096 ≢ v / 4096 → walk m' u ≡ none
  pub elsewhere :
      (u : ℕ)
      → u < 2 ^ 32
      → u / 4194304 ≢ v / 4194304
      → frame_of (m.words (pde_addr m u)) ≢ table
      → frame_of (m.words (pde_addr m u)) ≢ m.cr3
      → walk m' u ≡ walk m u
  pub cr3 : m'.cr3 ≡ m.cr3
  pub entries :
      (u : ℕ)
      → u < 2 ^ 32
      → u / 4194304 ≢ v / 4194304
      → m'.words (pde_addr m u) ≡ m.words (pde_addr m u)
  pub words : (b : ℕ) → frame_of b ≢ m.cr3 → frame_of b ≢ table → m'.words b ≡ m.words b

module _ {m : Machine} (s : IsDirectory m) (v f : ℕ) (h : v < 2 ^ 32) (inner : v / 4194304 < 1023)
    (al : f % 4096 ≡ 0) (ne : f ≢ m.cr3) where
  abbrev pub with_entry : Machine
  with_entry = put_word (pde_addr m v) (entry_for f) m

  pub with_entry-IsDirectory : IsDirectory with_entry
  with_entry-IsDirectory = put_word-IsDirectory m (pde_addr m v) (entry_for f) s (λ e. omega arith)

  pub with_entry_read : with_entry.words (pde_addr m v) ≡ f + 7
  with_entry_read = rw (==-refl (pde_addr m v)) (entry_for_lem f al)

  -- The page at which the table shows.
  table_page : bit_and (pte_ptr v) 0xfffff000 ≡ 0xffc00000 + v / 4194304 * 4096
  table_page = omega (arith, bit_and_field 20 12 (pte_ptr v), pte_ptr_lem v h)

  pub cleared :
      (m₂ : Machine) × (clear_words 1024 (bit_and (pte_ptr v) 0xfffff000) with_entry ≡ ok m₂)
      × HasTable m m₂ v f
  cleared =
      let (m₂, r, d, c, w) =
        table_cleared (bit_and (pte_ptr v) 0xfffff000) with_entry v f with_entry-IsDirectory h
          with_entry_read al ne table_page in
      (m₂, r, record { directory = d; cr3 = c; words = λ a. w a ∙ joined a })
    where
      joined :
          (a : ℕ)
          → (if among f 0 1024 a then 0 else (put_word (pde_addr m v) (entry_for f) m).words a)
            ≡ (if among f 0 1024 a then 0 else if pde_addr m v == a then f + 7 else m.words a)
      joined a =
          ap (λ (t : ℕ). if among f 0 1024 a then 0 else if pde_addr m v == a then t else m.words a)
            (entry_for_lem f al)

  module _ {m₂ : Machine} (t : HasTable m m₂ v f) where
    -- A directory entry is the new one or an old one.
    new_entry : m₂.words (pde_addr m₂ v) ≡ f + 7
    new_entry = ground (arith, t.words (pde_addr m v), t.cr3)

    old_entry :
        (u : ℕ)
        → u < 2 ^ 32
        → u / 4194304 ≢ v / 4194304
        → m₂.words (pde_addr m u) ≡ m.words (pde_addr m u)
    old_entry u k d = ground (arith, t.words (pde_addr m u), s.aligned)

    -- The entries of the addresses near `v` stand in the new table, which is empty.
    entry_place : (u : ℕ) → u / 4194304 ≡ v / 4194304 → pte_addr m₂ u ≡ f + u / 4096 % 1024 * 4
    entry_place u d =
        let e : m₂.words (pde_addr m₂ u) ≡ f + 7 = ap m₂.words (omega arith) ∙ new_entry in
        omega arith

    empty_entry : (u : ℕ) → u / 4194304 ≡ v / 4194304 → m₂.words (pte_addr m₂ u) ≡ 0
    empty_entry u d =
        ap m₂.words (entry_place u d) ∙ ground (arith, t.words (f + u / 4096 % 1024 * 4))

    pub table-IsFree : IsFree m₂ v
    table-IsFree = record {
      table = omega (arith, new_entry);
      apart = λ e. ne (omega (arith, new_entry, t.cr3));
      free = ap (λ w. w % 2) (empty_entry v refl);
    }

    -- An address with another table goes on as it did.
    elsewhere_same :
        (u : ℕ)
        → u < 2 ^ 32
        → u / 4194304 ≢ v / 4194304
        → frame_of (m.words (pde_addr m u)) ≢ f
        → frame_of (m.words (pde_addr m u)) ≢ m.cr3
        → walk m₂ u ≡ walk m u
    elsewhere_same u k d nf nc =
        walk_same m m₂ u t.cr3 (old_entry u k d) (t.words (pte_addr m u) ∙ outside)
      where
        outside :
            (if among f 0 1024 (pte_addr m u)
              then 0
              else if pde_addr m v == pte_addr m u
              then f + 7
              else m.words (pte_addr m u))
            ≡ m.words (pte_addr m u)
        outside = ground (arith, s.aligned)

    other_entry :
        (u : ℕ)
        → u < 2 ^ 32
        → u / 4194304 ≢ v / 4194304
        → frame_of (m.words (pde_addr m u)) ≢ f
        → pte_addr m₂ u ≢ pte_addr m₂ v
    other_entry u k d nf e =
        let same : m₂.words (pde_addr m₂ u) ≡ m.words (pde_addr m u) =
          ap m₂.words (omega (arith, t.cr3)) ∙ old_entry u k d in
        nf (omega (arith, entry_place v refl))

    untouched :
        (b : ℕ)
        → frame_of b ≢ m.cr3
        → frame_of b ≢ f
        → (if among f 0 1024 b then 0 else if pde_addr m v == b then f + 7 else m.words b)
          ≡ m.words b
    untouched b nd nt = ground (arith, s.aligned, al)

    pub mapped-Extends :
        (frame : ℕ)
        → frame % 4096 ≡ 0
        → (m' : Machine) × (store m₂ (pte_ptr v) (entry_for frame) ≡ ok m')
          × IsDirectory m'
          × Extends m m' v frame f
    mapped-Extends frame fa =
        let free = table-IsFree in
        let d = t.directory in
        let maps = mapped_to-Maps d v frame h free fa in
        (
          mapped_to d v frame h free fa,
          store_at m₂ (pte_ptr v) (pte_addr m₂ v) (entry_for frame) (walk-pte_ptr d v h free.table),
          mapped_to-IsDirectory d v frame h free fa,
          record {
            mapped = maps.mapped;
            alone = λ u k near other.
                maps.others u k (λ e. other (omega (arith, entry_place u near, entry_place v refl)))
                ∙ walk_no_page m₂ u (ap (λ w. w % 2) (empty_entry u near));
            elsewhere = λ u k far nf nc.
                maps.others u k (other_entry u k far nf) ∙ elsewhere_same u k far nf nc;
            cr3 = t.cr3;
            entries = λ u k far.
                entry_kept d v frame h free fa (pde_addr m u)
                  (λ e. ne (omega (arith, entry_place v refl, s.aligned)))
                ∙ old_entry u k far;
            words = λ b nd nt.
                entry_kept d v frame h free fa b (λ e. nt (omega (arith, entry_place v refl)))
                ∙ t.words b
                ∙ untouched b nd nt;
          },
        )
