-- ===== src/Machine.antt =====
-- The processor with paging on, as far as kernel/memory.c relies on it: a memory of 32-bit words at
-- their physical addresses, and the walk through page directory and page table that a virtual
-- address takes. An access through an entry that is not present is a page fault (`fault`). Entries
-- change from absent to present only, so that no translation in the processor's cache is stale.
pub mod Walk
use oslearn.Base.{
  ℕ, ◌+◌, ◌*◌, ◌/◌, ◌%◌, Bool, true, false, Option, none, some, ◌==◌, if◌then◌else◌, Run, ok, ◌>>=◌,
  read,
}

pub record Machine : Type 0 where
  pub words : ℕ → ℕ
  pub cr3 : ℕ

abbrev pub present : ℕ → Bool
present entry = entry % 2 == 1

abbrev pub frame_of : ℕ → ℕ
frame_of entry = entry / 4096 * 4096

-- Where the directory entry and the table entry of a virtual address stand.
abbrev pub pde_addr : Machine → ℕ → ℕ
pde_addr m v = m.cr3 + v / 4194304 * 4

abbrev pub pte_addr : Machine → ℕ → ℕ
pte_addr m v = frame_of (m.words (pde_addr m v)) + v / 4096 % 1024 * 4

unfoldable pub walk : Machine → ℕ → Option ℕ
walk m v =
    if present (m.words (pde_addr m v))
    then (if present (m.words (pte_addr m v))
        then some (frame_of (m.words (pte_addr m v)) + v % 4096)
        else none)
    else none

pub load : Machine → ℕ → Run ℕ
load m v = do a ← read (walk m v); ok (m.words a)

abbrev pub put_word : ℕ → ℕ → Machine → Machine
put_word a x m = record m { words = λ b. if a == b then x else m.words b }

pub store : Machine → ℕ → ℕ → Run Machine
store m v x = do a ← read (walk m v); ok (put_word a x m)
