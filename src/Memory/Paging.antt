-- ===== src/Memory/Paging.antt =====
-- The page tables of kernel/memory.c, written through the last entry of the directory, which leads to
-- the directory itself.
pub mod SelfMap
pub mod Table
pub mod Extend
pub mod Clear
pub mod Fresh
pub mod Add
use oslearn.Base.{
  ℕ, zero, suc, ◌+◌, ◌*◌, ◌/◌, ◌%◌, ◌^◌, bit_and, bit_or, Bool, true, false, not, ◌==◌,
  if◌then◌else◌, u32, ◌>>>◌, Run, ok, ◌>>=◌, ◌>>◌, assert,
}
use oslearn.Machine.{Machine, load, store}
use oslearn.Memory.{Pool, palloc, pg_size}

-- `PDE_IDX(addr)` and `PTE_IDX(addr)`
abbrev pub pde_idx : ℕ → ℕ
pde_idx addr = bit_and addr 0xffc00000 >>> 22

abbrev pub pte_idx : ℕ → ℕ
pte_idx addr = bit_and addr 0x003ff000 >>> 12

pub pte_ptr : ℕ → ℕ
pte_ptr vaddr = bit_or (bit_or 0xffc00000 (bit_and vaddr 0xffc00000 >>> 10)) (pte_idx vaddr * 4)

pub pde_ptr : ℕ → ℕ
pde_ptr vaddr = bit_or 0xfffff000 (pde_idx vaddr * 4)

-- `frame | PG_US_U | PG_RW_W | PG_P_1`
pub entry_for : ℕ → ℕ
entry_for frame = bit_or (bit_or (bit_or frame 4) 2) 1

-- `memset` of `n` words to 0 from `v` on
unfoldable pub clear_words : ℕ → ℕ → Machine → Run Machine
clear_words zero v m = ok m
clear_words (suc n) v m = do m' ← store m v 0; clear_words n (v + 4) m'

-- The branch of `page_table_add` for a table that is there.
pub check_table : ℕ → Pool → Machine → Run (Pool × Machine)
check_table vaddr kernel_pool m = do
  pte ← load m (pte_ptr vaddr)
  assert (bit_and pte 1 == 0)
  ok (kernel_pool, m)

-- The branch that makes one. What `palloc` returns is not tested.
pub make_table : ℕ → Pool → Machine → Run (Pool × Machine)
unfolding entry_for
make_table vaddr kernel_pool m = do
  (kernel_pool', pde_phyaddr) ← palloc kernel_pool
  m₁ ← store m (pde_ptr vaddr) (entry_for pde_phyaddr)
  shown ← load m₁ (pde_ptr vaddr)
  m₂ ← clear_words 1024 (bit_and (pte_ptr vaddr) 0xfffff000) m₁
  pte ← load m₂ (pte_ptr vaddr)
  assert (bit_and pte 1 == 0)
  ok (kernel_pool', m₂)

pub page_table_add : ℕ → ℕ → Pool → Machine → Run (Pool × Machine)
unfolding entry_for
page_table_add vaddr page_phyaddr kernel_pool m = do
  pde ← load m (pde_ptr vaddr)
  (kernel_pool', m₁) ←
      (if not (bit_and pde 1 == 0)
        then check_table vaddr kernel_pool m
        else make_table vaddr kernel_pool m)
  m₂ ← store m₁ (pte_ptr vaddr) (entry_for page_phyaddr)
  ok (kernel_pool', m₂)

pub addr_v2p : ℕ → Machine → Run ℕ
addr_v2p vaddr m = do
  pte ← load m (pte_ptr vaddr)
  ok (u32 (bit_and pte 0xfffff000 + bit_and vaddr 0xfff))
