-- ===== src/Memory.antt =====
-- kernel/memory.c and memory.h: the pools of page frames and of virtual addresses. Layout has how
-- `mem_pool_init` divides the memory and Init its whole, Paging the page tables, Alloc and Locked the
-- calls on top.
pub mod Frames
pub mod Addresses
pub mod Layout
pub mod Paging
pub mod Alloc
pub mod Locked
pub mod Init
mod Tests
use oslearn.Base.{
  ℕ, zero, suc, ◌+◌, ◌-◌, ◌*◌, ◌/◌, ◌%◌, ◌^◌, Bool, true, false, Option, none, some, List, ltb, u32,
  Run, ok, ◌>>=◌, ◌>>◌, assert,
}
use oslearn.Bitmap.{Bitmap, scan, put, init}
use oslearn.Sync.{Lock, lock_init}

abbrev pub pg_size : ℕ
pg_size = 4096

pub record Pool : Type 0 where
  pub pool_bitmap : Bitmap
  pub phy_addr_start : ℕ
  pub pool_size : ℕ
  pub lock : Lock

pub record VirtualAddr : Type 0 where
  pub vaddr_bitmap : Bitmap
  pub vaddr_start : ℕ

pub data PoolFlags : Type 0 where
  pf_kernel pf_user : PoolFlags

-- The pools, and the virtual addresses of the kernel and of the running task.
pub record Memory : Type 0 where
  pub kernel_pool : Pool
  pub user_pool : Pool
  pub kernel_vaddr : VirtualAddr
  pub userprog_vaddr : VirtualAddr

-- The end of `palloc`, on the result of the scan; NULL is 0.
pub take_page : Pool → Option ℕ → Run (Pool × ℕ)
take_page m_pool none = ok (m_pool, 0)
take_page m_pool (some bit_idx) = do
  bm ← put m_pool.pool_bitmap bit_idx 1
  ok (record m_pool { pool_bitmap = bm }, u32 (u32 (bit_idx * pg_size) + m_pool.phy_addr_start))

pub palloc : Pool → Run (Pool × ℕ)
palloc m_pool = do found ← scan m_pool.pool_bitmap 1; take_page m_pool found

-- `while (cnt < pg_cnt) bitmap_set(bitmap, bit_idx_start + cnt++, 1)`, with `n` rounds to go
pub mark_pages : ℕ → Bitmap → ℕ → Run Bitmap
mark_pages zero bm bit_idx = ok bm
mark_pages (suc n) bm bit_idx = do bm' ← put bm bit_idx 1; mark_pages n bm' (bit_idx + 1)

-- What either branch of `vaddr_get` does with its pool of addresses.
pub take_run : VirtualAddr → ℕ → Option ℕ → Run (VirtualAddr × ℕ)
take_run v pg_cnt none = ok (v, 0)
take_run v pg_cnt (some bit_idx_start) = do
  bm ← mark_pages pg_cnt v.vaddr_bitmap bit_idx_start
  ok (record v { vaddr_bitmap = bm }, u32 (v.vaddr_start + u32 (bit_idx_start * pg_size)))

pub reserve : VirtualAddr → ℕ → Run (VirtualAddr × ℕ)
reserve v pg_cnt = do found ← scan v.vaddr_bitmap pg_cnt; take_run v pg_cnt found

-- A user's addresses end below the page of the stack; NULL passes the assertion, but the code
-- returns it before.
pub vaddr_get : PoolFlags → ℕ → Memory → Run (Memory × ℕ)
vaddr_get pf_kernel pg_cnt m = do
  (v, vaddr) ← reserve m.kernel_vaddr pg_cnt
  ok (record m { kernel_vaddr = v }, vaddr)
vaddr_get pf_user pg_cnt m = do
  (v, vaddr) ← reserve m.userprog_vaddr pg_cnt
  assert (ltb vaddr (0xc0000000 - pg_size))
  ok (record m { userprog_vaddr = v }, vaddr)
