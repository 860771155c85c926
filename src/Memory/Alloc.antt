-- ===== src/Memory/Alloc.antt =====
-- `malloc_page` of kernel/memory.c and the calls on top of it, over the pools and the page tables.
pub mod Free
pub mod Tables
pub mod Pages
pub mod Kernel
pub mod Page
pub mod Granted
pub mod After
pub mod Chain
pub mod Zeroed
pub mod Given
pub mod Room
pub mod Extended
pub mod Sample
mod Tests
use oslearn.Base.{
  ℕ, zero, suc, ◌+◌, ◌*◌, Bool, true, false, ◌&&◌, ltb, ◌==◌, if◌then◌else◌, u32, Run, ok, ◌>>=◌,
  ◌>>◌, assert,
}
use oslearn.Machine.{Machine}
use oslearn.Memory.{Pool, PoolFlags, pf_kernel, pf_user, Memory, palloc, vaddr_get, pg_size}
use oslearn.Memory.Paging.{page_table_add, clear_words}

pub record Space : Type 0 where
  pub memory : Memory
  pub machine : Machine

-- `pf & PF_KERNEL ? &kernel_pool : &user_pool`
abbrev pub pool_of : PoolFlags → Memory → Pool
pool_of pf_kernel m = m.kernel_pool
pool_of pf_user m = m.user_pool

abbrev pub set_pool : PoolFlags → Pool → Memory → Memory
set_pool pf_kernel p m = record m { kernel_pool = p }
set_pool pf_user p m = record m { user_pool = p }

-- The loop of `malloc_page`, with `cnt` pages to go; false if there was no frame for one of them.
pub map_pages : PoolFlags → ℕ → ℕ → Space → Run (Space × Bool)
map_pages pf zero vaddr s = ok (s, true)
map_pages pf (suc cnt) vaddr s = do
  (mem_pool, page_phyaddr) ← palloc (pool_of pf s.memory)
  let mem = set_pool pf mem_pool s.memory
  if page_phyaddr == 0 then ok (record s { memory = mem }, false) else (do
    (kernel_pool, machine) ← page_table_add vaddr page_phyaddr mem.kernel_pool s.machine
    map_pages pf cnt (u32 (vaddr + pg_size))
        (record { memory = record mem { kernel_pool = kernel_pool }; machine = machine }))

-- NULL is 0.
pub malloc_page : PoolFlags → ℕ → Space → Run (Space × ℕ)
malloc_page pf pg_cnt s = do
  assert (ltb 0 pg_cnt && ltb pg_cnt 3840)
  (mem, vaddr_start) ← vaddr_get pf pg_cnt s.memory
  let s' = record s { memory = mem }
  if vaddr_start == 0 then ok (s', 0) else (do
    (s'', mapped) ← map_pages pf pg_cnt vaddr_start s'
    ok (s'', if mapped then vaddr_start else 0))

-- `memset(vaddr, 0, pg_cnt * PG_SIZE)`, word by word
pub get_kernel_pages : ℕ → Space → Run (Space × ℕ)
get_kernel_pages pg_cnt s = do
  (s', vaddr) ← malloc_page pf_kernel pg_cnt s
  if vaddr == 0 then ok (s', 0) else (do
    machine ← clear_words (pg_cnt * 1024) vaddr s'.machine
    ok (record s' { machine = machine }, vaddr))
