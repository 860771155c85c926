-- ===== src/Memory/Locked.antt =====
-- `get_user_pages` and `get_a_page` of kernel/memory.c, which hold the lock of a pool. The addresses of
-- the current process are `userprog_vaddr`. NULL is 0.
pub mod One
pub mod User
mod Tests
use oslearn.Base.{
  ℕ, ◌+◌, ◌-◌, ◌*◌, ◌/◌, ◌^◌, Bool, true, false, not, ltb, ◌==◌, if◌then◌else◌, u32, Run, ok, panic,
  ◌>>=◌, ◌>>◌, assert,
}
use oslearn.Bitmap.{put}
use oslearn.Interrupt.Status.{IntrStatus}
use oslearn.Thread.State.{Kernel, current}
use oslearn.Sync.{Lock, Outcome, returned, waiting, lock_acquire, lock_release}
use oslearn.Memory.{Pool, VirtualAddr, PoolFlags, pf_kernel, pf_user, Memory, palloc, pg_size}
use oslearn.Memory.Paging.{page_table_add, clear_words}
use oslearn.Memory.Alloc.{Space, pool_of, set_pool, malloc_page}

abbrev pub set_lock : PoolFlags → Lock → Space → Space
set_lock pf l s = record s {
  memory = set_pool pf (record (pool_of pf s.memory) { lock = l }) s.memory;
}

-- `bit_idx` of an address, and the bit set; the first page is refused.
pub mark_page : ℕ → VirtualAddr → Run VirtualAddr
mark_page vaddr v = do
  let bit_idx = u32 (vaddr + 2 ^ 32 - v.vaddr_start) / pg_size
  assert (ltb 0 bit_idx)
  btmp ← put v.vaddr_bitmap bit_idx 1
  ok (record v { vaddr_bitmap = btmp })

-- A process may take user pages and a thread pages of the kernel.
pub mark_for : PoolFlags → ℕ → ℕ → Memory → Run Memory
mark_for pf_user vaddr pgdir m =
    if pgdir == 0
    then panic
    else (do v ← mark_page vaddr m.userprog_vaddr; ok (record m { userprog_vaddr = v }))
mark_for pf_kernel vaddr pgdir m =
    if pgdir == 0
    then (do v ← mark_page vaddr m.kernel_vaddr; ok (record m { kernel_vaddr = v }))
    else panic

-- `get_a_page` with the lock. Without a frame it returns NULL and keeps the lock.
pub page_locked : PoolFlags → ℕ → Space → Kernel → Run (Outcome (Space × ℕ))
page_locked pf vaddr s k = do
  mem ← mark_for pf vaddr (current k).pgdir s.memory
  (mem_pool, page_phyaddr) ← palloc (pool_of pf mem)
  let mem' = set_pool pf mem_pool mem
  if page_phyaddr == 0 then ok (returned (record s { memory = mem' }, 0) k) else (do
    (kernel_pool, machine) ← page_table_add vaddr page_phyaddr mem'.kernel_pool s.machine
    let s' : Space = record {
      memory = record mem' { kernel_pool = kernel_pool };
      machine = machine;
    }
    (l, k') ← lock_release (pool_of pf s'.memory).lock k
    ok (returned (set_lock pf l s', vaddr) k'))

pub page_with : PoolFlags → ℕ → Space → Outcome Lock → Run (Outcome (Space × ℕ))
page_with pf vaddr s (waiting old_status l k) = ok (waiting old_status (set_lock pf l s, 0) k)
page_with pf vaddr s (returned l k) = page_locked pf vaddr (set_lock pf l s) k

pub get_a_page : PoolFlags → ℕ → Space → Kernel → Run (Outcome (Space × ℕ))
get_a_page pf vaddr s k = do o ← lock_acquire (pool_of pf s.memory).lock k; page_with pf vaddr s o

-- `get_user_pages` with the lock. `memset` asserts that the address is not NULL.
pub pages_with : ℕ → Space → Outcome Lock → Run (Outcome (Space × ℕ))
pages_with pg_cnt s (waiting old_status l k) = ok (waiting old_status (set_lock pf_user l s, 0) k)
pages_with pg_cnt s (returned l k) = do
  (s', vaddr) ← malloc_page pf_user pg_cnt (set_lock pf_user l s)
  assert (not (vaddr == 0))
  machine ← clear_words (pg_cnt * 1024) vaddr s'.machine
  (l', k') ← lock_release s'.memory.user_pool.lock k
  ok (returned (set_lock pf_user l' (record s' { machine = machine }), vaddr) k')

pub get_user_pages : ℕ → Space → Kernel → Run (Outcome (Space × ℕ))
get_user_pages pg_cnt s k = do o ← lock_acquire s.memory.user_pool.lock k; pages_with pg_cnt s o
