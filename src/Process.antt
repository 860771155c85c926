-- ===== src/Process.antt =====
-- userprog/process.c: the page directory of a user process, its switch-on, and its addresses; Execute
-- has how a process is made and entered.
pub mod Directory
pub mod Activate
pub mod Addresses
pub mod Interrupts
pub mod Execute
mod Tests
use oslearn.Base.{
  List, [], ◌∷◌, ◌-◌, ◌/◌, ℕ, zero, suc, ◌+◌, ◌*◌, ◌==◌, Bool, true, false, not, assert,
  if◌then◌else◌, Run, ok, ◌>>=◌, ◌>>◌,
}
use oslearn.Bitmap.{Bitmap, init}
use oslearn.Memory.{VirtualAddr, pg_size}
use oslearn.Machine.{Machine, load, store}
use oslearn.Thread.State.{Task}
use oslearn.Descriptor.{Tss, update_tss_esp}
use oslearn.Memory.Paging.{entry_for, addr_v2p}
use oslearn.Memory.Alloc.{Space, get_kernel_pages}

-- `memcpy` of `n` words
unfoldable pub copy_words : ℕ → ℕ → ℕ → Machine → Run Machine
copy_words zero dst src m = ok m
copy_words (suc n) dst src m = do
  word ← load m src
  m' ← store m dst word
  copy_words n (dst + 4) (src + 4) m'

-- The kernel's 256 entries, then the entry for the directory itself. NULL, which is also reported on
-- the console, is 0.
pub create_page_dir : Space → Run (Space × ℕ)
create_page_dir s = do
  (s', page_dir_vaddr) ← get_kernel_pages 1 s
  if page_dir_vaddr == 0 then ok (s', 0) else (do
    m₁ ← copy_words 256 (page_dir_vaddr + 0x300 * 4) (0xfffff000 + 0x300 * 4) s'.machine
    new_page_dir_phy_addr ← addr_v2p page_dir_vaddr m₁
    m₂ ← store m₁ (page_dir_vaddr + 1023 * 4) (entry_for new_page_dir_phy_addr)
    ok (record s' { machine = m₂ }, page_dir_vaddr))

-- A thread has no directory of its own and runs on the kernel's.
pub page_dir_activate : Task → Machine → Run Machine
page_dir_activate p_thread m = do
  pagedir_phy_addr ← (if p_thread.pgdir == 0 then ok 0x100000 else addr_v2p p_thread.pgdir m)
  ok (record m { cr3 = pagedir_phy_addr })

-- The task and the address of its `task_struct`, which `update_tss_esp` takes.
pub process_activate : ℕ → Task → Tss → Machine → Run (Tss × Machine)
process_activate address p_thread tss m = do
  assert (not (address == 0))
  m' ← page_dir_activate p_thread m
  ok (if p_thread.pgdir == 0 then tss else update_tss_esp address tss, m')

abbrev pub user_vaddr_start : ℕ
user_vaddr_start = 0x8048000

-- `DIV_ROUND_UP`
abbrev pub div_round_up : ℕ → ℕ → ℕ
div_round_up x step = (x + step - 1) / step

-- The bytes of fresh pages.
pub zeros : ℕ → List ℕ
zeros zero = []
zeros (suc n) = 0 ∷ zeros n

-- One byte for eight pages between the start and the kernel.
abbrev pub user_bytes_len : ℕ
user_bytes_len = (0xc0000000 - user_vaddr_start) / pg_size / 8

-- The bitmap of `bytes_len` bytes in fresh pages; `bitmap_init` asserts that they are there.
pub fresh_bitmap : ℕ → ℕ → ℕ → Run Bitmap
fresh_bitmap bits pg_cnt bytes_len = do
  assert (not (bits == 0))
  init (record { btmp_bytes_len = bytes_len; bits = zeros (pg_cnt * 4096) })

pub create_user_vaddr_bitmap : Space → Run (Space × VirtualAddr)
create_user_vaddr_bitmap s = do
  let bitmap_pg_cnt = div_round_up user_bytes_len pg_size
  (s', bits) ← get_kernel_pages bitmap_pg_cnt s
  vaddr_bitmap ← fresh_bitmap bits bitmap_pg_cnt user_bytes_len
  ok (s', record { vaddr_bitmap = vaddr_bitmap; vaddr_start = user_vaddr_start })
