-- ===== src/Memory/Init.antt =====
-- `mem_pool_init`: the pools as they are at the start. The bitmaps lie in the memory `low`, which is
-- given by its bytes; of each, the byte behind it belongs to the list, since a scan for more than
-- one bit looks at it.
pub mod Sound
pub mod First
pub mod Sample
mod Tests
use oslearn.Base.{ℕ, zero, suc, ◌+◌, ◌*◌, List, [], ◌∷◌, u32, Run, ok, ◌>>=◌}
use oslearn.Bitmap.{Bitmap, init}
use oslearn.Sync.{lock_init}
use oslearn.Memory.{Pool, VirtualAddr, Memory, pg_size}
use oslearn.Memory.Layout.{Division, divide}

pub bytes_at : (ℕ → ℕ) → ℕ → ℕ → List ℕ
bytes_at low a zero = []
bytes_at low a (suc n) = low a ∷ bytes_at low (a + 1) n

-- A bitmap of `len` bytes at `a`, cleared by `bitmap_init`.
pub clear_bitmap : (ℕ → ℕ) → ℕ → ℕ → Run Bitmap
clear_bitmap low a len = init (record { btmp_bytes_len = len; bits = bytes_at low a (len + 1) })

abbrev pub k_heap_start : ℕ
k_heap_start = 0xc0100000

abbrev pub pool_at : Bitmap → ℕ → ℕ → Pool
pool_at bm start pages = record {
  pool_bitmap = bm;
  phy_addr_start = start;
  pool_size = u32 (pages * pg_size);
  lock = lock_init;
}

pub mem_pool_init : (ℕ → ℕ) → ℕ → Memory → Run Memory
mem_pool_init low all_mem m = do
  let d = divide all_mem
  kernel_bitmap ← clear_bitmap low d.kernel_bits d.kbm_length
  user_bitmap ← clear_bitmap low d.user_bits d.ubm_length
  vaddr_bitmap ← clear_bitmap low d.vaddr_bits d.kbm_length
  ok (record m {
    kernel_pool = pool_at kernel_bitmap d.kp_start d.kernel_free_pages;
    user_pool = pool_at user_bitmap d.up_start d.user_free_pages;
    kernel_vaddr = record { vaddr_bitmap = vaddr_bitmap; vaddr_start = k_heap_start };
  })
