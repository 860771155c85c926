-- ===== src/Memory/Layout.antt =====
-- `mem_pool_init`: how the memory is divided.
use oslearn.Base.{ℕ, ◌+◌, ◌-◌, ◌*◌, ◌/◌, ◌^◌, ◌<◌, ◌≤◌, ◌≡◌, refl, arith, u16, u32}
use oslearn.Memory.{pg_size}

-- The first 1 MB, and 1 MB of page tables.
abbrev pub used_mem : ℕ
used_mem = pg_size * 256 + 0x100000

abbrev pub mem_bitmap_base : ℕ
mem_bitmap_base = 0xc009a000

-- The numbers that `mem_pool_init` computes from the size of the memory; `all_free_pages`,
-- `kernel_free_pages` and `user_free_pages` have 16 bits.
pub record Division : Type 0 where
  pub kernel_free_pages : ℕ
  pub user_free_pages : ℕ
  pub kbm_length : ℕ
  pub ubm_length : ℕ
  pub kp_start : ℕ
  pub up_start : ℕ
  pub kernel_bits : ℕ
  pub user_bits : ℕ
  pub vaddr_bits : ℕ

unfoldable pub divide : ℕ → Division
divide all_mem =
    let free_mem = u32 (all_mem + 2 ^ 32 - used_mem) in
    let all_free_pages = u16 (free_mem / pg_size) in
    let kernel_free_pages = u16 (all_free_pages / 2) in
    let user_free_pages = u16 (all_free_pages + 65536 - kernel_free_pages) in
    let kbm_length = kernel_free_pages / 8 in
    let ubm_length = user_free_pages / 8 in
    record {
      kernel_free_pages = kernel_free_pages;
      user_free_pages = user_free_pages;
      kbm_length = kbm_length;
      ubm_length = ubm_length;
      kp_start = used_mem;
      up_start = u32 (used_mem + u32 (kernel_free_pages * pg_size));
      kernel_bits = mem_bitmap_base;
      user_bits = u32 (mem_bitmap_base + kbm_length);
      vaddr_bits = u32 (mem_bitmap_base + kbm_length + ubm_length);
    }

-- What a sound division of `all_mem` bytes is: the two pools lie behind the used memory, one behind
-- the other and inside the memory, each bitmap stands for no more frames than its pool has, and the
-- three bitmaps lie one behind the other, the last ending before the page at 0xc009e000 (the task
-- structure of the main thread).
pub record IsDivision (all_mem : ℕ) (d : Division) : Type 0 where
  pub first : used_mem ≤ d.kp_start
  pub adjacent : d.up_start ≡ d.kp_start + d.kernel_free_pages * pg_size
  pub inside : d.up_start + d.user_free_pages * pg_size ≤ all_mem
  pub kernel_bitmap : d.kbm_length * 8 ≤ d.kernel_free_pages
  pub user_bitmap : d.ubm_length * 8 ≤ d.user_free_pages
  pub user_bits_after : d.user_bits ≡ d.kernel_bits + d.kbm_length
  pub vaddr_bits_after : d.vaddr_bits ≡ d.user_bits + d.ubm_length
  pub below_main : d.vaddr_bits + d.kbm_length ≤ 0xc009e000

-- For every size of memory of at least 2 MB that 32 bits can count, the division is sound: the
-- pools lie one behind the other in the memory behind the used part, each bitmap stands for no more
-- frames than its pool has, and the three bitmaps lie one behind the other and end before the main
-- thread's task structure.
pub divide-IsDivision :
    (all_mem : ℕ) → used_mem ≤ all_mem → all_mem < 2 ^ 32 → IsDivision all_mem (divide all_mem)
unfolding divide
divide-IsDivision all_mem h l = record {
  first = omega arith;
  adjacent = omega arith;
  inside = omega arith;
  kernel_bitmap = omega arith;
  user_bitmap = omega arith;
  user_bits_after = omega arith;
  vaddr_bits_after = omega arith;
  below_main = omega arith;
}

pub divide_small :
    (all_mem : ℕ)
    → ((divide all_mem).kbm_length * 8 < 32768)
      × ((divide all_mem).ubm_length * 8 < 65536)
      × ((divide all_mem).kp_start ≡ used_mem)
unfolding divide
divide_small all_mem = (omega arith, omega arith, refl)

-- Up to 258 MB less one page every free page of the memory is in one of the two pools.
pub divide_all :
    (all_mem : ℕ)
    → used_mem ≤ all_mem
    → all_mem < used_mem + 65536 * pg_size
    → (divide all_mem).kernel_free_pages + (divide all_mem).user_free_pages
      ≡ (all_mem - used_mem) / pg_size
unfolding divide
divide_all all_mem h l = omega arith

-- With 258 MB of memory or more, at least 65536 of its free pages are in neither pool.
pub divide_loses :
    (all_mem : ℕ)
    → used_mem + 65536 * pg_size ≤ all_mem
    → all_mem < 2 ^ 32
    → (divide all_mem).kernel_free_pages + (divide all_mem).user_free_pages + 65536
      ≤ (all_mem - used_mem) / pg_size
unfolding divide
divide_loses all_mem h l = omega arith
