-- ===== src/Memory/Init/First.antt =====
-- `get_kernel_pages` on the memory that `mem_pool_init` leaves behind.
use oslearn.Base.{ℕ, ◌+◌, ◌*◌, ◌%◌, ◌^◌, ◌<◌, ◌≤◌, ◌≡◌, ap, ◌∙◌, List, length, get_or, ok, arith}
use oslearn.Machine.{Machine}
use oslearn.Bitmap.Bits.{used}
use oslearn.Memory.{Memory}
use oslearn.Memory.Layout.{divide, used_mem}
use oslearn.Memory.Alloc.{Space, get_kernel_pages}
use oslearn.Memory.Alloc.Free.{free_below, free_below_all}
use oslearn.Memory.Alloc.Kernel.{addresses, page_bits}
use oslearn.Memory.Alloc.Pages.{frames, frame_bits}
use oslearn.Memory.Alloc.Granted.{Spares, Granted, HasRun, frame_at}
use oslearn.Memory.Alloc.Room.{HasRoom}
use oslearn.Memory.Alloc.Zeroed.{get_kernel_pages-Granted}
use oslearn.Memory.Init.{mem_pool_init}
use oslearn.Memory.Init.Sound.{IsInitial, IsLoaded, mem_pool_init-IsInitial}

-- At the start any number of pages up to the size of the pool is a run.
pub initial-HasRun :
    {all_mem n : ℕ} {s : Space}
    → IsInitial all_mem s
    → n ≤ (divide all_mem).kbm_length * 8
    → HasRun s n
initial-HasRun {all_mem} {n} {s} i h = record {
  at = 0;
  fits = omega (arith, i.same_bits);
  free = λ j lt.
      ap (used (addresses s).vaddr_bitmap) (omega arith)
      ∙ i.free_page j (omega (arith, i.same_bits));
}

pub initial_free :
    {all_mem n : ℕ} {s : Space}
    → IsInitial all_mem s
    → n ≤ (divide all_mem).kbm_length * 8
    → n ≤ free_below (frames s).pool_bitmap (frame_bits s)
initial_free {all_mem} {n} {s} i h =
    omega (arith, i.bits, free_below_all (frames s).pool_bitmap (frame_bits s) i.free_frame)

pub initial-HasRoom :
    {all_mem n : ℕ} {s : Space}
    → IsInitial all_mem s
    → n ≤ (divide all_mem).kbm_length * 8
    → HasRoom s n
initial-HasRoom {all_mem} {n} {s} i h = record {
  free_pages = omega (
    arith,
    i.same_bits,
    free_below_all (addresses s).vaddr_bitmap (page_bits (addresses s)) i.free_page,
  );
  free_frames = initial_free i h;
}

-- After `mem_pool_init` on a memory as in `mem_pool_init-IsInitial`, `get_kernel_pages(n)` succeeds
-- for every `n` from 1 up to the number of frames in the kernel's bitmap and below 3840: it returns
-- pages that show `n` different frames of the pool, all their words 0, and the memory stays well
-- formed.
pub get_kernel_pages-mem_pool_init :
    (n : ℕ) (low : ℕ → ℕ) (all_mem : ℕ) (m : Memory) (machine : Machine)
    → used_mem ≤ all_mem
    → all_mem < 2 ^ 32
    → ((a : ℕ) → low a < 256)
    → low ((divide all_mem).vaddr_bits + (divide all_mem).kbm_length) % 2 ≡ 1
    → IsLoaded machine
    → 0 < n
    → n < 3840
    → n ≤ (divide all_mem).kbm_length * 8
    → (m' : Memory) × (mem_pool_init low all_mem m ≡ ok m')
      × ((s : Space) × (a : ℕ) × (fs : List ℕ) × (get_kernel_pages n
              (record { memory = m'; machine = machine })
            ≡ ok (s, a))
          × (length fs ≡ n)
          × Granted (record { memory = m'; machine = machine }) s a fs
          × ((j w : ℕ)
              → j < n
              → w < 1024
              → s.machine.words
                  (frame_at (record { memory = m'; machine = machine }) (get_or fs j 0) + w * 4)
                ≡ 0)
          × Spares (record { memory = m'; machine = machine }) s fs)
get_kernel_pages-mem_pool_init n low all_mem m machine h lt bytes guard l pos small few =
    let (m', r, i) = mem_pool_init-IsInitial low all_mem m machine h lt bytes guard l in
    (
      m',
      r,
      get_kernel_pages-Granted n (record { memory = m'; machine = machine }) i.space i.plain pos
          small (initial-HasRun i few) (initial_free i few),
    )
