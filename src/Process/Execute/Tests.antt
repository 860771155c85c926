-- ===== src/Process/Execute/Tests.antt =====
-- A process made by the first task, on a memory of 2 MB and 64 pages.
use oslearn.Base.{ℕ, ◌+◌, ◌*◌, ◌<◌, ◌≡◌, refl, List, [], ◌∷◌, length, get_or, false, ok, arith}
use oslearn.Bitmap.Bits.{used}
use oslearn.Thread.Sample.{sample}
use oslearn.Sync.{Lock}
use oslearn.Memory.{Memory, VirtualAddr, pg_size}
use oslearn.Memory.Addresses.{IsVirtual}
use oslearn.Memory.Layout.{divide}
use oslearn.Memory.Init.{mem_pool_init}
use oslearn.Memory.Init.Sound.{mem_pool_init-IsInitial}
use oslearn.Memory.Init.First.{initial-HasRun, initial_free}
use oslearn.Memory.Init.Sample.{loaded-IsLoaded}
use oslearn.Memory.Alloc.{Space}
use oslearn.Memory.Alloc.Granted.{Granted, frame_at}
use oslearn.Memory.Alloc.Sample.{loaded, space}
use oslearn.Process.{user_vaddr_start, create_user_vaddr_bitmap}
use oslearn.Process.Addresses.{create_user_vaddr_bitmap-IsVirtual}
use oslearn.Process.Execute.{Programs, Texts}

abbrev low : ℕ → ℕ
low a = 1

abbrev all_mem : ℕ
all_mem = 0x240000

abbrev started_space : Memory → Space
started_space m = record { memory = m; machine = loaded }

abbrev free_lock : Lock
free_lock = record {
  holder = 0;
  semaphore = record { value = 1; waiters = [] };
  holder_repeat_nr = 0;
}

abbrev texts : Texts
texts = record { opening = 67 ∷ []; newline = 10 ∷ []; closing = 101 ∷ []; print = λ n. 48 ∷ [] }

abbrev programs : Memory → Programs
programs m = record {
  system = record {
    kernel = sample 5;
    space = started_space m;
    main_thread = 1;
    pid_lock = free_lock;
    next_pid = 3;
  };
  console = record { lock = free_lock; screen = [] };
  userprog_vaddr = λ u. space.memory.userprog_vaddr;
}

create_user_vaddr_bitmap-IsVirtual_example :
    (m : Memory) × (mem_pool_init low all_mem space.memory ≡ ok m)
    × ((s' : Space) × (a : ℕ) × (fs : List ℕ) × (v : VirtualAddr) × (create_user_vaddr_bitmap
            (started_space m)
          ≡ ok (s', v))
        × (length fs ≡ 23)
        × Granted (started_space m) s' a fs
        × ((j w : ℕ)
            → j < 23
            → w < 1024
            → s'.machine.words (frame_at (started_space m) (get_or fs j 0) + w * 4) ≡ 0)
        × IsVirtual v
        × (v.vaddr_start ≡ user_vaddr_start)
        × (v.vaddr_start + v.vaddr_bitmap.btmp_bytes_len * 8 * pg_size ≡ 0xc0000000)
        × ((i : ℕ) → i < v.vaddr_bitmap.btmp_bytes_len * 8 → used v.vaddr_bitmap i ≡ false))
unfolding divide
create_user_vaddr_bitmap-IsVirtual_example =
    let (m, r, i) =
      mem_pool_init-IsInitial low all_mem space.memory loaded (omega arith) (omega arith)
        (λ a. omega arith) refl loaded-IsLoaded in
    (
      m,
      r,
      create_user_vaddr_bitmap-IsVirtual (started_space m) i.space i.plain
          (initial-HasRun i (omega arith)) (initial_free i (omega arith)),
    )
