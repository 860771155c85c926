-- ===== src/Memory/Alloc/Tests.antt =====
-- `page_table_add`, `addr_v2p` and `malloc_page` on the sample memory.
use oslearn.Base.{ℕ, zero, suc, false, ◌+◌, ◌*◌, ◌<◌, ◌≡◌, refl, List, length, get_or, ok, arith}
use oslearn.Bitmap.Byte.{digit}
use oslearn.Bitmap.Bits.{used}
use oslearn.Machine.{walk}
use oslearn.Memory.{pf_kernel}
use oslearn.Memory.Paging.{addr_v2p}
use oslearn.Memory.Paging.SelfMap.{addr_v2p-walk}
use oslearn.Memory.Alloc.{Space, malloc_page, get_kernel_pages}
use oslearn.Memory.Alloc.Granted.{Spares, HasRun, Granted, frame_at}
use oslearn.Memory.Alloc.Zeroed.{get_kernel_pages-Granted}
use oslearn.Memory.Alloc.Kernel.{IsKernelSpace, Outcome, malloc_page-IsKernelSpace}
use oslearn.Memory.Alloc.Sample.{
  busy, loaded, loaded-IsDirectory, space, space-IsKernelSpace, space-HasPlainFrames, space_few,
}

malloc_page-IsKernelSpace_example :
    (s' : Space) × (a : ℕ) × (malloc_page pf_kernel 2 space ≡ ok (s', a))
    × IsKernelSpace s'
    × Outcome 2 space s' a
unfolding used digit
malloc_page-IsKernelSpace_example =
    malloc_page-IsKernelSpace 2 10 space space-IsKernelSpace (omega arith) (omega arith)
      (omega arith) refl space_few

-- The entry of the directory for itself makes 0xfffff000 lead to the directory.
addr_v2p-walk_example : addr_v2p 0xfffff008 loaded ≡ ok 0x100008
unfolding walk
addr_v2p-walk_example =
    addr_v2p-walk loaded 0xfffff008 0x100008 loaded-IsDirectory (omega arith) (omega arith) refl

-- Pages 12 and 13 are the first two free ones behind one another.
busy_run : (j : ℕ) → j < 2 → used busy (12 + j) ≡ false
unfolding used digit
busy_run zero lt = refl
busy_run (suc zero) lt = refl
busy_run (suc (suc j)) lt = absurd (omega arith)

space-HasRun : HasRun space 2
space-HasRun = record { at = 12; fits = omega arith; free = busy_run }

get_kernel_pages-Granted_example :
    (s' : Space) × (a : ℕ) × (fs : List ℕ) × (get_kernel_pages 2 space ≡ ok (s', a))
    × (length fs ≡ 2)
    × Granted space s' a fs
    × ((j w : ℕ) → j < 2 → w < 1024 → s'.machine.words (frame_at space (get_or fs j 0) + w * 4) ≡ 0)
    × Spares space s' fs
get_kernel_pages-Granted_example =
    get_kernel_pages-Granted 2 space space-IsKernelSpace space-HasPlainFrames (omega arith)
      (omega arith) space-HasRun space_few
