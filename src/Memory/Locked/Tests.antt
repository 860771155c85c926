-- ===== src/Memory/Locked/Tests.antt =====
-- A page of the sample memory for task 1 of the sample kernel.
use oslearn.Base.{ℕ, ◌+◌, ◌*◌, ◌≡◌, refl, inl, false, ◌||◌, ◌==◌, ok, arith}
use oslearn.Bitmap.Byte.{digit}
use oslearn.Bitmap.Bits.{used}
use oslearn.Thread.Sample.{sample}
use oslearn.Sync.{lock_init, returned}
use oslearn.Sync.Acquire.{lock_init-IsLock}
use oslearn.Sync.Within.{IsWithin}
use oslearn.Memory.{pf_kernel, pg_size}
use oslearn.Memory.Addresses.{Marked}
use oslearn.Memory.Paging.Table.{Maps}
use oslearn.Memory.Alloc.{Space}
use oslearn.Memory.Alloc.Pages.{frames, frame_used}
use oslearn.Memory.Alloc.Kernel.{addresses, IsKernelSpace}
use oslearn.Memory.Alloc.Sample.{busy, loaded, space, space-IsKernelSpace}
use oslearn.Memory.Locked.{get_a_page}
use oslearn.Memory.Locked.One.{get_a_page-IsKernelSpace}

lock_init-IsWithin : IsWithin lock_init (sample 5)
lock_init-IsWithin =
    let (is, free) = lock_init-IsLock (sample 5) in
    let (one, count) = is.free free in
    record { count = count; near = inl (free, one, λ e. omega arith) }

get_a_page-IsKernelSpace_example :
    (s' : Space) × (j : ℕ) × (get_a_page pf_kernel 0xc010c000 space (sample 5)
      ≡ ok (returned (s', 0xc010c000) (sample 5)))
    × IsKernelSpace s'
    × Marked busy 12 1 (addresses s').vaddr_bitmap
    × Maps loaded s'.machine 0xc010c000 (0x200000 + j * pg_size)
    × (used busy j ≡ false)
    × ((t : ℕ) → frame_used s' t ≡ ((j == t) || used busy t))
    × ((frames s').lock.holder ≡ 1)
unfolding used digit
get_a_page-IsKernelSpace_example =
    get_a_page-IsKernelSpace 12 10 space (sample 5) space-IsKernelSpace lock_init-IsWithin refl
      (omega arith) (omega arith) refl (omega arith) refl
