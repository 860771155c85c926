-- ===== src/Memory/Alloc/Sample.antt =====
-- A kernel memory to try things on: a directory at 1 MB with the kernel's tables behind it, and pools
-- of 16 pages.
use oslearn.Base.{
  ◌+◌, ◌-◌, ◌*◌, ◌/◌, ◌≤◌, ◌&&◌, ◌==◌, leb, ltb, if◌then◌else◌, refl, [], ◌∷◌, arith,
}
use oslearn.Bitmap.{Bitmap}
use oslearn.Bitmap.Byte.{digit}
use oslearn.Bitmap.Bits.{IsValid, used}
use oslearn.Sync.{lock_init}
use oslearn.Machine.{Machine}
use oslearn.Memory.{Pool, VirtualAddr}
use oslearn.Memory.Frames.{IsPool}
use oslearn.Memory.Paging.SelfMap.{IsDirectory}
use oslearn.Memory.Alloc.{Space}
use oslearn.Memory.Alloc.Free.{free_below}
use oslearn.Memory.Alloc.Tables.{HasTables}
use oslearn.Memory.Alloc.Kernel.{IsKernelSpace}
use oslearn.Memory.Alloc.Pages.{frames, frame_bits}
use oslearn.Memory.Alloc.Granted.{HasPlainFrames}

abbrev pub loaded : Machine
loaded = record {
  words = λ a.
      if a == 0x100ffc
      then 0x100007
      else if leb 0x100c00 a && ltb a 0x100ffc
      then 0x101007 + (a - 0x100c00) / 4 * 4096
      else 0;
  cr3 = 0x100000;
}

pub loaded-IsDirectory : IsDirectory loaded
loaded-IsDirectory = record { aligned = refl; self_present = refl; self_frame = refl }

pub loaded-HasTables : HasTables loaded
loaded-HasTables = record {
  directory = loaded-IsDirectory;
  table = λ u k. ground arith;
  apart = λ u k e. ground arith;
  own = λ u w ku kw ne e. ground arith;
}

-- Bits 10, 12, 13 and 15 are free; the byte behind has its lowest bit set.
abbrev pub busy : Bitmap
busy = record { btmp_bytes_len = 2; bits = 0xff ∷ 0x4b ∷ 1 ∷ [] }

pub busy-IsValid : IsValid busy
busy-IsValid = record { bytes = λ i. ground arith; small = omega arith; readable = omega arith }

abbrev pub pool : Pool
pool = record {
  pool_bitmap = busy;
  phy_addr_start = 0x200000;
  pool_size = 0x10000;
  lock = lock_init;
}

pub pool-IsPool : IsPool pool
pool-IsPool = record { bitmap = busy-IsValid; frames = omega arith }

abbrev pub range : VirtualAddr
range = record { vaddr_bitmap = busy; vaddr_start = 0xc0100000 }

abbrev pub space : Space
space = record {
  memory = record {
    kernel_pool = pool;
    user_pool = pool;
    kernel_vaddr = range;
    userprog_vaddr = range;
  };
  machine = loaded;
}

pub space-IsKernelSpace : IsKernelSpace space
unfolding used digit
space-IsKernelSpace = record {
  ready = record {
    tables = loaded-HasTables;
    pool = pool-IsPool;
    aligned = refl;
    positive = omega arith;
  };
  range = record {
    virtual = record { bitmap = busy-IsValid; positive = omega arith; addresses = omega arith };
    aligned = refl;
    low = omega arith;
    top = omega arith;
    behind = refl;
    unmapped = λ i u lt free k e. ground arith;
  };
}

pub space-HasPlainFrames : HasPlainFrames space
space-HasPlainFrames = record {
  plain = λ i lt free. record {
    aligned = omega arith;
    directory = λ e. omega arith;
    tables = λ u k e. ground arith;
  };
}

pub space_few : 2 ≤ free_below (frames space).pool_bitmap (frame_bits space)
unfolding used digit free_below
space_few = omega arith
