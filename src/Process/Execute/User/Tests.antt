-- ===== src/Process/Execute/User/Tests.antt =====
-- Task 1 of the sample kernel enters its program; its page is the frame 0x20b000 at 0xc0101000.
use oslearn.Base.{
  ℕ, ◌+◌, ◌*◌, ◌-◌, ◌/◌, ◌≡◌, refl, inl, ◌==◌, if◌then◌else◌, leb, ltb, ◌&&◌, ok, arith,
}
use oslearn.Bitmap.Byte.{digit}
use oslearn.Bitmap.Bits.{used}
use oslearn.Machine.{Machine, walk}
use oslearn.Thread.State.{Kernel, set_task, task_running}
use oslearn.Thread.Sample.{task, sample}
use oslearn.Sync.{lock_init, returned}
use oslearn.Sync.Acquire.{lock_init-IsLock}
use oslearn.Sync.Within.{IsWithin}
use oslearn.Memory.Paging.SelfMap.{IsDirectory}
use oslearn.Memory.Alloc.{Space}
use oslearn.Memory.Alloc.Tables.{HasTables}
use oslearn.Memory.Alloc.Granted.{HasPlainFrames}
use oslearn.Memory.Alloc.Sample.{busy, busy-IsValid, pool, pool-IsPool, space}
use oslearn.Memory.Locked.User.{HasProcess, HasUserPage}
use oslearn.Process.Execute.{start_process, user_stack3_vaddr}
use oslearn.Process.Execute.User.{CanEnter, IsEntered, entered, popped, start_process-IsEntered}

abbrev machine : Machine
machine = record {
  words = λ a.
      if a == 0x100ffc
      then 0x100007
      else if a == 0x101404
      then 0x20b007
      else if leb 0x100c00 a && ltb a 0x100ffc
      then 0x101007 + (a - 0x100c00) / 4 * 4096
      else 0;
  cr3 = 0x100000;
}

machine-IsDirectory : IsDirectory machine
machine-IsDirectory = record { aligned = refl; self_present = refl; self_frame = refl }

machine-HasTables : HasTables machine
machine-HasTables = record {
  directory = machine-IsDirectory;
  table = λ u k. ground arith;
  apart = λ u k e. ground arith;
  own = λ u w ku kw ne e. ground arith;
}

-- The page of the stack is the last of the process's addresses.
abbrev user_space : Space
user_space = record {
  memory = record (space.memory) {
    user_pool = record pool { phy_addr_start = 0x300000 };
    userprog_vaddr = record { vaddr_bitmap = busy; vaddr_start = 0xbff0000 };
  };
  machine = machine;
}

user_space-HasPlainFrames : HasPlainFrames user_space
user_space-HasPlainFrames = record {
  plain = λ i lt free. record {
    aligned = omega arith;
    directory = λ e. omega arith;
    tables = λ u k e. ground arith;
  };
}

-- Task 1 with a directory of its own, at the start of `start_process`.
abbrev process : Kernel
process =
    set_task 1 (record (task task_running 5) { pgdir = 0xc0102000; self_kstack = 0xc0101e50 })
      (sample 5)

process-IsWithin : IsWithin lock_init process
process-IsWithin =
    let (is, free) = lock_init-IsLock process in
    let (one, count) = is.free free in
    record { count = count; near = inl (free, one, λ e. omega arith) }

user_space-HasProcess : HasProcess user_space 15
unfolding used digit
user_space-HasProcess = record {
  directory = machine-IsDirectory;
  virtual = record { bitmap = busy-IsValid; positive = omega arith; addresses = omega arith };
  aligned = refl;
  ends = omega arith;
  not_first = omega arith;
  inside = omega arith;
  no_table = refl;
  user = record { bitmap = busy-IsValid; frames = omega arith };
  user_aligned = refl;
  user_positive = omega arith;
  user_free = 10;
  user_inside = omega arith;
  user_unused = refl;
  kernel = pool-IsPool;
  kernel_aligned = refl;
  kernel_free = 10;
  kernel_inside = omega arith;
  kernel_unused = refl;
  apart = λ j u e. omega arith;
}

process-CanEnter : CanEnter user_space process 0xc0101000 0x20b000 15
unfolding used digit walk
process-CanEnter = record {
  shows = record {
    tables = machine-HasTables;
    plain = record { aligned = refl; directory = λ e. omega arith; tables = λ u k e. ground arith };
    kernel = omega arith;
    page = refl;
    shown = refl;
  };
  plain = user_space-HasPlainFrames;
  own = λ j free e. ground (arith, e);
  stack = refl;
  process = λ e. omega arith;
  lock = process-IsWithin;
  memory = user_space-HasProcess;
  place = refl;
}

start_process-IsEntered_example :
    (s₂ : Space) × (frame : ℕ) × (table : ℕ) × (m : Machine) × (start_process 0xc0001a00 user_space
        process
      ≡ ok (returned (record s₂ { machine = m }, 0xc0101ed0) (popped 0xc0101ed0 process)))
    × HasUserPage
        (record user_space { machine = entered 0x20b000 0xc0001a00 machine })
        s₂
        user_stack3_vaddr
        15
        frame
        table
    × IsEntered m 0xc0101000 0xc0001a00
    × (s₂.memory.user_pool.lock.holder ≡ 1)
start_process-IsEntered_example =
    start_process-IsEntered 0xc0101000 0x20b000 15 0xc0001a00 user_space process process-CanEnter
