-- ===== src/Spawn/Tests.antt =====
-- A thread started in the sample memory by task 1 of the sample kernel.
use oslearn.Base.{ℕ, ◌≡◌, refl, inl, [], ok, arith}
use oslearn.Bitmap.Byte.{digit}
use oslearn.Bitmap.Bits.{used}
use oslearn.Thread.Sample.{sample, sample-IsKernel}
use oslearn.Memory.Alloc.Sample.{space, space-IsKernelSpace, space-HasPlainFrames, space_few}
use oslearn.Sync.{Lock}
use oslearn.Spawn.{System, started, thread_start}
use oslearn.Sync.Within.{IsWithin}
use oslearn.Spawn.Fresh.{HasFreshPages, IsSystem}
use oslearn.Spawn.Start.{IsStarted, thread_start-IsStarted}

abbrev free_lock : Lock
free_lock = record {
  holder = 0;
  semaphore = record { value = 1; waiters = [] };
  holder_repeat_nr = 0;
}

abbrev system : System
system = record {
  kernel = sample 5;
  space = space;
  main_thread = 1;
  pid_lock = free_lock;
  next_pid = 3;
}

system-HasFreshPages : HasFreshPages system
system-HasFreshPages = record {
  unlisted = λ i lt u. ground arith;
  not_ready = λ i lt u e. ground arith;
  not_running = λ i lt u e. omega arith;
  not_main = λ i lt u e. omega arith;
}

free_lock-IsWithin : IsWithin free_lock (sample 5)
free_lock-IsWithin = record { count = refl; near = inl (refl, refl, λ e. omega arith) }

system-IsSystem : IsSystem system
system-IsSystem = record {
  kernel = sample-IsKernel 5;
  space = space-IsKernelSpace;
  plain = space-HasPlainFrames;
  fresh = system-HasFreshPages;
  lock = free_lock-IsWithin;
}

thread_start-IsStarted_example :
    (s' : System) × (a : ℕ) × (f : ℕ) × (thread_start 0xc0001700 31 0xc0001600 0xc0007000 system
      ≡ ok (started a s'))
    × IsStarted system s' a f 0xc0001700 31 0xc0001600 0xc0007000
unfolding used digit
thread_start-IsStarted_example =
    thread_start-IsStarted 10 0xc0001700 31 0xc0001600 0xc0007000 system system-IsSystem
      (omega arith) refl (omega (arith, space_few))
