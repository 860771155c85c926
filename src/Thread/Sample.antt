-- ===== src/Thread/Sample.antt =====
-- A small kernel state for tests: task 1 runs, task 2 is ready, and all others are blocked.
use oslearn.Base.{ℕ, ◌==◌, if◌then◌else◌, [], ◌∷◌, arith, refl}
use oslearn.Interrupt.Status.{intr_off}
use oslearn.Thread.State.{TaskStatus, task_running, task_ready, task_blocked, Task, Kernel}
use oslearn.Thread.Invariant.{IsKernel}

abbrev pub task : TaskStatus → ℕ → Task
task s ticks = record {
  self_kstack = 0;
  pid = 0;
  status = s;
  priority = 31;
  ticks = ticks;
  elapsed_ticks = 5;
  pgdir = 0;
  stack_magic = 0x19851122;
}

-- Task 1 has the given number of ticks left.
abbrev pub sample : ℕ → Kernel
sample ticks = record {
  tasks = λ t.
      if t == 1
      then task task_running ticks
      else if t == 2
      then task task_ready 8
      else task task_blocked 7;
  ready_list = 2 ∷ [];
  all_list = 1 ∷ 2 ∷ 3 ∷ [];
  running = 1;
  intr = intr_off;
  ticks = 0;
}

pub sample-IsKernel : (ticks : ℕ) → IsKernel (sample ticks)
sample-IsKernel ticks = record {
  queue = record {
    all_ready = λ t h. ground arith;
    all_listed = λ t h. ground arith;
    distinct = (refl, tt);
  };
  is_running = refl;
  only_running = λ t h. ground arith;
}
