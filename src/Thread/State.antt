-- ===== src/Thread/State.antt =====
-- The state that thread/thread.c keeps.
use oslearn.Base.{ℕ, Bool, true, false, List, ◌==◌, if◌then◌else◌}
use oslearn.Interrupt.Status.{IntrStatus}

pub data TaskStatus : Type 0 where
  task_running task_ready task_blocked task_waiting task_handging task_died : TaskStatus

abbrev pub is_status : TaskStatus → TaskStatus → Bool
is_status task_running task_running = true
is_status task_ready task_ready = true
is_status task_blocked task_blocked = true
is_status task_waiting task_waiting = true
is_status task_handging task_handging = true
is_status task_died task_died = true
is_status _ _ = false

-- The states in which a task sleeps: the condition of `thread_block` and `thread_unblock`.
abbrev pub may_wake : TaskStatus → Bool
may_wake task_blocked = true
may_wake task_waiting = true
may_wake task_handging = true
may_wake _ = false

-- `task_struct`, less the memory of a user process.
pub record Task : Type 0 where
  pub self_kstack : ℕ
  pub pid : ℕ
  pub status : TaskStatus
  pub priority : ℕ
  pub ticks : ℕ
  pub elapsed_ticks : ℕ
  pub pgdir : ℕ
  pub stack_magic : ℕ

pub record Kernel : Type 0 where
  pub tasks : ℕ → Task
  pub ready_list : List ℕ
  pub all_list : List ℕ
  pub running : ℕ
  pub intr : IntrStatus
  pub ticks : ℕ

abbrev pub current : Kernel → Task
current k = k.tasks k.running

abbrev pub set_task : ℕ → Task → Kernel → Kernel
set_task t v k = record k { tasks = λ u. if t == u then v else k.tasks u }
