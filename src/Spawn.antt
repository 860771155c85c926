-- ===== src/Spawn.antt =====
-- thread/thread.c: how a thread is made. The `task_struct` stands in Thread's table of tasks under the
-- address of its page, without the name; the frame for the first switch is written to the page.
pub mod Pid
pub mod Frame
pub mod Steps
pub mod Fresh
pub mod Start
pub mod Later
pub mod Main
mod Tests
use oslearn.Base.{
  ℕ, ◌+◌, ◌-◌, ◌*◌, ◌^◌, Bool, true, false, not, List, [], ◌∷◌, ◌++◌, has, ◌==◌, if◌then◌else◌, u8,
  u16, u32, Run, ok, ◌>>=◌, ◌>>◌, assert,
}
use oslearn.Interrupt.Status.{IntrStatus}
use oslearn.Machine.{Machine, store}
use oslearn.Thread.State.{TaskStatus, task_running, task_ready, Task, Kernel, set_task}
use oslearn.Sync.{Lock, Outcome, returned, waiting, lock_init, lock_acquire, lock_release}
use oslearn.Memory.Alloc.{Space, get_kernel_pages}

pub record System : Type 0 where
  pub kernel : Kernel
  pub space : Space
  pub main_thread : ℕ
  pub pid_lock : Lock
  pub next_pid : ℕ

-- A call that needs a pid gets it or waits for the lock.
pub data Allocated : Type 0 where
  allocated : ℕ → System → Allocated
  waits_pid : IntrStatus → System → Allocated

-- `pid_t` has 16 bits.
pub with_pid_lock : System → Outcome Lock → Run Allocated
with_pid_lock s (waiting old_status l k) =
    ok (waits_pid old_status (record s { pid_lock = l; kernel = k }))
with_pid_lock s (returned l k) = do
  let pid = u16 (s.next_pid + 1)
  (l', k') ← lock_release l k
  ok (allocated pid (record s { pid_lock = l'; kernel = k'; next_pid = pid }))

pub allocate_pid : System → Run Allocated
allocate_pid s = do o ← lock_acquire s.pid_lock s.kernel; with_pid_lock s o

-- `memset(pthread, 0, sizeof(*pthread))`, which asserts that the address is not NULL
abbrev pub blank : Task
blank = record {
  self_kstack = 0;
  pid = 0;
  status = task_running;
  priority = 0;
  ticks = 0;
  elapsed_ticks = 0;
  pgdir = 0;
  stack_magic = 0;
}

unfoldable pub erase : ℕ → System → Run System
erase pthread s = do
  assert (not (pthread == 0))
  ok (record s { kernel = set_task pthread blank s.kernel })

-- The rest of `init_thread`, once the pid is there.
unfoldable pub init_task : ℕ → ℕ → ℕ → ℕ → Task
init_task main_thread pthread pid prio = record {
  self_kstack = u32 (pthread + 4096);
  pid = pid;
  status = if pthread == main_thread then task_running else task_ready;
  priority = u8 prio;
  ticks = u8 prio;
  elapsed_ticks = 0;
  pgdir = 0;
  stack_magic = 0x19851122;
}

-- Words of a structure at `p`, by their index.
unfoldable pub store_fields : ℕ → List (ℕ × ℕ) → Machine → Run Machine
store_fields p [] m = ok m
store_fields p ((i, x) ∷ rest) m = do m' ← store m (p + i * 4) x; store_fields p rest m'

abbrev pub intr_stack_size : ℕ
intr_stack_size = 19 * 4

abbrev pub thread_stack_size : ℕ
thread_stack_size = 8 * 4

-- `self_kstack` points to words, so that it moves by four times the sizes.
abbrev pub reserved_stack : ℕ → ℕ
reserved_stack top = u32 (u32 (top + 2 ^ 32 - 4 * intr_stack_size) + 2 ^ 32 - 4 * thread_stack_size)

-- The fields of `thread_stack` in the order of the assignments.
abbrev pub first_frame : ℕ → ℕ → ℕ → List (ℕ × ℕ)
first_frame kernel_thread function func_arg =
    (4, kernel_thread) ∷ (6, function) ∷ (7, func_arg) ∷ (2, 0) ∷ (3, 0) ∷ (1, 0) ∷ (0, 0) ∷ []

pub thread_create : ℕ → ℕ → ℕ → ℕ → System → Run System
thread_create kernel_thread pthread function func_arg s = do
  let t = s.kernel.tasks pthread
  let self_kstack = reserved_stack t.self_kstack
  machine ← store_fields self_kstack (first_frame kernel_thread function func_arg) s.space.machine
  ok (record s {
    kernel = set_task pthread (record t { self_kstack = self_kstack }) s.kernel;
    space = record s.space { machine = machine };
  })

-- Both lists get the thread at their end.
pub enlist : ℕ → Kernel → Run Kernel
enlist thread k = do
  assert (not (has thread k.ready_list))
  assert (not (has thread k.all_list))
  ok (record k { ready_list = k.ready_list ++ thread ∷ []; all_list = k.all_list ++ thread ∷ [] })

pub data Started : Type 0 where
  started : ℕ → System → Started
  waits_start : IntrStatus → ℕ → System → Started

-- `thread_start` from the pid on.
pub start_with : ℕ → ℕ → ℕ → ℕ → ℕ → Allocated → Run Started
start_with kernel_thread thread prio function func_arg (waits_pid old_status s) =
    ok (waits_start old_status thread s)
start_with kernel_thread thread prio function func_arg (allocated pid s) = do
  let s₁ = record s { kernel = set_task thread (init_task s.main_thread thread pid prio) s.kernel }
  s₂ ← thread_create kernel_thread thread function func_arg s₁
  k ← enlist thread s₂.kernel
  ok (started thread (record s₂ { kernel = k }))

pub thread_start : ℕ → ℕ → ℕ → ℕ → System → Run Started
thread_start kernel_thread prio function func_arg s = do
  (space, thread) ← get_kernel_pages 1 s.space
  s₁ ← erase thread (record s { space = space })
  o ← allocate_pid s₁
  start_with kernel_thread thread prio function func_arg o

pub main_with : ℕ → Allocated → Run Allocated
main_with main (waits_pid old_status s) = ok (waits_pid old_status s)
main_with main (allocated pid s) = do
  let k = set_task main (init_task s.main_thread main pid 31) s.kernel
  assert (not (has main k.all_list))
  ok (allocated pid (record s { kernel = record k { all_list = k.all_list ++ main ∷ [] } }))

-- The main thread runs already, on the page of its stack.
pub make_main_thread : System → Run Allocated
make_main_thread s = do
  let main = s.kernel.running
  s₁ ← erase main (record s { main_thread = main })
  o ← allocate_pid s₁
  main_with main o

-- The `main` function becomes the first thread.
pub thread_init : System → Run Allocated
thread_init s = make_main_thread (record s {
  kernel = record (s.kernel) { ready_list = []; all_list = [] };
  pid_lock = lock_init;
})
