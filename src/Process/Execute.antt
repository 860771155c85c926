-- ===== src/Process/Execute.antt =====
-- `process_execute` and `start_process` of userprog/process.c.
pub mod Steps
pub mod Entry
pub mod User
pub mod Grants
pub mod Sound
pub mod Printed
mod Tests
use oslearn.Base.{
  ℕ, ◌+◌, ◌-◌, ◌*◌, ◌^◌, bit_or, ◌<<<◌, List, [], ◌∷◌, u32, ◌==◌, if◌then◌else◌, Run, ok, ◌>>=◌,
}
use oslearn.Interrupt.Status.{IntrStatus, intr_disable, intr_set_status}
use oslearn.Thread.State.{Kernel, current, set_task}
use oslearn.Sync.{Outcome, returned, waiting}
use oslearn.Memory.{VirtualAddr, pf_user}
use oslearn.Memory.Alloc.{Space, get_kernel_pages}
use oslearn.Memory.Locked.{get_a_page}
use oslearn.Console.{Console, console_put_str, console_put_int, then_print}
use oslearn.Descriptor.{selector_u_code, selector_u_data}
use oslearn.Spawn.{
  System, Allocated, allocated, waits_pid, erase, allocate_pid, init_task, store_fields,
  thread_stack_size, thread_create, enlist,
}
use oslearn.Process.{create_page_dir, create_user_vaddr_bitmap}

-- The system, the console, and the addresses of each task's process.
pub record Programs : Type 0 where
  pub system : System
  pub console : Console
  pub userprog_vaddr : ℕ → VirtualAddr

-- The page of the new process, or the task waits for a lock on the way.
pub data Executed : Type 0 where
  executed : ℕ → Programs → Executed
  waits_execute : IntrStatus → Programs → Executed

abbrev pub default_prip : ℕ
default_prip = 31

-- The texts of `process_execute`, and what the screen shows of a number.
pub record Texts : Type 0 where
  pub opening : List ℕ
  pub newline : List ℕ
  pub closing : List ℕ
  pub print : ℕ → List ℕ

-- The four calls that announce the thread.
pub announce : Texts → List ℕ → ℕ → Console → Kernel → Run (Outcome Console)
announce t name thread c k = do
  o ← console_put_str t.opening c k
  o₁ ← then_print (console_put_str name) o
  o₂ ← then_print (console_put_int t.print thread) o₁
  then_print (console_put_str t.newline) o₂

-- The end of `process_execute`.
pub close_execute : ℕ → Programs → Outcome Console → Run Executed
close_execute thread s (waiting old_status c k) =
    ok (
      waits_execute old_status
        (record s { console = c; system = record (s.system) { kernel = k } }))
close_execute thread s (returned c k) =
    ok (executed thread (record s { console = c; system = record (s.system) { kernel = k } }))

-- The lists get the thread with interrupts off.
pub enlist_off : ℕ → Kernel → Run Kernel
enlist_off thread k = do
  let (old_status, off) = intr_disable k.intr
  k' ← enlist thread (record k { intr = off })
  ok (record k' { intr = (intr_set_status old_status k'.intr).1 })

-- From the pid on.
pub execute_with : ℕ → ℕ → Texts → ℕ → ℕ → Programs → Allocated → Run Executed
execute_with kernel_thread start_process t thread filename s (waits_pid old_status sys) =
    ok (waits_execute old_status (record s { system = sys }))
execute_with kernel_thread start_process t thread filename s (allocated pid sys) = do
  let k = set_task thread (init_task sys.main_thread thread pid default_prip) sys.kernel
  (space, vaddr) ← create_user_vaddr_bitmap sys.space
  sys' ←
      thread_create kernel_thread thread start_process filename
        (record sys { kernel = k; space = space })
  (space', page_dir) ← create_page_dir sys'.space
  let with_dir = record (sys'.kernel.tasks thread) { pgdir = page_dir }
  k' ← enlist_off thread (set_task thread with_dir sys'.kernel)
  let s' : Programs = record {
    system = record sys' { kernel = k'; space = space' };
    console = s.console;
    userprog_vaddr = λ u. if thread == u then vaddr else s.userprog_vaddr u;
  }
  o ← console_put_str t.closing s'.console s'.system.kernel
  close_execute thread s' o

-- Once the thread is announced.
pub execute_announced : ℕ → ℕ → Texts → ℕ → ℕ → Programs → Outcome Console → Run Executed
execute_announced kernel_thread start_process t thread filename s (waiting old_status c k) =
    ok (
      waits_execute old_status
        (record s { console = c; system = record (s.system) { kernel = k } }))
execute_announced kernel_thread start_process t thread filename s (returned c k) = do
  sys ← erase thread (record (s.system) { kernel = k })
  o ← allocate_pid sys
  execute_with kernel_thread start_process t thread filename (record s { console = c }) o

pub process_execute : ℕ → ℕ → Texts → ℕ → List ℕ → Programs → Run Executed
process_execute kernel_thread start_process t filename name s = do
  (space, thread) ← get_kernel_pages 1 s.system.space
  o ← announce t name thread s.console s.system.kernel
  execute_announced kernel_thread start_process t thread filename
      (record s { system = record (s.system) { space = space } }) o

-- `USER_STACK3_VADDR`, with the digits of the source
abbrev pub user_stack3_vaddr : ℕ
user_stack3_vaddr = 0xc000000 - 4096

-- EFLAGS_IOPL_0 | EFLAGS_MBS | EFLAGS_IF_1
abbrev pub user_eflags : ℕ
user_eflags = bit_or (bit_or (0 <<< 12) (1 <<< 1)) (1 <<< 9)

-- The fields of `intr_stack` up to the one that needs the page of the stack, in the order of the
-- assignments.
abbrev pub entry_fields : ℕ → List (ℕ × ℕ)
entry_fields function =
    (4, 0)
    ∷ (3, 0)
    ∷ (2, 0)
    ∷ (1, 0)
    ∷ (8, 0)
    ∷ (7, 0)
    ∷ (6, 0)
    ∷ (5, 0)
    ∷ (9, 0)
    ∷ (10, selector_u_data)
    ∷ (11, selector_u_data)
    ∷ (12, selector_u_data)
    ∷ (14, function)
    ∷ (15, selector_u_code)
    ∷ (16, user_eflags)
    ∷ []

-- The rest, with the page of the stack; NULL is 0 and is not tested.
pub enter_user : ℕ → Outcome (Space × ℕ) → Run (Outcome (Space × ℕ))
enter_user proc_stack (waiting old_status (s, page) k) = ok (waiting old_status (s, proc_stack) k)
enter_user proc_stack (returned (s, page) k) = do
  m ← store_fields proc_stack ((17, u32 (page + 4096)) ∷ (18, selector_u_data) ∷ []) s.machine
  ok (returned (record s { machine = m }, proc_stack) k)

-- `start_process` up to the jump to `intr_exit`, with the stack that it takes. `self_kstack` points
-- to words.
pub start_process : ℕ → Space → Kernel → Run (Outcome (Space × ℕ))
start_process filename s k = do
  let cur = current k
  let proc_stack = u32 (cur.self_kstack + 4 * thread_stack_size)
  let k' = set_task k.running (record cur { self_kstack = proc_stack }) k
  m ← store_fields proc_stack (entry_fields filename) s.machine
  o ← get_a_page pf_user user_stack3_vaddr (record s { machine = m }) k'
  enter_user proc_stack o
