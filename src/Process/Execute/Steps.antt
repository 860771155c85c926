-- ===== src/Process/Execute/Steps.antt =====
-- The parts of `process_execute`.
use oslearn.Base.{
  ℕ, ◌+◌, ◌≡◌, ◌≢◌, refl, ap, false, ◌==◌, ==-refl, List, [], ◌∷◌, ◌++◌, has, if◌then◌else◌, ok,
}
use oslearn.Machine.{Machine}
use oslearn.Interrupt.Status.{intr_disable, intr_set_status-disable}
use oslearn.Thread.State.{Task, Kernel, set_task}
use oslearn.Sync.{returned}
use oslearn.Memory.{VirtualAddr}
use oslearn.Memory.Alloc.{Space, get_kernel_pages}
use oslearn.Memory.Alloc.Tables.{InKernel}
use oslearn.Console.{Console, console_put_str}
use oslearn.Spawn.{System, allocated, blank, erase, allocate_pid, first_frame, store_fields}
use oslearn.Spawn.Steps.{started_task, spawned, set_task_again, created_steps, enlist_steps}
use oslearn.Process.{create_page_dir, create_user_vaddr_bitmap}
use oslearn.Process.Execute.{
  Programs, executed, Texts, announce, close_execute, execute_announced, execute_with, enlist_off,
  process_execute, default_prip,
}

-- The task of a new process: a thread with a page directory of its own.
abbrev pub process_task : ℕ → ℕ → ℕ → Task
process_task a pid dir = record (started_task a pid default_prip) { pgdir = dir }

enlist_off_steps :
    (a : ℕ) (k : Kernel)
    → has a k.ready_list ≡ false
    → has a k.all_list ≡ false
    → enlist_off a k
      ≡ ok (record k { ready_list = k.ready_list ++ a ∷ []; all_list = k.all_list ++ a ∷ [] })
unfolding enlist_off
enlist_off_steps a k e h = simp (enlist_steps a (record k { intr = (intr_disable k.intr).1 }) e h) (
    ap
      (λ flag. ok (record k {
        ready_list = k.ready_list ++ a ∷ [];
        all_list = k.all_list ++ a ∷ [];
        intr = flag;
      }))
      (intr_set_status-disable k.intr).1)

-- The programs with the new process.
abbrev pub with_process : ℕ → ℕ → ℕ → Space → VirtualAddr → Console → System → Programs → Programs
with_process a pid dir space v c sys s = record {
  system = record sys { kernel = spawned a (process_task a pid dir) sys.kernel; space = space };
  console = c;
  userprog_vaddr = λ u. if a == u then v else s.userprog_vaddr u;
}

pub execute_with_steps :
    (kt start a filename pid dir : ℕ) (t : Texts) (s : Programs) (sys : System)
    (space₂ space₃ : Space) (v : VirtualAddr) (m : Machine) (c : Console)
    → InKernel a
    → a ≢ sys.main_thread
    → create_user_vaddr_bitmap sys.space ≡ ok (space₂, v)
    → store_fields (a + 3664) (first_frame kt start filename) space₂.machine ≡ ok m
    → create_page_dir (record space₂ { machine = m }) ≡ ok (space₃, dir)
    → has a sys.kernel.ready_list ≡ false
    → has a sys.kernel.all_list ≡ false
    → console_put_str t.closing s.console (spawned a (process_task a pid dir) sys.kernel)
      ≡ ok (returned c (spawned a (process_task a pid dir) sys.kernel))
    → execute_with kt start t a filename s (allocated pid sys)
      ≡ ok (executed a (with_process a pid dir space₃ v c sys s))
unfolding execute_with close_execute
execute_with_steps kt start a filename pid dir t s sys space₂ space₃ v m c k ne r w d ready all p =
    simp
      (
        r,
        created_steps kt a default_prip start filename pid (record sys { space = space₂ }) m k ne w,
        d,
        ==-refl a,
        set_task_again a (process_task a pid dir) (started_task a pid default_prip) sys.kernel,
        enlist_off_steps a (set_task a (process_task a pid dir) sys.kernel) ready all,
        p,
      )
      refl

pub process_execute_steps :
    (kt start a filename pid : ℕ) (t : Texts) (name : List ℕ) (s : Programs) (sys : System)
    (space : Space) (c : Console)
    → get_kernel_pages 1 s.system.space ≡ ok (space, a)
    → (a == 0) ≡ false
    → announce t name a s.console s.system.kernel ≡ ok (returned c s.system.kernel)
    → allocate_pid (record (s.system) { space = space; kernel = set_task a blank s.system.kernel })
      ≡ ok (allocated pid sys)
    → process_execute kt start t filename name s
      ≡ execute_with kt start t a filename
          (record s { system = record (s.system) { space = space }; console = c })
          (allocated pid sys)
unfolding process_execute execute_announced erase
process_execute_steps kt start a filename pid t name s sys space c g z p q = simp (g, p, z, q) refl
