-- ===== src/Spawn/Steps.antt =====
-- The parts of `thread_start`, and the invariant of the scheduler with the new thread.
use oslearn.Base.{
  ℕ, ◌+◌, ◌≡◌, ◌≢◌, refl, ap, ap₂, ◌∙◌, Bool, true, false, ◌==◌, ==_of_ne, ==-refl, Bool-cases, inl,
  inr, if◌then◌else◌, [], ◌∷◌, ◌++◌, has, has-append, Distinct-append, fun_ext, u8, u32, Run, ok,
  arith,
}
use oslearn.Machine.{Machine}
use oslearn.Thread.State.{TaskStatus, task_ready, Task, Kernel, set_task}
use oslearn.Thread.Invariant.{IsKernel}
use oslearn.Memory.Alloc.{Space, get_kernel_pages}
use oslearn.Memory.Alloc.Tables.{InKernel}
use oslearn.Spawn.{
  System, Started, started, blank, erase, allocate_pid, allocated, init_task, store_fields,
  first_frame, reserved_stack, thread_create, enlist, start_with, thread_start,
}

-- The kernel with the new task on its lists.
abbrev pub spawned : ℕ → Task → Kernel → Kernel
spawned a t k = record (set_task a t k) {
  ready_list = k.ready_list ++ a ∷ [];
  all_list = k.all_list ++ a ∷ [];
}

pub absent_of :
    (a : ℕ) (k : Kernel) → IsKernel k → (k.tasks a).status ≢ task_ready → has a k.ready_list ≡ false
absent_of a k v not_ready = elim (Bool-cases (has a k.ready_list)) [
  | inl e ↦ absurd (not_ready (v.queue.all_ready a e))
  | inr e ↦ e
]

-- A ready task added to the queue keeps the invariant.
pub spawned-IsKernel :
    (a : ℕ) (t : Task) (k : Kernel)
    → IsKernel k
    → t.status ≡ task_ready
    → (k.tasks a).status ≢ task_ready
    → a ≢ k.running
    → IsKernel (spawned a t k)
spawned-IsKernel a t k v ready not_ready ne =
    let absent = absent_of a k v not_ready in
    record {
      queue = record {
        all_ready = λ u h. ground (arith, has-append u k.ready_list (a ∷ []), v.queue.all_ready u);
        all_listed =
            λ u h. ground (arith, has-append u k.ready_list (a ∷ []), v.queue.all_listed u);
        distinct = Distinct-append k.ready_list a v.queue.distinct absent;
      };
      is_running = rw (==_of_ne a k.running ne) v.is_running;
      only_running = λ u h. ground (arith, v.only_running u);
    }

pub set_task_again :
    (a : ℕ) (t t' : Task) (k : Kernel) → set_task a t (set_task a t' k) ≡ set_task a t k
set_task_again a t t' k =
    ap (λ (f : ℕ → Task). record k { tasks = f }) (fun_ext (λ u. again u (a == u)))
  where
    again :
        (u : ℕ) (b : Bool)
        → (if b then t else if b then t' else k.tasks u) ≡ (if b then t else k.tasks u)
    again u true = refl
    again u false = refl

thread_create_steps :
    (a kt function arg : ℕ) (s : System) (t : Task) (m : Machine)
    → s.kernel.tasks a ≡ t
    → store_fields (reserved_stack t.self_kstack) (first_frame kt function arg) s.space.machine
      ≡ ok m
    → thread_create kt a function arg s
      ≡ ok (record s {
        kernel = set_task a (record t { self_kstack = reserved_stack t.self_kstack }) s.kernel;
        space = record s.space { machine = m };
      })
unfolding thread_create
thread_create_steps a kt function arg s t m e r = simp (e, r)

pub enlist_steps :
    (a : ℕ) (k : Kernel)
    → has a k.ready_list ≡ false
    → has a k.all_list ≡ false
    → enlist a k
      ≡ ok (record k { ready_list = k.ready_list ++ a ∷ []; all_list = k.all_list ++ a ∷ [] })
unfolding enlist
enlist_steps a k e h = simp (e, h)

-- The task that `thread_start` makes.
abbrev pub started_task : ℕ → ℕ → ℕ → Task
started_task a pid prio = record {
  self_kstack = a + 3664;
  pid = pid;
  status = task_ready;
  priority = u8 prio;
  ticks = u8 prio;
  elapsed_ticks = 0;
  pgdir = 0;
  stack_magic = 0x19851122;
}

stack_place : (a : ℕ) → InKernel a → reserved_stack (u32 (a + 4096)) ≡ a + 3664
stack_place a k = omega arith

init_task_started :
    (main a pid prio : ℕ)
    → InKernel a
    → a ≢ main
    → record (init_task main a pid prio) {
      self_kstack = reserved_stack (init_task main a pid prio).self_kstack;
    }
      ≡ started_task a pid prio
unfolding init_task
init_task_started main a pid prio k ne =
    ap₂
      (λ stack (status : TaskStatus). record (started_task a pid prio) {
        self_kstack = stack;
        status = status;
      })
      (stack_place a k) (rw (==_of_ne a main ne) refl)

stack_place_of :
    (main a pid prio : ℕ)
    → InKernel a
    → reserved_stack (init_task main a pid prio).self_kstack ≡ a + 3664
unfolding init_task
stack_place_of main a pid prio k = stack_place a k

-- `thread_create` of a task that `init_thread` has set up.
pub created_steps :
    (kt a prio function arg pid : ℕ) (s : System) (m : Machine)
    → InKernel a
    → a ≢ s.main_thread
    → store_fields (a + 3664) (first_frame kt function arg) s.space.machine ≡ ok m
    → thread_create kt a function arg
        (record s { kernel = set_task a (init_task s.main_thread a pid prio) s.kernel })
      ≡ ok (record s {
        kernel = set_task a (started_task a pid prio) s.kernel;
        space = record s.space { machine = m };
      })
created_steps kt a prio function arg pid s m k ne r =
    let t = init_task s.main_thread a pid prio in
    let k₁ = set_task a t s.kernel in
    thread_create_steps a kt function arg (record s { kernel = k₁ }) t m (rw (==-refl a) refl)
      (ap (λ p. store_fields p (first_frame kt function arg) s.space.machine)
          (stack_place_of s.main_thread a pid prio k)
        ∙ r)
    ∙ ap (λ (c : Kernel). ok (record s { kernel = c; space = record s.space { machine = m } }))
        (set_task_again a (record t { self_kstack = reserved_stack t.self_kstack }) t s.kernel
          ∙ ap (λ u. set_task a u s.kernel) (init_task_started s.main_thread a pid prio k ne))

pub start_with_steps :
    (kt a prio function arg pid : ℕ) (s : System) (m : Machine)
    → InKernel a
    → a ≢ s.main_thread
    → store_fields (a + 3664) (first_frame kt function arg) s.space.machine ≡ ok m
    → has a s.kernel.ready_list ≡ false
    → has a s.kernel.all_list ≡ false
    → start_with kt a prio function arg (allocated pid s)
      ≡ ok (
          started a (record s {
            kernel = spawned a (started_task a pid prio) s.kernel;
            space = record s.space { machine = m };
          }))
unfolding start_with
start_with_steps kt a prio function arg pid s m k ne r ready all =
    simp
      (
        created_steps kt a prio function arg pid s m k ne r,
        enlist_steps a (set_task a (started_task a pid prio) s.kernel) ready all,
      )
      refl

pub thread_start_steps :
    (kt a prio function arg pid : ℕ) (s s₁ : System) (space : Space) (r : Run Started)
    → get_kernel_pages 1 s.space ≡ ok (space, a)
    → (a == 0) ≡ false
    → allocate_pid (record s { space = space; kernel = set_task a blank s.kernel })
      ≡ ok (allocated pid s₁)
    → start_with kt a prio function arg (allocated pid s₁) ≡ r
    → thread_start kt prio function arg s ≡ r
unfolding thread_start erase
thread_start_steps kt a prio function arg pid s s₁ space r g z p e = simp (g, z, p, e)
