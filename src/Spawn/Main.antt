-- ===== src/Spawn/Main.antt =====
-- `thread_init`: the first thread.
use oslearn.Base.{
  ℕ, ◌+◌, ◌≡◌, ◌≢◌, refl, inl, ap, ◌∙◌, sym, ◌==◌, ==_of_ne, ==-refl, Bool-cases, inr, [], ◌∷◌, u16,
  ok, arith,
}
use mathlib.Core.Bool.{false≢true}
use oslearn.Thread.State.{task_running, task_ready, is_status, Kernel, set_task}
use oslearn.Thread.Invariant.{IsKernel}
use oslearn.Sync.{Lock, lock_init}
use oslearn.Sync.Acquire.{lock_init-IsLock}
use oslearn.Sync.Within.{IsWithin}
use oslearn.Spawn.{
  System, allocated, blank, erase, init_task, main_with, make_main_thread, thread_init,
}
use oslearn.Spawn.Pid.{allocate_pid_next}
use oslearn.Spawn.Steps.{set_task_again}

-- Before `thread_init` no page holds a task that could run.
pub record HasNoTasks (k : Kernel) : Type 0 where
  pub no_ready : (t : ℕ) → (k.tasks t).status ≢ task_ready
  pub no_running : (t : ℕ) → (k.tasks t).status ≢ task_running

-- What `thread_init` has done in the kernel `k`: the code that runs is the only thread, with the pid
-- and the full slice, and it can have the pid lock.
pub record HasMain (k : Kernel) (pid : ℕ) (s : System) : Type 0 where
  pub kernel : IsKernel s.kernel
  pub ready_list : s.kernel.ready_list ≡ []
  pub all_list : s.kernel.all_list ≡ k.running ∷ []
  pub running : s.kernel.running ≡ k.running
  pub main_thread : s.main_thread ≡ k.running
  pub task : s.kernel.tasks k.running ≡ init_task k.running k.running pid 31
  pub tasks : (t : ℕ) → t ≢ k.running → s.kernel.tasks t ≡ k.tasks t
  pub lock : IsWithin s.pid_lock s.kernel
  pub intr : s.kernel.intr ≡ k.intr
  pub next_pid : s.next_pid ≡ pid

-- The state that `thread_init` has when it asks for the pid, and the one it ends with.
abbrev asking : System → System
asking s = record s {
  kernel = set_task s.kernel.running blank (record (s.kernel) { ready_list = []; all_list = [] });
  main_thread = s.kernel.running;
  pid_lock = lock_init;
}

abbrev with_main : Lock → System → System
with_main l s = record s {
  kernel =
      record (set_task s.kernel.running
        (init_task s.kernel.running s.kernel.running (u16 (s.next_pid + 1)) 31) s.kernel) {
          ready_list = [];
          all_list = s.kernel.running ∷ [];
        };
  main_thread = s.kernel.running;
  pid_lock = l;
  next_pid = u16 (s.next_pid + 1);
}

ready≢running : task_ready ≢ task_running
ready≢running e = false≢true (ap (is_status task_running) e)

main_running : (a pid prio : ℕ) → (init_task a a pid prio).status ≡ task_running
unfolding init_task
main_running a pid prio = rw (==-refl a) refl

with_main-HasMain :
    (l : Lock) (s : System)
    → HasNoTasks s.kernel
    → IsWithin l s.kernel
    → HasMain s.kernel (u16 (s.next_pid + 1)) (with_main l s)
with_main-HasMain l s none w = record {
  kernel = record {
    queue = record {
      all_ready = λ t h. cc;
      all_listed = λ t h. absurd (not_ready t h);
      distinct = tt;
    };
    is_running =
        rw (==-refl s.kernel.running) (main_running s.kernel.running (u16 (s.next_pid + 1)) 31);
    only_running = λ t h. only t h;
  };
  ready_list = refl;
  all_list = refl;
  running = refl;
  main_thread = refl;
  task = rw (==-refl s.kernel.running) refl;
  tasks = λ t ne. rw (==_of_ne s.kernel.running t (λ e. ne (sym e))) refl;
  lock = record { count = w.count; near = w.near };
  intr = refl;
  next_pid = refl;
}
  where
    not_ready : (t : ℕ) → ((with_main l s).kernel.tasks t).status ≢ task_ready
    not_ready t e = elim (Bool-cases (s.kernel.running == t)) [
      | inl d ↦
          let r = main_running s.kernel.running (u16 (s.next_pid + 1)) 31 in
          ready≢running (sym (rw d at e) ∙ r)
      | inr d ↦ none.no_ready t (rw d at e)
    ]

    only : (t : ℕ) → ((with_main l s).kernel.tasks t).status ≡ task_running → t ≡ s.kernel.running
    only t e = elim (Bool-cases (s.kernel.running == t)) [
      | inl d ↦ ground (arith, d)
      | inr d ↦ absurd (none.no_running t (rw d at e))
    ]

-- Where no task could run before and the code does not run on page 0, `thread_init` makes the code
-- that runs the first and only thread; the memory is as before.
pub thread_init-HasMain :
    (s : System)
    → HasNoTasks s.kernel
    → s.kernel.running ≢ 0
    → (s' : System) × (thread_init s ≡ ok (allocated (u16 (s.next_pid + 1)) s'))
      × HasMain s.kernel (u16 (s.next_pid + 1)) s'
      × (s'.space ≡ s.space)
unfolding thread_init make_main_thread main_with erase
thread_init-HasMain s none ne =
    let (l, r, w, h) = allocate_pid_next (asking s) fresh in
    (
      with_main l s,
      simp (==_of_ne s.kernel.running 0 ne, r)
          (ap
            (λ (k : Kernel). ok (
              allocated (u16 (s.next_pid + 1)) (record s {
                kernel = record k { all_list = s.kernel.running ∷ [] };
                main_thread = s.kernel.running;
                pid_lock = l;
                next_pid = u16 (s.next_pid + 1);
              })))
            (set_task_again s.kernel.running
              (init_task s.kernel.running s.kernel.running (u16 (s.next_pid + 1)) 31) blank
              (record (s.kernel) { ready_list = []; all_list = [] }))),
      with_main-HasMain l s none (record { count = w.count; near = w.near }),
      refl,
    )
  where
    fresh : IsWithin lock_init (asking s).kernel
    fresh =
        let (lock, holder) = lock_init-IsLock s.kernel in
        let (one, nr) = lock.free holder in record { count = nr; near = inl (holder, one, ne) }
