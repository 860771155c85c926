-- ===== src/Boot/Running.antt =====
-- `main` up to its last loop.
use oslearn.Base.{
  ℕ, ◌+◌, ◌*◌, ◌<◌, ◌≤◌, ◌≡◌, ◌≢◌, refl, ap, sym, ◌∙◌, [], ◌∷◌, ◌++◌, has, u16, ok, arith,
}
use oslearn.Interrupt.Status.{IntrStatus, intr_off, intr_on, intr_enable}
use oslearn.Memory.Layout.{divide}
use oslearn.Memory.Init.First.{initial-HasRun, initial-HasRoom, initial_free}
use oslearn.Memory.Alloc.{Space}
use oslearn.Memory.Alloc.Room.{HasRoom, Granted-HasRoom, room_page}
use oslearn.Memory.Alloc.Zeroed.{get_kernel_pages-Granted}
use oslearn.Spawn.{System, started, init_task, thread_start}
use oslearn.Spawn.Steps.{started_task}
use oslearn.Spawn.Fresh.{IsSystem, granted-IsSystem, IsSystem-intr}
use oslearn.Spawn.Start.{IsStarted, thread_start-IsStarted}
use oslearn.Boot.{
  Linked, Entry, Booted, complete, mem_bytes_total, main_second, main_first, main_threads, main,
}
use oslearn.Machine.{load}
use oslearn.Spawn.Later.{Given-Placed, Placed-load}
use oslearn.Boot.Devices.{IsDriven}
use oslearn.Boot.Ready.{IsLinked, IsEntry, IsBooted, init_all-IsBooted}

-- A thread is started where there is room, and then there is one page less.
pub thread_start-HasRoom :
    (n kt prio function arg : ℕ) (s : System)
    → IsSystem s
    → HasRoom s.space (1 + n)
    → (s' : System) × (a : ℕ) × (f : ℕ) × (thread_start kt prio function arg s ≡ ok (started a s'))
      × IsStarted s s' a f kt prio function arg
      × HasRoom s'.space n
thread_start-HasRoom n kt prio function arg s sys room =
    let (i, lt, free) = room_page n s.space room in
    let (s', a, f, r, st) =
      thread_start-IsStarted i kt prio function arg s sys lt free
        (omega (arith, room.free_frames)) in
    (s', a, f, r, st, Granted-HasRoom 1 st.given.granted refl room)

-- The kernel when `main` has come to its last loop: two threads are ready besides it, interrupts are
-- on, and the system is well formed.
pub record IsRunning (l : Linked) (e : Entry) (b : Booted) (a₁ a₂ : ℕ) : Type 1 where
  pub system : IsSystem b.system
  pub devices : IsDriven l b.handlers b.writes
  pub running : b.system.kernel.running ≡ e.system.kernel.running
  pub ready_list : b.system.kernel.ready_list ≡ a₁ ∷ a₂ ∷ []
  pub all_list : b.system.kernel.all_list ≡ e.system.kernel.running ∷ a₁ ∷ a₂ ∷ []
  pub intr : b.system.kernel.intr ≡ intr_on
  pub main_task :
      b.system.kernel.tasks e.system.kernel.running
      ≡ init_task e.system.kernel.running e.system.kernel.running (u16 (e.system.next_pid + 1)) 31
  pub first : b.system.kernel.tasks a₁ ≡ started_task a₁ (u16 (u16 (e.system.next_pid + 1) + 1)) 31
  pub second :
      b.system.kernel.tasks a₂
      ≡ started_task a₂ (u16 (u16 (u16 (e.system.next_pid + 1) + 1) + 1)) 30
  pub first_eip : load b.system.space.machine (a₁ + 3680) ≡ ok l.kernel_thread
  pub first_function : load b.system.space.machine (a₁ + 3688) ≡ ok l.k_thread_a
  pub first_arg : load b.system.space.machine (a₁ + 3692) ≡ ok l.arg_a
  pub second_eip : load b.system.space.machine (a₂ + 3680) ≡ ok l.kernel_thread
  pub second_function : load b.system.space.machine (a₂ + 3688) ≡ ok l.k_thread_b
  pub second_arg : load b.system.space.machine (a₂ + 3692) ≡ ok l.arg_b

intr_enable_on : (flag : IntrStatus) → (intr_enable flag).1 ≡ intr_on
unfolding intr_enable
intr_enable_on intr_off = refl
intr_enable_on intr_on = refl

-- Two threads have been started after `init_all`.
module _ (l : Linked) (e : Entry) (b : Booted) (space : Space) (s₁ s₂ : System) (a₁ a₂ f₁ f₂ : ℕ)
    (booted : IsBooted l e b)
    (st₁ : IsStarted
      (record (b.system) { space = space })
      s₁
      a₁
      f₁
      l.kernel_thread
      31
      l.k_thread_a
      l.arg_a)
    (st₂ : IsStarted s₁ s₂ a₂ f₂ l.kernel_thread 30 l.k_thread_b l.arg_b) where
  all : s₁.kernel.all_list ≡ e.system.kernel.running ∷ a₁ ∷ []
  all = st₁.all_list ∙ ap (λ q. q ++ a₁ ∷ []) booted.main.all_list

  other : a₁ ≢ a₂
  other q = ground (arith, sym (ap (has a₂) all) ∙ st₂.is_new)

  abbrev main_page : ℕ
  main_page = e.system.kernel.running

  not_first : main_page ≢ a₁
  not_first q = ground (arith, sym (ap (has a₁) booted.main.all_list) ∙ st₁.is_new)

  not_second : main_page ≢ a₂
  not_second q = ground (arith, sym (ap (has a₂) all) ∙ st₂.is_new)

  -- The start of the second thread leaves the page of the first as it is.
  first_word :
      (j : ℕ) → j < 1024 → load s₂.space.machine (a₁ + j * 4) ≡ load s₁.space.machine (a₁ + j * 4)
  first_word j lt = Placed-load st₁.system.space (Given-Placed st₁.given) st₂.given j st₂.spares lt

  abbrev looping : Booted
  looping = record b {
    system = record s₂ { kernel = record (s₂.kernel) { intr = (intr_enable s₂.kernel.intr).1 } };
  }

  looping-IsRunning : IsRunning l e looping a₁ a₂
  looping-IsRunning = record {
    system = IsSystem-intr s₂ (intr_enable s₂.kernel.intr).1 st₂.system;
    devices = booted.devices;
    running = st₂.running ∙ st₁.running ∙ booted.main.running;
    ready_list =
        st₂.ready_list
        ∙ ap (λ q. q ++ a₂ ∷ []) (st₁.ready_list ∙ ap (λ q. q ++ a₁ ∷ []) booted.main.ready_list);
    all_list = st₂.all_list ∙ ap (λ q. q ++ a₂ ∷ []) all;
    intr = intr_enable_on s₂.kernel.intr;
    main_task = st₂.tasks main_page not_second ∙ st₁.tasks main_page not_first ∙ booted.main.task;
    first =
        st₂.tasks a₁ other
        ∙ st₁.task
        ∙ ap (λ p. started_task a₁ (u16 (p + 1)) 31) booted.main.next_pid;
    second =
        st₂.task
        ∙ ap (λ p. started_task a₂ (u16 (p + 1)) 30)
            (st₁.next_pid ∙ ap (λ p. u16 (p + 1)) booted.main.next_pid);
    first_eip = first_word 920 (omega arith) ∙ st₁.eip;
    first_function = first_word 922 (omega arith) ∙ st₁.function;
    first_arg = first_word 923 (omega arith) ∙ st₁.func_arg;
    second_eip = st₂.eip;
    second_function = st₂.function;
    second_arg = st₂.func_arg;
  }

-- With 129 words from the table of entries on and a memory as `IsEntry` says with at least eight frames
-- for the kernel, `main` comes to its last loop, and no call on the way waits: the two threads are
-- ready in the order of their starts, with the pids behind the main thread's and their priorities, on
-- their stacks stand `kernel_thread`, k_thread_a and k_thread_b with their arguments, interrupts are
-- on, and the system is well formed.
pub main-IsRunning :
    (l : Linked) (e : Entry)
    → IsLinked l
    → IsEntry e
    → 1 ≤ (divide (mem_bytes_total e.low)).kbm_length
    → (b : Booted) × (a₁ : ℕ) × (a₂ : ℕ) × (main l e ≡ ok (complete b)) × IsRunning l e b a₁ a₂
unfolding main main_threads main_first main_second
main-IsRunning l e il ie few =
    let (b, r, booted) = init_all-IsBooted l e il ie in
    let init = booted.memory in
    let room : HasRoom b.system.space (3 + 2) = initial-HasRoom init (omega arith) in
    let (space, addr, fs, r₀, count, g, zeros, spares) =
      get_kernel_pages-Granted 3 b.system.space init.space init.plain (omega arith) (omega arith)
        (initial-HasRun init (omega arith)) (initial_free init (omega arith)) in
    let s₀ : System = record (b.system) { space = space } in
    let (s₁, a₁, f₁, r₁, st₁, room₁) =
      thread_start-HasRoom 1 l.kernel_thread 31 l.k_thread_a l.arg_a s₀
        (granted-IsSystem booted.system g) (Granted-HasRoom 3 g count room) in
    let (s₂, a₂, f₂, r₂, st₂, room₂) =
      thread_start-HasRoom 0 l.kernel_thread 30 l.k_thread_b l.arg_b s₁ st₁.system room₁ in
    (
      looping l e b space s₁ s₂ a₁ a₂ f₁ f₂ booted st₁ st₂,
      a₁,
      a₂,
      simp (r, r₀, r₁, r₂),
      looping-IsRunning l e b space s₁ s₂ a₁ a₂ f₁ f₂ booted st₁ st₂,
    )
