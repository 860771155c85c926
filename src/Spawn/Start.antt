-- ===== src/Spawn/Start.antt =====
-- `thread_start` as a whole.
use oslearn.Base.{
  ℕ, ◌+◌, ◌*◌, ◌<◌, ◌≤◌, ◌≡◌, ◌≢◌, refl, ap, sym, ◌∙◌, false, ==_of_ne, ==-refl, [], ◌∷◌, ◌++◌, has,
  u16, ok, arith,
}
use oslearn.Bitmap.Bits.{used}
use oslearn.Machine.{Machine, frame_of, load}
use oslearn.Machine.Walk.{load_at}
use oslearn.Thread.State.{Kernel, set_task}
use oslearn.Memory.Alloc.{Space}
use oslearn.Memory.Alloc.Free.{free_below}
use oslearn.Memory.Alloc.Pages.{frames, frame_bits}
use oslearn.Memory.Alloc.Kernel.{addresses, page_bits}
use oslearn.Memory.Alloc.Page.{Keeps, Shows, Keeps-Shows, word_walk}
use oslearn.Memory.Alloc.Given.{Given, SparesBut, Keeps-Given, get_kernel_pages-Given}
use oslearn.Sync.{Lock}
use oslearn.Spawn.{System, started, blank, first_frame, thread_start}
use oslearn.Sync.Within.{IsWithin}
use oslearn.Spawn.Fresh.{IsNobody, Given-IsNobody, IsSystem, spawned-HasFreshPages}
use oslearn.Spawn.Pid.{allocate_pid_next}
use oslearn.Spawn.Frame.{Fit, put_fields, store_fields-Shows}
use oslearn.Spawn.Steps.{
  spawned, absent_of, spawned-IsKernel, set_task_again, started_task, start_with_steps,
  thread_start_steps,
}

-- What `thread_start` has done: the page `a` holds a new ready task, which stands at the end of both
-- lists, and the frame from which the first switch to it starts `kernel_thread`.
pub record IsStarted (s s' : System) (a f kt prio code value : ℕ) : Type 0 where
  pub given : Given s.space s'.space a f
  pub system : IsSystem s'
  pub is_new : has a s.kernel.all_list ≡ false
  pub main_thread : s'.main_thread ≡ s.main_thread
  pub running : s'.kernel.running ≡ s.kernel.running
  pub next_pid : s'.next_pid ≡ u16 (s.next_pid + 1)
  pub task : s'.kernel.tasks a ≡ started_task a (u16 (s.next_pid + 1)) prio
  pub tasks : (t : ℕ) → t ≢ a → s'.kernel.tasks t ≡ s.kernel.tasks t
  pub ready_list : s'.kernel.ready_list ≡ s.kernel.ready_list ++ a ∷ []
  pub all_list : s'.kernel.all_list ≡ s.kernel.all_list ++ a ∷ []
  pub pid_lock : s'.pid_lock.holder ≡ s.kernel.running
  pub eip : load s'.space.machine (a + 3680) ≡ ok kt
  pub function : load s'.space.machine (a + 3688) ≡ ok code
  pub func_arg : load s'.space.machine (a + 3692) ≡ ok value
  pub spares : SparesBut s.space s'.space f

pub frame_load :
    {m : Machine} {a f : ℕ} (j x : ℕ)
    → Shows m a f
    → j < 1024
    → m.words (f + j * 4) ≡ x
    → load m (a + j * 4) ≡ ok x
frame_load {m} {a} {f} j x s lt e = load_at m (a + j * 4) (f + j * 4) (word_walk j s lt) ∙ ap ok e

-- The machine with the frame of the thread in its page.
abbrev framed : ℕ → ℕ → ℕ → ℕ → Machine → Machine
framed f kt function arg m = put_fields (f + 3664) (first_frame kt function arg) m

-- The system after `thread_start`.
abbrev after_start : ℕ → ℕ → ℕ → ℕ → ℕ → ℕ → Lock → Space → System → System
after_start a f kt prio function arg l space s = record s {
  kernel = spawned a (started_task a (u16 (s.next_pid + 1)) prio) s.kernel;
  space = record space { machine = framed f kt function arg space.machine };
  pid_lock = l;
  next_pid = u16 (s.next_pid + 1);
}

framed_else :
    (a f kt function arg b : ℕ) (m : Machine)
    → Shows m a f
    → frame_of b ≢ f
    → (framed f kt function arg m).words b ≡ m.words b
framed_else a f kt function arg b m shows ne = ground (arith, shows.plain.aligned)

after_start-IsStarted :
    (a f kt prio function arg : ℕ) (l : Lock) (space : Space) (s : System)
    → IsSystem s
    → IsNobody s a
    → IsWithin l s.kernel
    → l.holder ≡ s.kernel.running
    → Given s.space space a f
    → SparesBut s.space space f
    → Keeps space.machine (framed f kt function arg space.machine)
    → IsStarted s (after_start a f kt prio function arg l space s) a f kt prio function arg
after_start-IsStarted a f kt prio function arg l space s sys nobody within holder g spares d =
    let shows = Keeps-Shows g.shows d in
    let given = Keeps-Given g d in
    record {
      given = given;
      system = record {
        kernel =
            spawned-IsKernel a (started_task a (u16 (s.next_pid + 1)) prio) s.kernel sys.kernel refl
              nobody.not_ready nobody.not_running;
        space = given.granted.space;
        plain = given.granted.plain;
        fresh =
            spawned-HasFreshPages s (after_start a f kt prio function arg l space s) a f sys.fresh
              given refl refl refl (λ t ne. rw (==_of_ne a t (λ e. ne (sym e))) refl);
        lock = record { count = within.count; near = within.near };
      };
      is_new = nobody.unlisted;
      main_thread = refl;
      running = refl;
      next_pid = refl;
      task = rw (==-refl a) refl;
      tasks = λ t ne. rw (==_of_ne a t (λ e. ne (sym e))) refl;
      ready_list = refl;
      all_list = refl;
      pid_lock = holder;
      eip = frame_load 920 kt shows (omega arith) (ground arith);
      function = frame_load 922 function shows (omega arith) (ground arith);
      func_arg = frame_load 923 arg shows (omega arith) (ground arith);
      spares = λ b p ne. framed_else a f kt function arg b space.machine g.shows ne ∙ spares b p ne;
    }

pub frame_fits : (kt function arg : ℕ) → Fit 916 (first_frame kt function arg)
frame_fits kt function arg = (
  omega arith,
  (omega arith, (omega arith, (omega arith, (omega arith, (omega arith, (omega arith, tt)))))),
)

-- In a well-formed system with a free page of the kernel and a free frame, `thread_start` returns the
-- page of a new thread. It is ready, at the end of both lists, with the next pid and its priority
-- for its time, and on its stack stand `kernel_thread`, the function and the argument. No other
-- task changes, nor a word of another frame without tables, and the system stays well formed; the
-- caller keeps the pid lock.
pub thread_start-IsStarted :
    (free kt prio function arg : ℕ) (s : System)
    → IsSystem s
    → free < page_bits (addresses s.space)
    → used (addresses s.space).vaddr_bitmap free ≡ false
    → 1 ≤ free_below (frames s.space).pool_bitmap (frame_bits s.space)
    → (s' : System) × (a : ℕ) × (f : ℕ) × (thread_start kt prio function arg s ≡ ok (started a s'))
      × IsStarted s s' a f kt prio function arg
thread_start-IsStarted free kt prio function arg s sys lt unused few =
    let w = sys.space in
    let lock = sys.lock in
    let (space, a, f, got, g, zeros, spares) =
      get_kernel_pages-Given free s.space w sys.plain lt unused few in
    let nobody = Given-IsNobody s a f sys.fresh g in
    let pid = u16 (s.next_pid + 1) in
    let (l, p, within, holder) =
      allocate_pid_next (record s { space = space; kernel = set_task a blank s.kernel })
        (record { count = lock.count; near = lock.near }) in
    let (wrote, d) =
      store_fields-Shows (first_frame kt function arg) 916 (a + 3664) (f + 3664) space.machine a f
        g.shows refl refl (frame_fits kt function arg) in
    let m = framed f kt function arg space.machine in
    (
      after_start a f kt prio function arg l space s,
      a,
      f,
      thread_start_steps kt a prio function arg pid s _ space _ got
            (==_of_ne a 0 (λ e. omega (arith, g.shows.kernel))) p
            (start_with_steps kt a prio function arg pid _ m g.shows.kernel nobody.not_main wrote
              (absent_of a s.kernel sys.kernel nobody.not_ready) nobody.unlisted)
          ∙ ap
              (λ (c : Kernel). ok (
                started a (record s {
                  kernel = record c {
                    ready_list = s.kernel.ready_list ++ a ∷ [];
                    all_list = s.kernel.all_list ++ a ∷ [];
                  };
                  space = record space { machine = m };
                  pid_lock = l;
                  next_pid = pid;
                })))
              (set_task_again a (started_task a pid prio) blank s.kernel),
      after_start-IsStarted a f kt prio function arg l space s sys nobody
          (record { count = within.count; near = within.near }) holder g spares d,
    )
