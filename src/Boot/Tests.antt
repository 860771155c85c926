-- ===== src/Boot/Tests.antt =====
-- A start on a machine with 2 MB and 64 pages.
use oslearn.Base.{
  ℕ, zero, suc, ◌^◌, ◌<◌, ◌≡◌, refl, ◌||◌, ◌==◌, if◌then◌else◌, [], replicate, get_or, ok, fault,
  arith,
}
use oslearn.Interrupt.Status.{intr_off}
use oslearn.Thread.State.{Kernel, task_died}
use oslearn.Thread.Sample.{task}
use oslearn.Memory.Layout.{divide}
use oslearn.Memory.Alloc.Sample.{space}
use oslearn.Memory.Init.Sample.{loaded-IsLoaded}
use oslearn.Sync.{lock_init}
use oslearn.Descriptor.{Gdt, make_gdt_desc}
use oslearn.Spawn.{System}
use oslearn.Boot.{Linked, Entry, Booted, complete, init_all, main}
use oslearn.Boot.Ready.{IsLinked, IsEntry, IsBooted, init_all-IsBooted, init_all_short}
use oslearn.Boot.Running.{IsRunning, main-IsRunning}

abbrev linked : ℕ → Linked
linked n = record {
  intr_entry_table = replicate n 0xc0001500;
  syscall_handler = 0xc0001600;
  general_intr_handler = 0xc0001700;
  intr_timer_handler = 0xc0001800;
  intr_keyboard_handler = 0xc0001900;
  kernel_thread = 0xc0001a00;
  k_thread_a = 0xc0001b00;
  k_thread_b = 0xc0001c00;
  arg_a = 0xc0008000;
  arg_b = 0xc0008005;
  idt = 0xc0009000;
  tss = 0xc0009800;
}

abbrev kernel : Kernel
kernel = record {
  tasks = λ t. task task_died 0;
  ready_list = [];
  all_list = [];
  running = 0xc009e000;
  intr = intr_off;
  ticks = 0;
}

abbrev system : System
system = record {
  kernel = kernel;
  space = space;
  main_thread = 0;
  pid_lock = lock_init;
  next_pid = 0;
}

abbrev empty : Gdt
empty i = make_gdt_desc 0 0 0 0

abbrev entry : Entry
entry = record {
  low = λ a.
      if a == 0xb02 then 0x24 else if (a == 0xb00) || (a == 0xb01) || (a == 0xb03) then 0 else 1;
  system = system;
  console = record { lock = lock_init; screen = [] };
  kbd_buf = replicate 64 0;
  gdt = empty;
  writes = [];
}

entries_small : (n i : ℕ) → get_or (replicate n 0xc0001500) i 0 < 2 ^ 32
entries_small zero i = omega arith
entries_small (suc n) zero = omega arith
entries_small (suc n) (suc i) = entries_small n i

linked-IsLinked : IsLinked (linked 0x81)
linked-IsLinked = record {
  full = refl;
  entries = entries_small 0x81;
  syscall = omega arith;
  tss = omega arith;
}

entry-IsEntry : IsEntry entry
unfolding divide
entry-IsEntry = record {
  low = omega arith;
  bytes = λ a. ground arith;
  guard = refl;
  paging = loaded-IsLoaded;
  no_tasks = record { no_ready = λ t e. ground arith; no_running = λ t e. ground arith };
  not_zero = λ e. omega arith;
  below = omega arith;
  buffer = refl;
}

init_all-IsBooted_example :
    (b : Booted) × (init_all (linked 0x81) entry ≡ ok (complete b)) × IsBooted (linked 0x81) entry b
init_all-IsBooted_example = init_all-IsBooted (linked 0x81) entry linked-IsLinked entry-IsEntry

init_all_short_example : init_all (linked 0x30) entry ≡ fault
init_all_short_example = init_all_short (linked 0x30) entry (omega arith)

main-IsRunning_example :
    (b : Booted) × (a₁ : ℕ) × (a₂ : ℕ) × (main (linked 0x81) entry ≡ ok (complete b))
    × IsRunning (linked 0x81) entry b a₁ a₂
unfolding divide
main-IsRunning_example =
    main-IsRunning (linked 0x81) entry linked-IsLinked entry-IsEntry (omega arith)
