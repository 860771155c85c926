-- ===== src/Boot/Ready.antt =====
-- `init_all` as a whole.
use oslearn.Base.{
  ℕ, ◌+◌, ◌*◌, ◌%◌, ◌^◌, ◌<◌, ◌≤◌, ◌≡◌, ◌≢◌, refl, ap, sym, subst, ◌∙◌, ==_of_ne, [], length, has,
  get_or, u16, ok, fault, arith,
}
use oslearn.Thread.State.{Task, TaskStatus, Kernel}
use oslearn.Descriptor.{idt_desc_cnt}
use oslearn.Descriptor.Gate.{Installed}
use oslearn.Descriptor.Install.{Installs, tss_init-Installs}
use oslearn.Interrupt.Idt.{idt_init-Installed, idt_init_short}
use oslearn.Memory.{pg_size}
use oslearn.Memory.Layout.{divide, used_mem}
use oslearn.Memory.Init.{k_heap_start}
use oslearn.Memory.Init.Sound.{IsLoaded, IsInitial, mem_pool_init-IsInitial}
use oslearn.Memory.Alloc.{Space}
use oslearn.Memory.Alloc.Kernel.{addresses}
use oslearn.Console.{console_init}
use oslearn.IoQueue.{bufsize}
use oslearn.IoQueue.Ring.{IsRing, contents, ioqueue_init-IsRing}
use oslearn.Sync.Acquire.{lock_init-IsLock}
use oslearn.Spawn.{System}
use oslearn.Spawn.Fresh.{HasFreshPages, IsSystem}
use oslearn.Spawn.Main.{HasNoTasks, HasMain, thread_init-HasMain}
use oslearn.Boot.{Linked, Entry, Booted, complete, mem_bytes_total, mem_init, init_all}
use oslearn.Boot.Devices.{IsDriven, devices_after, init_devices-IsDriven}

-- From the table of entries on there are 129 words, of which kernel.S fills the first 48, and addresses
-- have 32 bits.
pub record IsLinked (l : Linked) : Type 0 where
  pub full : length l.intr_entry_table ≡ idt_desc_cnt
  pub entries : (i : ℕ) → get_or l.intr_entry_table i 0 < 2 ^ 32
  pub syscall : l.syscall_handler < 2 ^ 32
  pub tss : l.tss < 2 ^ 32

-- What the loader leaves behind: a memory of at least 2 MB, bytes in its low part, the byte behind
-- the bitmap of the addresses an odd one, the paging, and code that runs below the heap, not on page
-- 0, while no page holds a task; the queue of the keyboard has room for 64 characters.
pub record IsEntry (e : Entry) : Type 0 where
  pub low : used_mem ≤ mem_bytes_total e.low
  pub bytes : (a : ℕ) → e.low a < 256
  pub guard :
      e.low (
          (divide (mem_bytes_total e.low)).vaddr_bits + (divide (mem_bytes_total e.low)).kbm_length)
        % 2
      ≡ 1
  pub paging : IsLoaded e.system.space.machine
  pub no_tasks : HasNoTasks e.system.kernel
  pub not_zero : e.system.kernel.running ≢ 0
  pub below : e.system.kernel.running < k_heap_start
  pub buffer : length e.kbd_buf ≡ bufsize

-- The kernel after `init_all`.
pub record IsBooted (l : Linked) (e : Entry) (b : Booted) : Type 1 where
  pub main : HasMain e.system.kernel (u16 (e.system.next_pid + 1)) b.system
  pub system : IsSystem b.system
  pub memory : IsInitial (mem_bytes_total e.low) b.system.space
  pub gates : Installed l.intr_entry_table l.syscall_handler b.loaded.idt
  pub devices : IsDriven l b.handlers b.writes
  pub segments : Installs l.tss e.gdt b.tss b.gdt b.task_register
  pub queue : IsRing b.kbd_buf
  pub typed : contents b.kbd_buf ≡ []
  pub console : b.console.lock.holder ≡ 0

-- The pages of the heap are nobody's.
main-HasFreshPages :
    (k : Kernel) (pid : ℕ) (s : System)
    → HasNoTasks k
    → HasMain k pid s
    → k.running < k_heap_start
    → (addresses s.space).vaddr_start ≡ k_heap_start
    → HasFreshPages s
main-HasFreshPages k pid s none m below heap = record {
  unlisted = λ i lt u.
      ap (has (page_at i)) m.all_list ∙ rw (==_of_ne (page_at i) k.running (above i)) refl;
  not_ready = λ i lt u e.
      none.no_ready (page_at i) (ap status_of (sym (m.tasks (page_at i) (above i))) ∙ e);
  not_running = λ i lt u e. above i (e ∙ m.running);
  not_main = λ i lt u e. above i (e ∙ m.main_thread);
}
  where
    status_of : Task → TaskStatus
    status_of t = t.status

    page_at : ℕ → ℕ
    page_at i = (addresses s.space).vaddr_start + i * pg_size

    above : (i : ℕ) → (addresses s.space).vaddr_start + i * pg_size ≢ k.running
    above i e = omega arith

-- With 129 words from the table of entries on and a memory as `IsEntry` says, `init_all` completes, and
-- no call in it waits: the system is well formed with the running code as its only thread, all of the
-- heap and of both pools is free, the gates and segments are installed, and the devices are driven by
-- their handlers. The segment of the `tss` ends at 442367, since its limit counts 4 KB pages, and
-- `io_base` lies inside it.
pub init_all-IsBooted :
    (l : Linked) (e : Entry)
    → IsLinked l
    → IsEntry e
    → (b : Booted) × (init_all l e ≡ ok (complete b)) × IsBooted l e b
unfolding init_all mem_init console_init
init_all-IsBooted l e il ie =
    let (loaded, r, gates, handlers, writes, limit, base) =
      idt_init-Installed l.intr_entry_table l.syscall_handler l.general_intr_handler l.idt e.writes
        il.full il.entries il.syscall in
    let (memory, r₁, init) =
      mem_pool_init-IsInitial e.low (mem_bytes_total e.low) e.system.space.memory
        e.system.space.machine ie.low (bytes_lt e.low ie.bytes) ie.bytes ie.guard ie.paging in
    let space : Space = record { memory = memory; machine = e.system.space.machine } in
    let s : System = record (e.system) { space = space } in
    let (s', r₂, m, same) = thread_init-HasMain s ie.no_tasks ie.not_zero in
    let (h, r₃, driven) =
      init_devices-IsDriven l e loaded (u16 (e.system.next_pid + 1)) s' e.writes handlers writes in
    let initial : IsInitial (mem_bytes_total e.low) s'.space =
      subst (IsInitial (mem_bytes_total e.low)) (sym same) init in
    let ring = ioqueue_init-IsRing e.kbd_buf ie.buffer in
    let (installs, size, at) = tss_init-Installs l.tss e.gdt il.tss in
    (
      devices_after l e loaded s' h,
      simp (r, r₁, r₂, r₃),
      record {
        main = m;
        system = record {
          kernel = m.kernel;
          space = initial.space;
          plain = initial.plain;
          fresh =
              main-HasFreshPages e.system.kernel (u16 (e.system.next_pid + 1)) s' ie.no_tasks m
                ie.below initial.heap;
          lock = m.lock;
        };
        memory = initial;
        gates = gates;
        devices = driven;
        segments = installs;
        queue = ring.0;
        typed = ring.1;
        console = (lock_init-IsLock s'.kernel).1;
      },
    )
  where
    bytes_lt : (low : ℕ → ℕ) → ((a : ℕ) → low a < 256) → mem_bytes_total low < 2 ^ 32
    bytes_lt low h = omega (arith, h 0xb00, h 0xb01, h 0xb02, h 0xb03)

-- Where nothing stands behind the table of entries and it is shorter than 129, as the one of kernel.S
-- with its 48, `init_all` reads behind it.
pub init_all_short :
    (l : Linked) (e : Entry) → length l.intr_entry_table < idt_desc_cnt → init_all l e ≡ fault
unfolding init_all
init_all_short l e h =
    rw (idt_init_short l.intr_entry_table l.syscall_handler l.general_intr_handler l.idt e.writes h)
      refl
