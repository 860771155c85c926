-- ===== src/Boot.antt =====
-- The start: `mem_init` of kernel/memory.c, `init_all` of kernel/init.c and `main` of kernel/main.c up to
-- its last loop.
pub mod Devices
pub mod Ready
pub mod Running
pub mod Switch
mod Tests
use oslearn.Base.{ℕ, ◌+◌, ◌*◌, List, Run, ok, ◌>>=◌}
use oslearn.Port.{Writes}
use oslearn.Interrupt.Status.{IntrStatus, intr_enable}
use oslearn.Interrupt.Handlers.{Handlers}
use oslearn.Interrupt.Idt.{Loaded, idt_init}
use oslearn.Memory.{Memory}
use oslearn.Memory.Alloc.{get_kernel_pages}
use oslearn.Memory.Init.{mem_pool_init}
use oslearn.Spawn.{
  System, Allocated, allocated, waits_pid, Started, started, waits_start, thread_init, thread_start,
}
use oslearn.Timer.{timer_init}
use oslearn.Console.{Console, console_init}
use oslearn.IoQueue.{IoQueue}
use oslearn.Keyboard.{keyboard_init}
use oslearn.Descriptor.{Gdt, Tss, tss_init}

-- What the linker gives: the addresses of functions and of tables, and the table of kernel.S.
pub record Linked : Type 0 where
  pub intr_entry_table : List ℕ
  pub syscall_handler : ℕ
  pub general_intr_handler : ℕ
  pub intr_timer_handler : ℕ
  pub intr_keyboard_handler : ℕ
  pub kernel_thread : ℕ
  pub k_thread_a : ℕ
  pub k_thread_b : ℕ
  pub arg_a : ℕ
  pub arg_b : ℕ
  pub idt : ℕ
  pub tss : ℕ

-- What the loader leaves behind: the bytes of the low memory, and variables that are not set yet.
pub record Entry : Type 0 where
  pub low : ℕ → ℕ
  pub system : System
  pub console : Console
  pub kbd_buf : List ℕ
  pub gdt : Gdt
  pub writes : Writes

-- The kernel after `init_all`, with the operands of `lidt`, `lgdt` and `ltr`.
pub record Booted : Type 0 where
  pub system : System
  pub loaded : Loaded
  pub handlers : Handlers
  pub writes : Writes
  pub console : Console
  pub kbd_buf : IoQueue
  pub tss : Tss
  pub gdt : Gdt
  pub gdt_operand : ℕ
  pub task_register : ℕ

-- The start is complete, or the first thread waits for a lock.
pub data Start : Type 0 where
  complete : Booted → Start
  waits_boot : IntrStatus → System → Start

-- `*(uint32_t*)0xb00`
abbrev pub mem_bytes_total : (ℕ → ℕ) → ℕ
mem_bytes_total low = low 0xb00 + low 0xb01 * 256 + low 0xb02 * 65536 + low 0xb03 * 16777216

unfoldable pub mem_init : (ℕ → ℕ) → Memory → Run Memory
mem_init low m = mem_pool_init low (mem_bytes_total low) m

-- `init_all` from `timer_init` on.
unfoldable pub init_devices : Linked → Entry → Loaded → Allocated → Run Start
init_devices l e loaded (waits_pid old_status s) = ok (waits_boot old_status s)
init_devices l e loaded (allocated pid s) = do
  (h, w) ← timer_init l.intr_timer_handler loaded.handlers loaded.writes
  let console = console_init e.console
  (kbd_buf, h') ← keyboard_init l.intr_keyboard_handler e.kbd_buf h
  let (tss, gdt, gdt_operand, task_register) = tss_init l.tss e.gdt
  ok (
      complete (record {
        system = s;
        loaded = loaded;
        handlers = h';
        writes = w;
        console = console;
        kbd_buf = kbd_buf;
        tss = tss;
        gdt = gdt;
        gdt_operand = gdt_operand;
        task_register = task_register;
      }))

unfoldable pub init_all : Linked → Entry → Run Start
init_all l e = do
  loaded ← idt_init l.intr_entry_table l.syscall_handler l.general_intr_handler l.idt e.writes
  memory ← mem_init e.low e.system.space.memory
  o ← thread_init (record (e.system) { space = record (e.system.space) { memory = memory } })
  init_devices l e loaded o

-- `main` from the second thread on.
unfoldable pub main_second : Linked → Booted → Started → Run Start
main_second l b (waits_start old_status thread s) = ok (waits_boot old_status s)
main_second l b (started thread s) = ok (
    complete (record b {
      system = record s { kernel = record (s.kernel) { intr = (intr_enable s.kernel.intr).1 } };
    }))

unfoldable pub main_first : Linked → Booted → Started → Run Start
main_first l b (waits_start old_status thread s) = ok (waits_boot old_status s)
main_first l b (started thread s) = do
  o ← thread_start l.kernel_thread 30 l.k_thread_b l.arg_b s
  main_second l b o

-- `main` from the end of `init_all` on.
unfoldable pub main_threads : Linked → Start → Run Start
main_threads l (waits_boot old_status s) = ok (waits_boot old_status s)
main_threads l (complete b) = do
  (space, addr) ← get_kernel_pages 3 b.system.space
  o ← thread_start l.kernel_thread 31 l.k_thread_a l.arg_a (record (b.system) { space = space })
  main_first l b o

-- `main` up to its last loop.
unfoldable pub main : Linked → Entry → Run Start
main l e = do i ← init_all l e; main_threads l i
