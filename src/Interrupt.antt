-- ===== src/Interrupt.antt =====
-- kernel/interrupt.c: the interrupt flag of the processor, the bit IF of `eflags`, which
-- `intr_get_status` reads and `sti` and `cli` write, the handlers of the interrupts, the interrupt
-- controllers, and `idt_init`.
pub mod Status
pub mod Handlers
pub mod Pic
pub mod Idt
mod Tests
