-- ===== src/Boot/Switch.antt =====
-- The first switch after the start.
use oslearn.Interrupt.Status.{intr_off}
use oslearn.Thread.State.{Kernel}
use oslearn.Boot.{Booted}

-- The kernel as the clock interrupt finds it: the processor has turned interrupts off.
abbrev pub interrupted : Booted → Kernel
interrupted b = record (b.system.kernel) { intr = intr_off }
