-- ===== src/Main/Echo.antt =====
-- What a round of the echoing threads does.
use oslearn.Interrupt.Status.{intr_disable}
use oslearn.Thread.State.{Kernel}
use oslearn.IoQueue.{IoQueue}
use oslearn.Console.{Console}

-- Interrupts are off.
abbrev pub masked : Kernel → Kernel
masked k = record k { intr = (intr_disable k.intr).1 }
