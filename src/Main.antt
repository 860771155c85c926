-- ===== src/Main.antt =====
-- kernel/main.c: the threads that echo the keyboard, `k_thread_a` and `k_thread_b`, which differ in the
-- text that they are given.
pub mod Echo
mod Tests
use oslearn.Base.{ℕ, Bool, true, false, not, List, [], ◌∷◌, if◌then◌else◌, u8, Run, ok, ◌>>=◌}
use oslearn.Interrupt.Status.{IntrStatus, intr_disable, intr_set_status}
use oslearn.Thread.State.{Kernel}
use oslearn.Sync.{Outcome, returned, waiting}
use oslearn.IoQueue.{IoQueue, Transfer, done, waits_lock, waits_turn, ioq_empty, ioq_getchar}
use oslearn.Console.{Console, console_put_str, console_put_char}

pub record Terminal : Type 0 where
  pub kbd_buf : IoQueue
  pub console : Console
  pub kernel : Kernel

-- A round of the loop ends, or the thread has lost the processor on the way.
pub data Round : Type 0 where
  rounded : Terminal → Round
  off_cpu : Terminal → Round

pub finish : IntrStatus → Terminal → Terminal
finish old_status e = record e {
  kernel = record (e.kernel) { intr = (intr_set_status old_status e.kernel.intr).1 };
}

-- `console_put_char(byte)` has been called.
pub after_char : IntrStatus → Terminal → Outcome Console → Run Round
unfolding finish
after_char old_status e (waiting old c k) = ok (off_cpu (record e { console = c; kernel = k }))
after_char old_status e (returned c k) =
    ok (rounded (finish old_status (record e { console = c; kernel = k })))

-- `ioq_getchar(&kbd_buf)` has been called.
pub after_getchar : IntrStatus → Terminal → Transfer ℕ → Run Round
after_getchar old_status e (waits_lock old q k) =
    ok (off_cpu (record e { kbd_buf = q; kernel = k }))
after_getchar old_status e (waits_turn q k) = ok (off_cpu (record e { kbd_buf = q; kernel = k }))
after_getchar old_status e (done byte q k) = do
  o ← console_put_char (u8 byte) e.console k
  after_char old_status (record e { kbd_buf = q }) o

-- `console_put_str(para)` has been called.
pub after_text : IntrStatus → Terminal → Outcome Console → Run Round
after_text old_status e (waiting old c k) = ok (off_cpu (record e { console = c; kernel = k }))
after_text old_status e (returned c k) = do
  t ← ioq_getchar e.kbd_buf k
  after_getchar old_status (record e { console = c }) t

-- One round of the loop of `k_thread_a`.
pub k_thread : List ℕ → Terminal → Run Round
unfolding finish
k_thread para e = do
  let (old_status, off) = intr_disable e.kernel.intr
  let k = record (e.kernel) { intr = off }
  nothing ← ioq_empty e.kbd_buf k
  if nothing
      then ok (rounded (finish old_status (record e { kernel = k })))
      else (do o ← console_put_str para e.console k; after_text old_status e o)
