-- ===== src/Sync.antt =====
-- thread/sync.c and sync.h: semaphores and locks. A wait queue is the list of the tasks whose tags it
-- links; the holder of a lock is the address of its `task_struct`, and NULL is 0.
-- A task that has to wait is switched off in the middle of `sema_down`; the call goes on at
-- `sema_resume`, with the interrupt status that it had saved, when the task is scheduled again.
pub mod Down
pub mod Acquire
pub mod Held
pub mod Within
mod Tests
use oslearn.Base.{
  ℕ, ◌+◌, ◌-◌, ◌<◌, Bool, true, false, not, List, [], ◌∷◌, ◌++◌, has, ltb, ◌==◌, if◌then◌else◌, u32,
  Run, ok, panic, fault, ◌>>=◌, ◌>>◌, assert,
}
use oslearn.Interrupt.Status.{IntrStatus, intr_off, intr_disable, intr_set_status}
use oslearn.Thread.State.{TaskStatus, task_blocked, Kernel}
use oslearn.Thread.{thread_block, thread_unblock, unblocked, is_empty, pop}

pub record Semaphore : Type 0 where
  pub value : ℕ
  pub waiters : List ℕ

pub record Lock : Type 0 where
  pub holder : ℕ
  pub semaphore : Semaphore
  pub holder_repeat_nr : ℕ

-- What a call that may have to wait comes to: it returns, or another task has the processor.
pub data Outcome (A : Type 0) : Type 0 where
  returned : A → Kernel → Outcome A
  waiting : IntrStatus → A → Kernel → Outcome A

pub sema_init : ℕ → Semaphore
sema_init value = record { value = value; waiters = [] }

pub lock_init : Lock
unfolding sema_init
lock_init = record { holder = 0; holder_repeat_nr = 0; semaphore = sema_init 1 }

-- The loop of `sema_down` from its test on.
pub down_loop : IntrStatus → Semaphore → Kernel → Run (Outcome Semaphore)
down_loop old_status s k =
    if 0 == s.value
    then (do
      assert (not (has k.running s.waiters))
      let s' = record s { waiters = s.waiters ++ k.running ∷ [] }
      k' ← thread_block task_blocked k
      ok (waiting old_status s' k'))
    else (do
      let s' = record s { value = s.value - 1 }
      assert (0 == s'.value)
      ok (returned s' (record k { intr = (intr_set_status old_status k.intr).1 })))

pub sema_down : Semaphore → Kernel → Run (Outcome Semaphore)
sema_down s k =
    let (old_status, off) = intr_disable k.intr in down_loop old_status s (record k { intr = off })

-- The waiting task runs again: `thread_block` returns, and the loop tests once more.
pub sema_resume : IntrStatus → Semaphore → Kernel → Run (Outcome Semaphore)
sema_resume old_status s k = down_loop old_status s (unblocked intr_off k)

pub sema_up : Semaphore → Kernel → Run (Semaphore × Kernel)
sema_up s k = do
  let (old_status, off) = intr_disable k.intr
  let k₀ = record k { intr = off }
  assert (0 == s.value)
  (s', k') ←
      (if not (is_empty s.waiters)
        then (do
          (t, rest) ← pop s.waiters
          k₁ ← thread_unblock t k₀
          ok (record s { waiters = rest }, k₁))
        else ok (s, k₀))
  let s'' = record s' { value = s'.value + 1 }
  assert (1 == s''.value)
  ok (s'', record k' { intr = (intr_set_status old_status k'.intr).1 })

-- The end of `lock_acquire`, once the semaphore is down.
pub take_lock : Lock → Outcome Semaphore → Run (Outcome Lock)
take_lock l (waiting old_status s k) = ok (waiting old_status (record l { semaphore = s }) k)
take_lock l (returned s k) = do
  assert (0 == l.holder_repeat_nr)
  ok (returned (record l { semaphore = s; holder = k.running; holder_repeat_nr = 1 }) k)

pub lock_acquire : Lock → Kernel → Run (Outcome Lock)
lock_acquire l k =
    if k.running == l.holder
    then ok (returned (record l { holder_repeat_nr = u32 (l.holder_repeat_nr + 1) }) k)
    else (do o ← sema_down l.semaphore k; take_lock l o)

pub lock_resume : IntrStatus → Lock → Kernel → Run (Outcome Lock)
lock_resume old_status l k = do o ← sema_resume old_status l.semaphore k; take_lock l o

pub lock_release : Lock → Kernel → Run (Lock × Kernel)
lock_release l k = do
  assert (k.running == l.holder)
  if ltb 0 l.holder_repeat_nr
      then ok (record l { holder_repeat_nr = l.holder_repeat_nr - 1 }, k)
      else (do
        assert (1 == l.holder_repeat_nr)
        (s, k') ← sema_up l.semaphore k
        ok (record l { holder = 0; holder_repeat_nr = 0; semaphore = s }, k'))
