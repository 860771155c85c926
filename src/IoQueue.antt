-- ===== src/IoQueue.antt =====
-- device/ioqueue.c and ioqueue.h: the ring of 64 characters between an interrupt handler and the
-- threads that read it. One place stays empty, so it holds 63. A thread that finds the queue empty
-- (or full) takes the lock, notes itself as consumer (or producer) and blocks; the call goes on at
-- `resume_get` or `resume_put` when the thread runs again.
pub mod Ring
pub mod Bounded
pub mod Waiting
mod Tests
use oslearn.Base.{
  ℕ, ◌+◌, ◌%◌, Bool, true, false, not, List, get_elem?, set, ◌==◌, if◌then◌else◌, Run, ok, ◌>>=◌,
  ◌>>◌, assert, read, replicate,
}
use oslearn.Interrupt.Status.{IntrStatus, intr_off, is_on}
use oslearn.Thread.State.{task_blocked, Kernel}
use oslearn.Thread.{thread_block, thread_unblock, unblocked}
use oslearn.Sync.{
  Lock, Outcome, returned, waiting, lock_init, lock_acquire, lock_resume, lock_release,
}

abbrev pub bufsize : ℕ
bufsize = 64

pub record IoQueue : Type 0 where
  pub lock : Lock
  pub producer : ℕ
  pub consumer : ℕ
  pub buf : List ℕ
  pub head : ℕ
  pub tail : ℕ

-- Which of the two fields a waiting thread is noted in.
pub data Side : Type 0 where
  producing consuming : Side

abbrev pub waiter : Side → IoQueue → ℕ
waiter producing q = q.producer
waiter consuming q = q.consumer

abbrev pub set_waiter : Side → ℕ → IoQueue → IoQueue
set_waiter producing t q = record q { producer = t }
set_waiter consuming t q = record q { consumer = t }

-- The buffer is left as it is found.
pub ioqueue_init : List ℕ → IoQueue
ioqueue_init buf = record {
  lock = lock_init;
  producer = 0;
  consumer = 0;
  buf = buf;
  head = 0;
  tail = 0;
}

pub next_pos : ℕ → ℕ
next_pos pos = (pos + 1) % bufsize

pub ioq_full : IoQueue → Kernel → Run Bool
unfolding next_pos
ioq_full q k = do assert (not (is_on k.intr)); ok (next_pos q.head == q.tail)

pub ioq_empty : IoQueue → Kernel → Run Bool
ioq_empty q k = do assert (not (is_on k.intr)); ok (q.head == q.tail)

-- What a transfer comes to: it is done, the thread waits for the lock, or it waits to be woken.
pub data Transfer (A : Type 0) : Type 0 where
  done : A → IoQueue → Kernel → Transfer A
  waits_lock : IntrStatus → IoQueue → Kernel → Transfer A
  waits_turn : IoQueue → Kernel → Transfer A

-- `ioq_wait(&ioq->consumer)`, `ioq_wait(&ioq->producer)`
pub ioq_wait : {A : Type 0} → Side → IoQueue → Kernel → Run (Transfer A)
ioq_wait side q k = do
  assert (waiter side q == 0)
  k' ← thread_block task_blocked k
  ok (waits_turn (set_waiter side k.running q) k')

pub wakeup : Side → IoQueue → Kernel → Run (IoQueue × Kernel)
wakeup side q k = do
  assert (not (waiter side q == 0))
  k' ← thread_unblock (waiter side q) k
  ok (set_waiter side 0 q, k')

-- The body of the loops, once the lock has been asked for.
pub with_lock : {A : Type 0} → Side → IoQueue → Outcome Lock → Run (Transfer A)
with_lock side q (returned l k) = ioq_wait side (record q { lock = l }) k
with_lock side q (waiting old l k) = ok (waits_lock old (record q { lock = l }) k)

-- `if(waiter) wakeup(&waiter);`
pub wake_if_any : Side → IoQueue → Kernel → Run (IoQueue × Kernel)
wake_if_any side q k = if not (waiter side q == 0) then wakeup side q k else ok (q, k)

pub ioq_getchar : IoQueue → Kernel → Run (Transfer ℕ)
unfolding next_pos
ioq_getchar q k = do
  assert (not (is_on k.intr))
  nothing ← ioq_empty q k
  if nothing then (do o ← lock_acquire q.lock k; with_lock consuming q o) else (do
    byte ← read (get_elem? q.buf q.tail)
    (q', k') ← wake_if_any producing (record q { tail = next_pos q.tail }) k
    ok (done byte q' k'))

pub ioq_putchar : IoQueue → ℕ → Kernel → Run (Transfer (Unit {0}))
unfolding next_pos
ioq_putchar q byte k = do
  assert (not (is_on k.intr))
  no_room ← ioq_full q k
  if no_room then (do o ← lock_acquire q.lock k; with_lock producing q o) else (do
    place ← read (get_elem? q.buf q.head)
    let q₁ = record q { buf = set q.buf q.head byte; head = next_pos q.head }
    (q', k') ← wake_if_any consuming q₁ k
    ok (done tt q' k'))

-- A thread that waited for its turn releases the lock and tests again; `thread_block` was entered
-- with interrupts off.
pub resume_get : IoQueue → Kernel → Run (Transfer ℕ)
resume_get q k = do
  (l, k') ← lock_release q.lock (unblocked intr_off k)
  ioq_getchar (record q { lock = l }) k'

pub resume_put : IoQueue → ℕ → Kernel → Run (Transfer (Unit {0}))
resume_put q byte k = do
  (l, k') ← lock_release q.lock (unblocked intr_off k)
  ioq_putchar (record q { lock = l }) byte k'

-- A thread that waited for the lock.
pub resume_lock : {A : Type 0} → Side → IntrStatus → IoQueue → Kernel → Run (Transfer A)
resume_lock side old q k = do o ← lock_resume old q.lock k; with_lock side q o
