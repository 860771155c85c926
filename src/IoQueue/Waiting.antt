-- ===== src/IoQueue/Waiting.antt =====
-- `ioq_getchar` on an empty queue and `ioq_putchar` on a full one.
use oslearn.Base.{ℕ, ◌≡◌, refl, ◌≢◌, ◌∙◌, List, [], ◌∷◌, length, true, ok}
use oslearn.Interrupt.Status.{intr_off}
use oslearn.Thread.State.{Kernel, task_blocked}
use oslearn.Thread.Invariant.{IsKernel}
use oslearn.Thread.Schedule.{thread_block-IsKernel}
use oslearn.Sync.{Lock, returned}
use oslearn.Sync.Acquire.{IsLock, lock_acquire_free}
use oslearn.IoQueue.{
  IoQueue, Side, producing, consuming, waiter, waits_turn, ioq_full, ioq_empty, ioq_wait, with_lock,
  ioq_getchar, ioq_putchar,
}
use oslearn.IoQueue.Ring.{IsRing, contents}
use oslearn.IoQueue.Bounded.{ioq_empty-length}

-- The running thread is noted on its side and sleeps, holding the queue's lock; `next` runs.
pub record Waits (side : Side) (q q' : IoQueue) (k k' : Kernel) (next : ℕ) : Type 0 where
  pub noted : waiter side q' ≡ k.running
  pub same : contents q' ≡ contents q
  pub locked : q'.lock.holder ≡ k.running
  pub asleep : (k'.tasks k.running).status ≡ task_blocked
  pub kernel : IsKernel k'
  pub running : k'.running ≡ next

module _ (q : IoQueue) (k : Kernel) (next : ℕ) (rest : List ℕ) (w : IsKernel k)
    (e : k.ready_list ≡ next ∷ rest) (l : Lock) (own : l.holder ≡ k.running) where
  with_lock-Waits :
      {A : Type 0} (side : Side)
      → waiter side q ≡ 0
      → (q' : IoQueue) × (k' : Kernel) × (with_lock {A = A} side q (returned l k)
          ≡ ok (waits_turn q' k'))
        × Waits side q q' k k' next
  unfolding with_lock ioq_wait
  with_lock-Waits producing z =
      let (k', r, is, run, _, blocked, _, _) =
        thread_block-IsKernel task_blocked k next rest refl w e in
      (
        record q { lock = l; producer = k.running },
        k',
        simp (z, r),
        record {
          noted = refl;
          same = refl;
          locked = own;
          asleep = blocked;
          kernel = is;
          running = run;
        },
      )
  with_lock-Waits consuming z =
      let (k', r, is, run, _, blocked, _, _) =
        thread_block-IsKernel task_blocked k next rest refl w e in
      (
        record q { lock = l; consumer = k.running },
        k',
        simp (z, r),
        record {
          noted = refl;
          same = refl;
          locked = own;
          asleep = blocked;
          kernel = is;
          running = run;
        },
      )

module _ (q : IoQueue) (k : Kernel) (next : ℕ) (rest : List ℕ) (v : IsRing q) (w : IsKernel k)
    (off : k.intr ≡ intr_off) (e : k.ready_list ≡ next ∷ rest) (free : IsLock q.lock k)
    (nobody : q.lock.holder ≡ 0) (real : k.running ≢ 0) where
  -- With interrupts off, on an empty well-formed queue with a free lock and no consumer, and with a
  -- ready task, the thread that calls `ioq_getchar` becomes the consumer, blocks with the lock in
  -- its hands, and leaves the processor to the first ready task.
  pub ioq_getchar-Waits :
      contents q ≡ []
      → q.consumer ≡ 0
      → (q' : IoQueue) × (k' : Kernel) × (ioq_getchar q k ≡ ok (waits_turn q' k'))
        × Waits consuming q q' k k' next
  unfolding ioq_getchar
  ioq_getchar-Waits none_there z =
      let empty : ioq_empty q k ≡ ok true = (ioq_empty-length q k v off).0 ∙ rw none_there in
      let (l, r, _, own, _, _) = lock_acquire_free q.lock k free nobody real in
      let (q', k', r', waits) = with_lock-Waits q k next rest w e l own {A = ℕ} consuming z in
      (q', k', simp (off, empty, r) r', waits)

  -- With interrupts off, on a full well-formed queue with a free lock and no producer, and with a
  -- ready task, the thread that calls `ioq_putchar` becomes the producer, blocks with the lock in
  -- its hands, and leaves the processor to the first ready task.
  pub ioq_putchar-Waits :
      (byte : ℕ)
      → length (contents q) ≡ 63
      → q.producer ≡ 0
      → (q' : IoQueue) × (k' : Kernel) × (ioq_putchar q byte k ≡ ok (waits_turn q' k'))
        × Waits producing q q' k k' next
  unfolding ioq_putchar
  ioq_putchar-Waits byte full z =
      let no_room : ioq_full q k ≡ ok true = (ioq_empty-length q k v off).1 ∙ rw full in
      let (l, r, _, own, _, _) = lock_acquire_free q.lock k free nobody real in
      let (q', k', r', waits) =
        with_lock-Waits q k next rest w e l own {A = Unit {0}} producing z in
      (q', k', simp (off, no_room, r) r', waits)
