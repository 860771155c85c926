-- ===== src/Thread/Schedule.antt =====
-- `schedule`, `thread_block` and `thread_unblock`.
use oslearn.Base.{
  ℕ, ◌≡◌, refl, sym, ◌≢◌, inl, inr, true, false, List, [], ◌∷◌, ◌++◌, has, Distinct, has-append,
  Distinct-append, arith, ==_of_ne, Bool-cases, Run, ok, panic,
}
use oslearn.Interrupt.Status.{intr_off, intr_disable, intr_set_status-disable}
use oslearn.Thread.State.{
  TaskStatus, task_running, task_ready, is_status, may_wake, Kernel, current, set_task,
}
use oslearn.Thread.{yield_cpu, switch_next, schedule, thread_block, thread_unblock}
use oslearn.Thread.Invariant.{IsQueue, IsKernel}

-- A kernel without a running task: the state between the two parts of `schedule`.
record IsIdle (k : Kernel) : Type 0 where
  queue : IsQueue k
  none_running : (t : ℕ) → (k.tasks t).status ≢ task_running

not_listed :
    (k : Kernel) (t : ℕ) → IsQueue k → (k.tasks t).status ≢ task_ready → has t k.ready_list ≡ false
not_listed k t q h = elim (Bool-cases (has t k.ready_list)) [
  | inl e ↦ absurd (h (q.all_ready t e))
  | inr e ↦ e
]

-- The state in which a task that had to yield is put back.
abbrev yielded : Kernel → Kernel
yielded k =
    set_task k.running (record (current k) { ticks = (current k).priority; status = task_ready })
      (record k { ready_list = k.ready_list ++ k.running ∷ [] })

yield_cpu-yielded : (k : Kernel) → IsKernel k → yield_cpu k ≡ ok (yielded k)
unfolding yield_cpu
yield_cpu-yielded k v =
    let free = not_listed k k.running v.queue (λ e. cc (e, v.is_running)) in rw (v.is_running, free)

yielded-IsIdle : (k : Kernel) → IsKernel k → IsIdle (yielded k)
yielded-IsIdle k v =
    let free = not_listed k k.running v.queue (λ e. cc (e, v.is_running)) in
    record {
      queue = record {
        all_ready =
            λ t h. ground (arith, has-append t k.ready_list (k.running ∷ []), v.queue.all_ready t);
        all_listed =
            λ t h. ground (arith, has-append t k.ready_list (k.running ∷ []), v.queue.all_listed t);
        distinct = Distinct-append k.ready_list k.running v.queue.distinct free;
      };
      none_running = λ t h. ground (arith, v.only_running t);
    }

-- The state in which the task `next` has the processor, the others `rest` waiting.
abbrev switched : ℕ → List ℕ → Kernel → Kernel
switched next rest k = record (set_task next (record (k.tasks next) { status = task_running }) k) {
  ready_list = rest;
  running = next;
}

switch_next-switched :
    (k : Kernel) (next : ℕ) (rest : List ℕ)
    → k.ready_list ≡ next ∷ rest
    → switch_next k ≡ ok (switched next rest k)
unfolding switch_next
switch_next-switched k next rest e = rw (e, switch_next)

switch_next_panic : (k : Kernel) → k.ready_list ≡ [] → switch_next k ≡ panic
unfolding switch_next
switch_next_panic k e = rw (e, switch_next)

switched-IsKernel :
    (k : Kernel) (next : ℕ) (rest : List ℕ)
    → IsIdle k
    → k.ready_list ≡ next ∷ rest
    → IsKernel (switched next rest k)
switched-IsKernel k next rest v e =
    let d : Distinct (next ∷ rest) = rw e at v.queue.distinct in
    let ready : (t : ℕ) → has t (next ∷ rest) ≡ true → (k.tasks t).status ≡ task_ready =
      rw e at v.queue.all_ready in
    let listed : (t : ℕ) → (k.tasks t).status ≡ task_ready → has t (next ∷ rest) ≡ true =
      rw e at v.queue.all_listed in
    record {
      queue = record {
        all_ready = λ t h. ground (arith, d.0, ready t);
        all_listed = λ t h. ground (arith, listed t);
        distinct = d.1;
      };
      is_running = ground arith;
      only_running = λ t h. ground (arith, v.none_running t);
    }

schedule_steps :
    (k k₁ : Kernel) {r : Run Kernel}
    → k.intr ≡ intr_off
    → yield_cpu k ≡ ok k₁
    → switch_next k₁ ≡ r
    → schedule k ≡ r
unfolding schedule
schedule_steps k k₁ off y s = rw (y, off) s

-- With interrupts off, `schedule` of a running task puts it at the end of the queue with its full
-- time and gives the processor to the task that then is first; the invariant holds.
pub schedule-round_robin :
    (k : Kernel)
    → IsKernel k
    → k.intr ≡ intr_off
    → (next : ℕ) (rest : List ℕ) → k.ready_list ++ k.running ∷ [] ≡ next ∷ rest
    → (k' : Kernel) × (schedule k ≡ ok k')
      × IsKernel k'
      × (k'.running ≡ next)
      × (k'.ready_list ≡ rest)
      × ((k'.tasks k.running).ticks ≡ (current k).priority)
schedule-round_robin k v off next rest e = (
  switched next rest (yielded k),
  schedule_steps k (yielded k) off (yield_cpu-yielded k v)
      (switch_next-switched (yielded k) next rest e),
  switched-IsKernel (yielded k) next rest (yielded-IsIdle k v) e,
  refl,
  refl,
  ground arith,
)

-- The state before the switch of `thread_block`.
abbrev asleep : TaskStatus → Kernel → Kernel
asleep stat k =
    set_task k.running (record (current k) { status = stat })
      (record k { intr = (intr_disable k.intr).1 })

asleep-IsIdle :
    (stat : TaskStatus) (k : Kernel) → may_wake stat ≡ true → IsKernel k → IsIdle (asleep stat k)
asleep-IsIdle stat k h v =
    let free = not_listed k k.running v.queue (λ e. cc (e, v.is_running)) in
    record {
      queue = record {
        all_ready = λ t l. ground (arith, free, v.queue.all_ready t);
        all_listed = λ t l. ground (arith, v.queue.all_listed t);
        distinct = v.queue.distinct;
      };
      none_running = λ t e. ground (arith, v.only_running t);
    }

asleep-not_running :
    (stat : TaskStatus) (k : Kernel)
    → may_wake stat ≡ true
    → yield_cpu (asleep stat k) ≡ ok (asleep stat k)
unfolding yield_cpu
asleep-not_running stat k h = ground arith

-- Where another task is ready, `thread_block` with a status of sleep gives it to the running task,
-- leaves that task out of the queue, and gives the processor to the first task in the queue with
-- interrupts off; no other task changes, and the invariant holds.
pub thread_block-IsKernel :
    (stat : TaskStatus) (k : Kernel) (next : ℕ) (rest : List ℕ)
    → may_wake stat ≡ true
    → IsKernel k
    → k.ready_list ≡ next ∷ rest
    → (k' : Kernel) × (thread_block stat k ≡ ok k')
      × IsKernel k'
      × (k'.running ≡ next)
      × (k'.ready_list ≡ rest)
      × ((k'.tasks k.running).status ≡ stat)
      × (k'.intr ≡ intr_off)
      × ((t : ℕ) → t ≢ k.running → t ≢ next → k'.tasks t ≡ k.tasks t)
unfolding thread_block
thread_block-IsKernel stat k next rest h v e =
    let off = (intr_set_status-disable k.intr).0 in
    let idle = asleep-IsIdle stat k h v in
    let ready : (t : ℕ) → has t (next ∷ rest) ≡ true → (k.tasks t).status ≡ task_ready =
      rw e at v.queue.all_ready in
    (
      switched next rest (asleep stat k),
      rw h (
          schedule_steps (asleep stat k) (asleep stat k) off (asleep-not_running stat k h)
            (switch_next-switched (asleep stat k) next rest e)),
      switched-IsKernel (asleep stat k) next rest idle e,
      refl,
      refl,
      ground (arith, ready next, v.is_running),
      off,
      λ t a b. rw (==_of_ne next t (λ e. b (sym e)), ==_of_ne k.running t (λ e. a (sym e))),
    )

-- When the last task that could run blocks, the assertion of `schedule` stops the kernel.
pub thread_block_panic :
    (stat : TaskStatus) (k : Kernel)
    → may_wake stat ≡ true
    → k.ready_list ≡ []
    → thread_block stat k ≡ panic
unfolding thread_block
thread_block_panic stat k h e =
    let off = (intr_set_status-disable k.intr).0 in
    rw h (
      schedule_steps (asleep stat k) (asleep stat k) off (asleep-not_running stat k h)
        (switch_next_panic (asleep stat k) e))

-- What `thread_unblock` leaves.
abbrev woken : ℕ → Kernel → Kernel
woken t k = record (set_task t (record (k.tasks t) { status = task_ready }) k) {
  ready_list = t ∷ k.ready_list;
}

-- `thread_unblock` of a sleeping task puts it in front of the queue, marks it ready, and changes
-- neither the running task, the other tasks nor the interrupt flag; the invariant holds.
pub thread_unblock-IsKernel :
    (t : ℕ) (k : Kernel)
    → IsKernel k
    → may_wake (k.tasks t).status ≡ true
    → (k' : Kernel) × (thread_unblock t k ≡ ok k')
      × IsKernel k'
      × (k'.running ≡ k.running)
      × (k'.ready_list ≡ t ∷ k.ready_list)
      × ((k'.tasks t).status ≡ task_ready)
      × (k'.intr ≡ k.intr)
      × ((u : ℕ) → u ≢ t → k'.tasks u ≡ k.tasks u)
unfolding thread_unblock
thread_unblock-IsKernel t k v h =
    let free = not_listed k t v.queue (ground arith) in
    let sleeping : is_status task_ready (k.tasks t).status ≡ false = ground arith in
    (
      woken t k,
      rw (h, sleeping, free, (intr_set_status-disable k.intr).1),
      record {
        queue = record {
          all_ready = λ u l. ground (arith, v.queue.all_ready u);
          all_listed = λ u l. ground (arith, v.queue.all_listed u);
          distinct = (free, v.queue.distinct);
        };
        is_running = ground (arith, v.is_running);
        only_running = λ u l. ground (arith, v.only_running u);
      },
      refl,
      refl,
      ground arith,
      refl,
      λ u a. rw (==_of_ne t u (λ e. a (sym e))),
    )

-- A task that runs, is ready or has died cannot be woken: the assertion stops the kernel.
pub thread_unblock_panic :
    (t : ℕ) (k : Kernel) → may_wake (k.tasks t).status ≡ false → thread_unblock t k ≡ panic
unfolding thread_unblock
thread_unblock_panic t k h = rw h
