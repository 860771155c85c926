-- ===== src/Thread.antt =====
-- thread/thread.h and thread/thread.c: tasks, the ready queue and the scheduler, with the timer
-- interrupt of device/timer.c. A task is known by the address of its `task_struct`; a list stands for
-- the tasks whose tags it links (LinkedList has the pointers). The state is the one at a switch:
-- `running` is the task whose stack the processor is on, what `running_thread` computes from `esp`.
pub mod State
pub mod Invariant
pub mod Schedule
pub mod Timer
pub mod Sample
mod Tests
use oslearn.Base.{
  ℕ, ◌+◌, ◌-◌, Bool, true, false, not, ◌||◌, List, [], ◌∷◌, ◌++◌, has, ◌==◌, if◌then◌else◌, u32,
  Run, ok, panic, fault, ◌>>=◌, ◌>>◌, assert,
}
use oslearn.Interrupt.Status.{IntrStatus, is_on, intr_disable, intr_set_status}
use State.{
  TaskStatus, task_running, task_ready, is_status, may_wake, Task, Kernel, current, set_task,
}

-- `list_pop` of the ready list, whose links an empty list does not survive
abbrev pub pop : List ℕ → Run (ℕ × List ℕ)
pop [] = fault
pop (t ∷ ts) = ok (t, ts)

abbrev pub is_empty : List ℕ → Bool
is_empty [] = true
is_empty (t ∷ ts) = false

-- The first part of `schedule`: a task whose time is up goes to the end of the queue.
pub yield_cpu : Kernel → Run Kernel
yield_cpu k =
    if is_status task_running (current k).status
    then (do
      assert (not (has k.running k.ready_list))
      ok (
          set_task k.running
            (record (current k) { ticks = (current k).priority; status = task_ready })
            (record k { ready_list = k.ready_list ++ k.running ∷ [] })))
    else ok k

-- The second part: the first task in the queue gets the processor (`switch_to`).
pub switch_next : Kernel → Run Kernel
switch_next k = do
  assert (not (is_empty k.ready_list))
  (next, rest) ← pop k.ready_list
  let k' = set_task next (record (k.tasks next) { status = task_running }) k
  ok (record k' { ready_list = rest; running = next })

pub schedule : Kernel → Run Kernel
schedule k = do assert (not (is_on k.intr)); k' ← yield_cpu k; switch_next k'

-- `thread_block` up to the switch. The task goes on at `unblocked` when it is scheduled again.
pub thread_block : TaskStatus → Kernel → Run Kernel
thread_block stat k = do
  assert (may_wake stat)
  let off = record k { intr = (intr_disable k.intr).1 }
  schedule (set_task off.running (record (current off) { status = stat }) off)

-- The rest of `thread_block`: `intr_set_status(old_status)`.
pub unblocked : IntrStatus → Kernel → Kernel
unblocked old_status k = record k { intr = (intr_set_status old_status k.intr).1 }

pub thread_unblock : ℕ → Kernel → Run Kernel
thread_unblock t k = do
  let (old_status, off) = intr_disable k.intr
  assert (may_wake (k.tasks t).status)
  k' ←
      (if not (is_status task_ready (k.tasks t).status)
        then (if has t k.ready_list
            then panic
            else ok (
                set_task t (record (k.tasks t) { status = task_ready })
                  (record k { ready_list = t ∷ k.ready_list; intr = off })))
        else ok (record k { intr = off }))
  ok (record k' { intr = (intr_set_status old_status k'.intr).1 })

-- `intr_timer_handler`
pub timer_handler : Kernel → Run Kernel
timer_handler k = do
  assert ((current k).stack_magic == 0x19851122)
  let t = current k
  let t' = record t { elapsed_ticks = u32 (t.elapsed_ticks + 1) }
  let k' = set_task k.running t' (record k { ticks = u32 (k.ticks + 1) })
  if 0 == t'.ticks
      then schedule k'
      else ok (set_task k.running (record t' { ticks = t'.ticks - 1 }) k')
