-- ===== src/Thread/Invariant.antt =====
-- What holds of the tasks and the ready queue whenever the processor is on a task's stack.
use oslearn.Base.{ℕ, ◌≡◌, true, has, Distinct}
use oslearn.Interrupt.Status.{IntrStatus}
use oslearn.Thread.State.{task_running, task_ready, Kernel, current}

-- The queue: exactly the ready tasks, each once.
pub record IsQueue (k : Kernel) : Type 0 where
  pub all_ready : (t : ℕ) → has t k.ready_list ≡ true → (k.tasks t).status ≡ task_ready
  pub all_listed : (t : ℕ) → (k.tasks t).status ≡ task_ready → has t k.ready_list ≡ true
  pub distinct : Distinct k.ready_list

-- Between two switches: the running task, and no other, is marked so.
pub record IsKernel (k : Kernel) : Type 0 where
  pub queue : IsQueue k
  pub is_running : (current k).status ≡ task_running
  pub only_running : (t : ℕ) → (k.tasks t).status ≡ task_running → t ≡ k.running

-- The invariant does not depend on the interrupt flag.
pub IsKernel-intr :
    (k : Kernel) (flag : IntrStatus) → IsKernel k → IsKernel (record k { intr = flag })
IsKernel-intr k flag v = record {
  queue = record {
    all_ready = v.queue.all_ready;
    all_listed = v.queue.all_listed;
    distinct = v.queue.distinct;
  };
  is_running = v.is_running;
  only_running = v.only_running;
}
