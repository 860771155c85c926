-- ===== src/Thread/Timer.antt =====
-- `intr_timer_handler`: time slices. The processor enters it with interrupts off.
use oslearn.Base.{
  ℕ, zero, suc, ◌+◌, ◌-◌, ◌≡◌, refl, sym, fun_ext, bind_assoc, bind_ok, ap, ap₂, ◌∙◌, List, [], ◌∷◌,
  ◌++◌, arith, ◌==◌, if◌then◌else◌, if_true, if_false, u32, Run, ok, ◌>>=◌,
}
use oslearn.Interrupt.Status.{intr_off}
use oslearn.Thread.State.{Kernel, current, set_task}
use oslearn.Thread.{schedule, timer_handler}
use oslearn.Thread.Invariant.{IsKernel}
use oslearn.Thread.Schedule.{schedule-round_robin}

-- The state in which an interrupt may be taken: the stack of the running task is not overrun.
pub record IsTicking (k : Kernel) : Type 0 where
  pub kernel : IsKernel k
  pub sound : (current k).stack_magic ≡ 0x19851122
  pub off : k.intr ≡ intr_off

-- The tick is counted.
abbrev counted : Kernel → Kernel
counted k =
    set_task k.running (record (current k) { elapsed_ticks = u32 ((current k).elapsed_ticks + 1) })
      (record k { ticks = u32 (k.ticks + 1) })

-- The state after a tick that leaves the task running.
abbrev ticked : Kernel → Kernel
ticked k =
    set_task k.running
      (record (current k) {
        elapsed_ticks = u32 ((current k).elapsed_ticks + 1);
        ticks = (current k).ticks - 1;
      })
      (counted k)

timer_handler-cases :
    (k : Kernel)
    → (current k).stack_magic ≡ 0x19851122
    → timer_handler k ≡ (if 0 == (current k).ticks then schedule (counted k) else ok (ticked k))
unfolding timer_handler
timer_handler-cases k e = rw e

counted-IsKernel : (k : Kernel) → IsKernel k → IsKernel (counted k)
counted-IsKernel k v = record {
  queue = record {
    all_ready = λ t h. ground (arith, v.queue.all_ready t);
    all_listed = λ t h. ground (arith, v.queue.all_listed t);
    distinct = v.queue.distinct;
  };
  is_running = ground (arith, v.is_running);
  only_running = λ t h. ground (arith, v.only_running t);
}

-- With interrupts off and the stack not overrun, when the time of the running task is up, the tick
-- makes it yield: it goes to the end of the queue with a full slice, and the first task in the
-- queue runs; the invariant holds.
pub timer_handler_yields :
    (k : Kernel)
    → IsTicking k
    → (current k).ticks ≡ 0
    → (next : ℕ) (rest : List ℕ) → k.ready_list ++ k.running ∷ [] ≡ next ∷ rest
    → (k' : Kernel) × (timer_handler k ≡ ok k')
      × IsKernel k'
      × (k'.running ≡ next)
      × (k'.ready_list ≡ rest)
      × ((k'.tasks k.running).ticks ≡ (current k).priority)
timer_handler_yields k v z next rest e =
    let (k', r, is, run, list, time) =
      schedule-round_robin (counted k) (counted-IsKernel k v.kernel) v.off next rest e in
    (
      k',
      timer_handler-cases k v.sound ∙ if_true (0 == (current k).ticks) _ _ (ground arith) ∙ r,
      is,
      run,
      list,
      time ∙ ground arith,
    )

-- Before that a tick takes one from the time left, counts it, and lets the task run on.
pub timer_handler_runs_on :
    (k : Kernel)
    → IsTicking k
    → (n : ℕ) → (current k).ticks ≡ suc n
    → (k' : Kernel) × (timer_handler k ≡ ok k')
      × IsTicking k'
      × (k'.running ≡ k.running)
      × (k'.ready_list ≡ k.ready_list)
      × ((current k').ticks ≡ n)
      × ((current k').elapsed_ticks ≡ u32 ((current k).elapsed_ticks + 1))
timer_handler_runs_on k v n e = (
  ticked k,
  timer_handler-cases k v.sound ∙ if_false (0 == (current k).ticks) _ _ (ground arith),
  record {
    kernel = record {
      queue = record {
        all_ready = λ t h. ground (arith, v.kernel.queue.all_ready t);
        all_listed = λ t h. ground (arith, v.kernel.queue.all_listed t);
        distinct = v.kernel.queue.distinct;
      };
      is_running = ground (arith, v.kernel.is_running);
      only_running = λ t h. ground (arith, v.kernel.only_running t);
    };
    sound = ground (arith, v.sound);
    off = v.off;
  },
  refl,
  refl,
  ground arith,
  ground arith,
)

-- `n` timer interrupts in a row.
pub timer_times : ℕ → Kernel → Run Kernel
timer_times zero k = ok k
timer_times (suc n) k = timer_handler k >>= timer_times n

-- With interrupts off and its stack not overrun, a task keeps the processor for as many ticks as it
-- has left, through all of which the queue stays as it is; then its time is up.
pub timer_times-slice :
    (n : ℕ) (k : Kernel)
    → IsTicking k
    → (current k).ticks ≡ n
    → (k' : Kernel) × (timer_times n k ≡ ok k')
      × IsTicking k'
      × (k'.running ≡ k.running)
      × (k'.ready_list ≡ k.ready_list)
      × ((current k').ticks ≡ 0)
unfolding timer_times
timer_times-slice zero k v e = (k, refl, v, refl, refl, e)
timer_times-slice (suc n) k v e =
    let (k₁, r, w, run, list, time, _) = timer_handler_runs_on k v n e in
    let (k₂, r', w', run', list', time') = timer_times-slice n k₁ w time in
    (k₂, rw r r', w', run' ∙ run, list' ∙ list, time')

times_last : (n : ℕ) (k : Kernel) → timer_times (suc n) k ≡ (timer_times n k >>= timer_handler)
unfolding timer_times
times_last zero k = bind_ok (timer_handler k)
times_last (suc n) k =
    ap (λ (f : Kernel → Run Kernel). timer_handler k >>= f) (fun_ext (times_last n))
    ∙ sym (bind_assoc (timer_handler k) (timer_times n) timer_handler)

timer_times-suc :
    (n : ℕ) (k k₁ : Kernel) (r : Run Kernel)
    → timer_times n k ≡ ok k₁
    → timer_handler k₁ ≡ r
    → timer_times (suc n) k ≡ r
timer_times-suc n k k₁ r e h = times_last n k ∙ ap (λ (m : Run Kernel). m >>= timer_handler) e ∙ h

-- With interrupts off and its stack not overrun, a task that has `n` ticks left runs for `n + 1` ticks;
-- the last of them gives the processor to the first task of the queue, and the task goes to its end.
pub timer_times-switch :
    (n next : ℕ) (rest : List ℕ) (k : Kernel)
    → IsTicking k
    → (current k).ticks ≡ n
    → k.ready_list ≡ next ∷ rest
    → (k' : Kernel) × (timer_times (suc n) k ≡ ok k')
      × IsKernel k'
      × (k'.running ≡ next)
      × (k'.ready_list ≡ rest ++ k.running ∷ [])
timer_times-switch n next rest k v e q =
    let (k₁, r, w, run, list, time) = timer_times-slice n k v e in
    let (k₂, r₂, is, run₂, list₂, _) =
      timer_handler_yields k₁ w time next (rest ++ k.running ∷ [])
        (ap₂ (λ xs t. xs ++ t ∷ []) (list ∙ q) run) in
    (k₂, timer_times-suc n k k₁ (ok k₂) r r₂, is, run₂, list₂)
