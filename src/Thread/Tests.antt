-- ===== src/Thread/Tests.antt =====
-- The scheduler on the small kernel state.
use oslearn.Base.{ℕ, ◌≡◌, ◌≢◌, refl, [], ◌∷◌, ok}
use oslearn.Interrupt.Status.{intr_off}
use oslearn.Thread.State.{task_waiting, Kernel}
use oslearn.Thread.{schedule, thread_block}
use oslearn.Thread.Invariant.{IsKernel}
use oslearn.Thread.Schedule.{schedule-round_robin, thread_block-IsKernel}
use oslearn.Thread.Timer.{IsTicking}
use oslearn.Thread.Sample.{sample, sample-IsKernel}

sample-IsTicking : (ticks : ℕ) → IsTicking (sample ticks)
sample-IsTicking ticks = record { kernel = sample-IsKernel ticks; sound = refl; off = refl }

schedule-round_robin_example :
    (k' : Kernel) × (schedule (sample 0) ≡ ok k')
    × IsKernel k'
    × (k'.running ≡ 2)
    × (k'.ready_list ≡ 1 ∷ [])
    × ((k'.tasks 1).ticks ≡ 31)
schedule-round_robin_example =
    schedule-round_robin (sample 0) (sample-IsKernel 0) refl 2 (1 ∷ []) refl

thread_block-IsKernel_example :
    (k' : Kernel) × (thread_block task_waiting (sample 4) ≡ ok k')
    × IsKernel k'
    × (k'.running ≡ 2)
    × (k'.ready_list ≡ [])
    × ((k'.tasks 1).status ≡ task_waiting)
    × (k'.intr ≡ intr_off)
    × ((t : ℕ) → t ≢ 1 → t ≢ 2 → k'.tasks t ≡ (sample 4).tasks t)
thread_block-IsKernel_example =
    thread_block-IsKernel task_waiting (sample 4) 2 [] refl (sample-IsKernel 4) refl
