-- ===== src/Sync/Tests.antt =====
-- Semaphores and locks on the small kernel state.
use oslearn.Base.{ℕ, ◌≡◌, refl, inl, [], ◌∷◌, arith, ok}
use oslearn.Interrupt.Status.{intr_off, intr_disable}
use oslearn.Thread.State.{Kernel}
use oslearn.Thread.Invariant.{IsKernel}
use oslearn.Thread.Sample.{sample, sample-IsKernel}
use oslearn.Sync.{Semaphore, Lock, waiting, sema_down, sema_up, lock_release}
use oslearn.Sync.Down.{IsSemaphore, sema_down_waits, sema_up_wakes}
use oslearn.Sync.Held.{IsHeld, LockReach, LockStep, LockReach-IsHeld}

-- Task 3 waits for the semaphore.
abbrev one_waiter : Semaphore
one_waiter = record { value = 0; waiters = 3 ∷ [] }

one_waiter-IsSemaphore : IsSemaphore one_waiter (sample 4)
one_waiter-IsSemaphore = record {
  blocked = λ t h. ground arith;
  distinct = (refl, tt);
  binary = inl refl;
}

-- The running task has the lock.
abbrev own : ℕ → Lock
own n = record { holder = 1; semaphore = one_waiter; holder_repeat_nr = n }

sema_down_waits_example :
    (s' : Semaphore) × (k' : Kernel) × (sema_down one_waiter (sample 4)
      ≡ ok (waiting (intr_disable intr_off).0 s' k'))
    × (s'.waiters ≡ 3 ∷ 1 ∷ [])
    × IsSemaphore s' k'
    × IsKernel k'
    × (k'.running ≡ 2)
    × (s'.value ≡ 0)
sema_down_waits_example =
    sema_down_waits one_waiter (sample 4) 2 [] one_waiter-IsSemaphore (sample-IsKernel 4) refl refl

sema_up_wakes_example :
    (s' : Semaphore) × (k' : Kernel) × (sema_up one_waiter (sample 4) ≡ ok (s', k'))
    × (s'.value ≡ 1)
    × (s'.waiters ≡ [])
    × (k'.ready_list ≡ 3 ∷ 2 ∷ [])
    × (k'.running ≡ 1)
    × (k'.intr ≡ intr_off)
    × IsSemaphore s' k'
    × IsKernel k'
sema_up_wakes_example =
    sema_up_wakes one_waiter (sample 4) 3 [] one_waiter-IsSemaphore (sample-IsKernel 4) refl refl

released : lock_release (own 1) (sample 4) ≡ ok (own 0, sample 4)
unfolding lock_release
released = refl

LockReach-IsHeld_example : IsHeld 1 (own 0)
LockReach-IsHeld_example =
    LockReach-IsHeld (record { holder = refl; value = refl })
      (LockReach.next LockReach.here (LockStep.releases (sample 4) (sample 4) (own 0) released))
