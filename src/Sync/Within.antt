-- ===== src/Sync/Within.antt =====
-- Locks that the running task gets at once.
use oslearn.Base.{◌+◌, ◌≡◌, ◌≢◌, ◌⊎◌, inl, inr, refl, ap, ok, arith}
use oslearn.Thread.State.{Kernel}
use oslearn.Sync.{Lock, returned, lock_acquire}
use oslearn.Sync.Acquire.{taken_by, lock_acquire_open, lock_acquire_again}

-- The lock is free, or the running task has it already and does not count on it.
pub record IsWithin (l : Lock) (k : Kernel) : Type 0 where
  pub count : l.holder_repeat_nr ≡ 0
  pub near : ((l.holder ≡ 0) × (l.semaphore.value ≡ 1) × (k.running ≢ 0)) ⊎ (l.holder ≡ k.running)

pub lock_acquire-first :
    (l : Lock) (k : Kernel)
    → IsWithin l k
    → (l' : Lock) × (lock_acquire l k ≡ ok (returned l' k))
      × (l'.holder ≡ k.running)
      × (l'.holder_repeat_nr ≡ 1)
lock_acquire-first l k w = elim w.near [
  | inl (free, one, ne) ↦
      (taken_by k.running l, lock_acquire_open l k free one w.count ne, refl, refl)
  | inr own ↦ (
    record l { holder_repeat_nr = l.holder_repeat_nr + 1 },
    lock_acquire_again l k own (omega (arith, w.count)),
    own,
    ap (λ n. n + 1) w.count,
  )
]
