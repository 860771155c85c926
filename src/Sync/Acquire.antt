-- ===== src/Sync/Acquire.antt =====
-- `lock_acquire`: a free lock, one's own, and one that another task holds.
use oslearn.Base.{
  ℕ, ◌+◌, ◌^◌, ◌<◌, ◌≡◌, refl, ◌≢◌, inl, inr, true, false, List, [], ◌∷◌, ◌++◌, arith, ◌==◌, u32,
  ok,
}
use oslearn.Interrupt.Status.{IntrStatus, intr_disable}
use oslearn.Thread.State.{Kernel}
use oslearn.Thread.Invariant.{IsKernel}
use oslearn.Sync.{Semaphore, Lock, returned, waiting, take_lock, lock_init, sema_init, lock_acquire}
use oslearn.Sync.Down.{IsSemaphore, sema_down_free, sema_down_waits}

-- A lock is free, with nobody waiting, or it is taken.
pub record IsLock (l : Lock) (k : Kernel) : Type 0 where
  pub semaphore : IsSemaphore l.semaphore k
  pub free : l.holder ≡ 0 → (l.semaphore.value ≡ 1) × (l.holder_repeat_nr ≡ 0)
  pub taken : l.holder ≢ 0 → l.semaphore.value ≡ 0

-- A fresh lock is well formed and free.
pub lock_init-IsLock : (k : Kernel) → IsLock lock_init k × (lock_init.holder ≡ 0)
unfolding lock_init sema_init
lock_init-IsLock k = (
  record {
    semaphore = record { blocked = λ t h. cc; distinct = tt; binary = inr refl };
    free = λ h. (refl, refl);
    taken = λ h. absurd (h refl);
  },
  refl,
)

take_lock-returned :
    (l : Lock) (s : Semaphore) (k : Kernel)
    → l.holder_repeat_nr ≡ 0
    → take_lock l (returned s k)
      ≡ ok (returned (record l { semaphore = s; holder = k.running; holder_repeat_nr = 1 }) k)
unfolding take_lock
take_lock-returned l s k e = simp e

abbrev pub taken_by : ℕ → Lock → Lock
taken_by t l = record l {
  semaphore = record (l.semaphore) { value = 0 };
  holder = t;
  holder_repeat_nr = 1;
}

pub lock_acquire_open :
    (l : Lock) (k : Kernel)
    → l.holder ≡ 0
    → l.semaphore.value ≡ 1
    → l.holder_repeat_nr ≡ 0
    → k.running ≢ 0
    → lock_acquire l k ≡ ok (returned (taken_by k.running l) k)
unfolding lock_acquire
lock_acquire_open l k e one nr h =
    let other : (k.running == l.holder) ≡ false = ground arith in
    simp (other, sema_down_free l.semaphore k one) (take_lock-returned l _ k nr)

-- A free lock goes to the running task, which does not wait; nothing in the kernel changes.
pub lock_acquire_free :
    (l : Lock) (k : Kernel)
    → IsLock l k
    → l.holder ≡ 0
    → k.running ≢ 0
    → (l' : Lock) × (lock_acquire l k ≡ ok (returned l' k))
      × IsLock l' k
      × (l'.holder ≡ k.running)
      × (l'.semaphore.value ≡ 0)
      × (l'.holder_repeat_nr ≡ 1)
lock_acquire_free l k v e h =
    let (one, nr) = v.free e in
    (
      taken_by k.running l,
      lock_acquire_open l k e one nr h,
      record {
        semaphore = record {
          blocked = v.semaphore.blocked;
          distinct = v.semaphore.distinct;
          binary = inl refl;
        };
        free = λ z. absurd (h z);
        taken = λ z. refl;
      },
      refl,
      refl,
      refl,
    )

-- The holder of a lock gets it again at once; the calls are counted.
pub lock_acquire_again :
    (l : Lock) (k : Kernel)
    → l.holder ≡ k.running
    → l.holder_repeat_nr + 1 < 2 ^ 32
    → lock_acquire l k ≡ ok (returned (record l { holder_repeat_nr = l.holder_repeat_nr + 1 }) k)
unfolding lock_acquire
lock_acquire_again l k e h =
    let own : (k.running == l.holder) ≡ true = ground arith in
    let n : u32 (l.holder_repeat_nr + 1) ≡ l.holder_repeat_nr + 1 = omega arith in simp (own, n)

take_lock-waiting :
    (l : Lock) (old : IntrStatus) (s : Semaphore) (k : Kernel)
    → take_lock l (waiting old s k) ≡ ok (waiting old (record l { semaphore = s }) k)
unfolding take_lock
take_lock-waiting l old s k = refl

-- `lock_acquire` of a well-formed lock that another task holds makes the running task wait: it
-- stands at the end of the wait queue, the holder stays, and the first ready task runs, where there
-- is one; the invariants hold.
pub lock_acquire_waits :
    (l : Lock) (k : Kernel) (next : ℕ) (rest : List ℕ)
    → IsLock l k
    → IsKernel k
    → l.holder ≢ 0
    → l.holder ≢ k.running
    → k.ready_list ≡ next ∷ rest
    → (l' : Lock) × (k' : Kernel) × (lock_acquire l k ≡ ok (waiting (intr_disable k.intr).0 l' k'))
      × IsLock l' k'
      × IsKernel k'
      × (l'.holder ≡ l.holder)
      × (l'.semaphore.waiters ≡ l.semaphore.waiters ++ k.running ∷ [])
      × (k'.running ≡ next)
unfolding lock_acquire
lock_acquire_waits l k next rest v w h ne e =
    let (s', k', r, queue, is, kernel, run, zero) =
      sema_down_waits l.semaphore k next rest v.semaphore w (v.taken h) e in
    let other : (k.running == l.holder) ≡ false = ground arith in
    (
      record l { semaphore = s' },
      k',
      simp (other, r) (take_lock-waiting l _ s' k'),
      record { semaphore = is; free = λ z. absurd (h z); taken = λ z. zero },
      kernel,
      refl,
      queue,
      run,
    )
