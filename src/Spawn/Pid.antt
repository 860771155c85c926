-- ===== src/Spawn/Pid.antt =====
-- `allocate_pid` where the lock of the pids can be had at once.
use oslearn.Base.{◌+◌, ◌≡◌, inr, refl, u16, ok}
use oslearn.Sync.{Lock}
use oslearn.Sync.Within.{IsWithin, lock_acquire-first}
use oslearn.Sync.Held.{lock_release_once}
use oslearn.Spawn.{System, allocated, with_pid_lock, allocate_pid}

-- `allocate_pid` where the lock can be had gives the next number in 16 bits and leaves the kernel as
-- it was; the running task keeps the lock.
pub allocate_pid_next :
    (s : System)
    → IsWithin s.pid_lock s.kernel
    → (l : Lock) × (allocate_pid s
        ≡ ok (
            allocated
              (u16 (s.next_pid + 1))
              (record s { pid_lock = l; next_pid = u16 (s.next_pid + 1) })))
      × IsWithin l s.kernel
      × (l.holder ≡ s.kernel.running)
unfolding allocate_pid with_pid_lock
allocate_pid_next s w =
    let (l, r, h, one) = lock_acquire-first s.pid_lock s.kernel w in
    (
      record l { holder_repeat_nr = 0 },
      simp (r, lock_release_once l s.kernel h one),
      record { count = refl; near = inr h },
      h,
    )
