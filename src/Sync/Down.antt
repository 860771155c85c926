-- ===== src/Sync/Down.antt =====
-- `sema_down` and `sema_up` of a binary semaphore.
use oslearn.Base.{
  ℕ, ◌≡◌, refl, ◌≢◌, ◌⊎◌, true, false, List, [], ◌∷◌, ◌++◌, has, Distinct, has-append,
  Distinct-append, arith, ◌==◌, ok, Bool-cases, ==_iff, inl, inr,
}
use oslearn.Interrupt.Status.{intr_disable, intr_set_status, intr_set_status-disable}
use oslearn.Thread.State.{task_ready, task_blocked, Kernel}
use oslearn.Thread.{thread_block, thread_unblock}
use oslearn.Thread.Invariant.{IsKernel, IsKernel-intr}
use oslearn.Thread.Schedule.{thread_block-IsKernel, thread_unblock-IsKernel}
use oslearn.Sync.{Semaphore, returned, waiting, down_loop, sema_down, sema_up}

-- The waiters are blocked, each once, and the value is 0 or 1.
pub record IsSemaphore (s : Semaphore) (k : Kernel) : Type 0 where
  pub blocked : (t : ℕ) → has t s.waiters ≡ true → (k.tasks t).status ≡ task_blocked
  pub distinct : Distinct s.waiters
  pub binary : (s.value ≡ 0) ⊎ (s.value ≡ 1)

-- `sema_down` of a free semaphore takes it and leaves the kernel as it was, the interrupt flag
-- included.
pub sema_down_free :
    (s : Semaphore) (k : Kernel)
    → s.value ≡ 1
    → sema_down s k ≡ ok (returned (record s { value = 0 }) k)
unfolding sema_down down_loop
sema_down_free s k e = simp (e, (intr_set_status-disable k.intr).1)

-- The running task is in no wait queue.
not_waiting :
    (s : Semaphore) (k : Kernel) → IsSemaphore s k → IsKernel k → has k.running s.waiters ≡ false
not_waiting s k w v = elim (Bool-cases (has k.running s.waiters)) [
  | inl e ↦ cc (w.blocked k.running e, v.is_running)
  | inr e ↦ e
]

abbrev masked : Kernel → Kernel
masked k = record k { intr = (intr_disable k.intr).1 }

waiter-blocked :
    (s : Semaphore) (k k' : Kernel) (next t : ℕ)
    → IsSemaphore s k
    → (k'.tasks k.running).status ≡ task_blocked
    → (k.tasks next).status ≡ task_ready
    → ((u : ℕ) → u ≢ k.running → u ≢ next → k'.tasks u ≡ k.tasks u)
    → has t (s.waiters ++ k.running ∷ []) ≡ true
    → (k'.tasks t).status ≡ task_blocked
waiter-blocked s k k' next t w b r others h = elim (Bool-cases (t == k.running)) [
  | inl e ↦ rw ((==_iff t k.running).0 e) b
  | inr e ↦
      let listed : has t s.waiters ≡ true =
        ground (arith, has-append t s.waiters (k.running ∷ [])) in
      let asleep = w.blocked t listed in
      let ne : t ≢ next = λ q. cc (q, asleep, r) in rw (others t (ground arith) ne) asleep
]

abbrev queued : ℕ → Semaphore → Semaphore
queued t s = record s { waiters = s.waiters ++ t ∷ [] }

sema_down-queued :
    (s : Semaphore) (k k' : Kernel)
    → s.value ≡ 0
    → has k.running s.waiters ≡ false
    → thread_block task_blocked (masked k) ≡ ok k'
    → sema_down s k ≡ ok (waiting (intr_disable k.intr).0 (queued k.running s) k')
unfolding sema_down down_loop
sema_down-queued s k k' z h b = simp (z, h, b)

-- `sema_down` of a well-formed semaphore with value 0 puts the running task, blocked, at the end of
-- the wait queue, and gives the processor to the first ready task, where there is one; the
-- invariants of the semaphore and of the kernel hold.
pub sema_down_waits :
    (s : Semaphore) (k : Kernel) (next : ℕ) (rest : List ℕ)
    → IsSemaphore s k
    → IsKernel k
    → s.value ≡ 0
    → k.ready_list ≡ next ∷ rest
    → (s' : Semaphore) × (k' : Kernel) × (sema_down s k
        ≡ ok (waiting (intr_disable k.intr).0 s' k'))
      × (s'.waiters ≡ s.waiters ++ k.running ∷ [])
      × IsSemaphore s' k'
      × IsKernel k'
      × (k'.running ≡ next)
      × (s'.value ≡ 0)
sema_down_waits s k next rest w v z e =
    let free = not_waiting s k w v in
    let ready : has next (next ∷ rest) ≡ true → (k.tasks next).status ≡ task_ready =
      rw e at (v.queue.all_ready next) in
    let (k', r, is, run, _, blocked, _, others) =
      thread_block-IsKernel task_blocked (masked k) next rest refl (IsKernel-intr k _ v) e in
    (
      queued k.running s,
      k',
      sema_down-queued s k k' z free r,
      refl,
      record {
        blocked = λ t h. waiter-blocked s k k' next t w blocked (ready (ground arith)) others h;
        distinct = Distinct-append s.waiters k.running w.distinct free;
        binary = w.binary;
      },
      is,
      run,
      z,
    )

sema_up-woken :
    (s : Semaphore) (k k' : Kernel) (t : ℕ) (ts : List ℕ)
    → s.value ≡ 0
    → s.waiters ≡ t ∷ ts
    → thread_unblock t (masked k) ≡ ok k'
    → sema_up s k
      ≡ ok (
        record s { value = 1; waiters = ts },
        record k' { intr = (intr_set_status (intr_disable k.intr).0 k'.intr).1 },
      )
unfolding sema_up
sema_up-woken s k k' t ts z e r = simp (z, e, r)

-- `sema_up` of a well-formed semaphore with value 0 and with waiters wakes the one that has waited
-- longest and no other: it leaves the wait queue and stands first in the ready queue; the value is
-- 1, and the invariants hold.
pub sema_up_wakes :
    (s : Semaphore) (k : Kernel) (t : ℕ) (ts : List ℕ)
    → IsSemaphore s k
    → IsKernel k
    → s.value ≡ 0
    → s.waiters ≡ t ∷ ts
    → (s' : Semaphore) × (k' : Kernel) × (sema_up s k ≡ ok (s', k'))
      × (s'.value ≡ 1)
      × (s'.waiters ≡ ts)
      × (k'.ready_list ≡ t ∷ k.ready_list)
      × (k'.running ≡ k.running)
      × (k'.intr ≡ k.intr)
      × IsSemaphore s' k'
      × IsKernel k'
sema_up_wakes s k t ts w v z e =
    let listed : has t (t ∷ ts) ≡ true → (k.tasks t).status ≡ task_blocked =
      rw e at (w.blocked t) in
    let asleep = listed (ground arith) in
    let d : Distinct (t ∷ ts) = rw e at w.distinct in
    let others_asleep : (u : ℕ) → has u (t ∷ ts) ≡ true → (k.tasks u).status ≡ task_blocked =
      rw e at w.blocked in
    let (k', r, is, run, list, _, flag, others) =
      thread_unblock-IsKernel t (masked k) (IsKernel-intr k _ v) (rw asleep refl) in
    (
      record s { value = 1; waiters = ts },
      record k' { intr = (intr_set_status (intr_disable k.intr).0 k'.intr).1 },
      sema_up-woken s k k' t ts z e r,
      refl,
      refl,
      list,
      run,
      rw flag (intr_set_status-disable k.intr).1,
      record {
        blocked = λ u h.
            let ne : u ≢ t = λ q. cc (rw q at h, d.0) in
            rw (others u ne) (others_asleep u (ground arith));
        distinct = d.1;
        binary = inr refl;
      },
      IsKernel-intr k' _ is,
    )

-- Without waiters it only frees the semaphore.
pub sema_up_free :
    (s : Semaphore) (k : Kernel)
    → s.value ≡ 0
    → s.waiters ≡ []
    → sema_up s k ≡ ok (record s { value = 1 }, k)
unfolding sema_up
sema_up_free s k z e = simp (z, e, (intr_set_status-disable k.intr).1)
