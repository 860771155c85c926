-- ===== src/Sync/Held.antt =====
-- `lock_release`, and what becomes of a lock once it has been taken.
use oslearn.Base.{
  false, ℕ, ◌+◌, ◌≡◌, refl, inl, inr, ◌∙◌, arith, ◌==◌, ==-refl, Bool-cases, ◌>>=◌, Run, ok, panic,
  fault, stuck, ap,
}
use oslearn.Interrupt.Status.{IntrStatus}
use oslearn.Thread.State.{Kernel}
use oslearn.Sync.{
  Semaphore, Lock, Outcome, returned, waiting, down_loop, sema_down, sema_resume, take_lock,
  lock_acquire, lock_resume, lock_release,
}

-- Whatever the lock and the kernel, a `lock_release` that returns has only counted down: the holder
-- and the semaphore stay, and no waiter is woken. The rest of the function is not reached.
pub lock_release_keeps :
    (l l' : Lock) (k k' : Kernel)
    → lock_release l k ≡ ok (l', k')
    → (l'.holder ≡ l.holder)
      × (l'.semaphore ≡ l.semaphore)
      × (k' ≡ k)
      × (l.holder_repeat_nr ≡ l'.holder_repeat_nr + 1)
unfolding lock_release
lock_release_keeps l l' k k' e = ground arith

-- Where the count of acquisitions is 0, `lock_release` stops the kernel.
pub lock_release_panic : (l : Lock) (k : Kernel) → l.holder_repeat_nr ≡ 0 → lock_release l k ≡ panic
unfolding lock_release
lock_release_panic l k e = elim (Bool-cases (k.running == l.holder)) [
  | inl own ↦ simp (own, e)
  | inr other ↦ simp other
]

-- A release of what was acquired once.
pub lock_release_once :
    (l : Lock) (k : Kernel)
    → l.holder ≡ k.running
    → l.holder_repeat_nr ≡ 1
    → lock_release l k ≡ ok (record l { holder_repeat_nr = 0 }, k)
unfolding lock_release
lock_release_once l k h one = simp (h, one, ==-refl k.running)

-- A taken lock.
pub record IsHeld (h : ℕ) (l : Lock) : Type 0 where
  pub holder : l.holder ≡ h
  pub value : l.semaphore.value ≡ 0

-- A semaphore with value 0 lets no call of `sema_down` return.
abbrev StillDown : Outcome Semaphore → Type 0
StillDown (returned s k) = ⊥
StillDown (waiting old s k) = s.value ≡ 0

down_loop-StillDown :
    (old : IntrStatus) (s : Semaphore) (k : Kernel) (o : Outcome Semaphore)
    → s.value ≡ 0
    → down_loop old s k ≡ ok o
    → StillDown o
unfolding down_loop
down_loop-StillDown old s k (returned s' k') z e = ground arith
down_loop-StillDown old s k (waiting old' s' k') z e = ground arith

abbrev pub lock_of : Outcome Lock → Lock
lock_of (returned l k) = l
lock_of (waiting old l k) = l

-- The calls that any task may make of a lock, in whatever state the kernel is by then.
pub data LockStep (l : Lock) : Lock → Type 0 where
  acquires : (k : Kernel) (o : Outcome Lock) → lock_acquire l k ≡ ok o → LockStep l (lock_of o)
  resumes :
      (old : IntrStatus) (k : Kernel) (o : Outcome Lock)
      → lock_resume old l k ≡ ok o
      → LockStep l (lock_of o)
  releases : (k k' : Kernel) (l' : Lock) → lock_release l k ≡ ok (l', k') → LockStep l l'

pub data LockReach (l : Lock) : Lock → Type 0 where
  here : LockReach l l
  next : {m n : Lock} → LockReach l m → LockStep m n → LockReach l n

-- The caller waits, and the lock is still held.
abbrev pub Waits : ℕ → Outcome Lock → Type 0
Waits h (returned l k) = ⊥
Waits h (waiting old l k) = IsHeld h l

Waits-IsHeld : {h : ℕ} (o : Outcome Lock) → Waits h o → IsHeld h (lock_of o)
Waits-IsHeld (returned l k) w = absurd w
Waits-IsHeld (waiting old l k) w = w

take_lock-Waits :
    {h : ℕ} (l : Lock) (o : Outcome Semaphore) (o' : Outcome Lock)
    → IsHeld h l
    → StillDown o
    → take_lock l o ≡ ok o'
    → Waits h o'
unfolding take_lock
take_lock-Waits l (returned s k) o' v d e = absurd d
take_lock-Waits l (waiting old s k) (returned l' k') v d e = cc
take_lock-Waits l (waiting old s k) (waiting old' l' k') v d e = record {
  holder = ground (arith, v.holder);
  value = ground arith;
}

then-Waits :
    {h : ℕ} (l : Lock) (m : Run (Outcome Semaphore)) (o : Outcome Lock)
    → IsHeld h l
    → ((o₁ : Outcome Semaphore) → m ≡ ok o₁ → StillDown o₁)
    → (m >>= take_lock l) ≡ ok o
    → Waits h o
then-Waits l (ok o₁) o v down e = take_lock-Waits l o₁ o v (down o₁ refl) e
then-Waits l panic o v down e = cc
then-Waits l fault o v down e = cc
then-Waits l stuck o v down e = cc

again-IsHeld :
    {h : ℕ} (l : Lock) (k : Kernel) (n : ℕ) (o : Outcome Lock)
    → IsHeld h l
    → ok (returned (record l { holder_repeat_nr = n }) k) ≡ ok o
    → IsHeld h (lock_of o)
again-IsHeld l k n (returned l' k') v e = ground arith
again-IsHeld l k n (waiting old l' k') v e = cc

-- A held lock makes every other task wait.
pub acquire-Waits :
    {h : ℕ} (l : Lock) (k : Kernel) (o : Outcome Lock)
    → IsHeld h l
    → (k.running == l.holder) ≡ false
    → lock_acquire l k ≡ ok o
    → Waits h o
unfolding lock_acquire sema_down
acquire-Waits l k o v other e =
    then-Waits l (sema_down l.semaphore k) o v
      (λ o₁ q. down_loop-StillDown _ l.semaphore _ o₁ v.value q) (simp other at e)

-- A task that waits for a held lock goes on waiting.
pub resume-Waits :
    {h : ℕ} (old : IntrStatus) (l : Lock) (k : Kernel) (o : Outcome Lock)
    → IsHeld h l
    → lock_resume old l k ≡ ok o
    → Waits h o
unfolding lock_resume sema_resume
resume-Waits old l k o v e =
    then-Waits l (sema_resume old l.semaphore k) o v
      (λ o₁ q. down_loop-StillDown _ l.semaphore _ o₁ v.value q) e

acquire-IsHeld :
    {h : ℕ} (l : Lock) (k : Kernel) (o : Outcome Lock)
    → IsHeld h l
    → lock_acquire l k ≡ ok o
    → IsHeld h (lock_of o)
unfolding lock_acquire
acquire-IsHeld l k o v e = elim (Bool-cases (k.running == l.holder)) [
  | inl own ↦ again-IsHeld l k _ o v (simp own at e)
  | inr other ↦ Waits-IsHeld o (acquire-Waits l k o v other e)
]

LockStep-IsHeld : {h : ℕ} {l l' : Lock} → LockStep l l' → IsHeld h l → IsHeld h l'
LockStep-IsHeld {l} (acquires k o e) v = acquire-IsHeld l k o v e
LockStep-IsHeld {l} (resumes old k o e) v = Waits-IsHeld o (resume-Waits old l k o v e)
LockStep-IsHeld {l} (releases k k' l' e) v =
    let (same, sema, _, _) = lock_release_keeps l l' k k' e in
    record { holder = same ∙ v.holder; value = ap (λ s. s.value) sema ∙ v.value }

-- Once a task has taken a lock it holds it for ever: whatever calls of `lock_acquire` and
-- `lock_release` are made of it and return or wait, by whichever tasks, the holder stays and the
-- semaphore stays down.
pub LockReach-IsHeld : {h : ℕ} {l l' : Lock} → IsHeld h l → LockReach l l' → IsHeld h l'
LockReach-IsHeld v here = v
LockReach-IsHeld v (next r s) = LockStep-IsHeld s (LockReach-IsHeld v r)
