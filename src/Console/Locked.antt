-- ===== src/Console/Locked.antt =====
-- Who gets to print.
use oslearn.Base.{
  ℕ, ◌≡◌, ◌≢◌, refl, ◌∙◌, ==_of_ne, List, ◌++◌, ◌∷◌, [], Run, ok, panic, fault, stuck, ◌>>=◌, arith,
}
use oslearn.Interrupt.Status.{IntrStatus}
use oslearn.Thread.State.{Kernel}
use oslearn.Sync.{Lock, Outcome, returned, waiting, lock_acquire, lock_resume}
use oslearn.Sync.Acquire.{taken_by, lock_acquire_open}
use oslearn.Sync.Within.{IsWithin, lock_acquire-first}
use oslearn.Sync.Held.{IsHeld, Waits, acquire-Waits, resume-Waits, lock_release_once}
use oslearn.Console.{Console, print_locked, console_put_str, console_put_char, console_resume}

abbrev pub console_of : Outcome Console → Console
console_of (returned c k) = c
console_of (waiting old c k) = c

-- What other tasks than `h` may do: ask to print, and go on when they are scheduled again.
pub data OtherStep (h : ℕ) (c : Console) : Console → Type 0 where
  puts :
      (str : List ℕ) (k : Kernel) (o : Outcome Console)
      → k.running ≢ h
      → console_put_str str c k ≡ ok o
      → OtherStep h c (console_of o)
  resumes :
      (old : IntrStatus) (str : List ℕ) (k : Kernel) (o : Outcome Console)
      → console_resume old str c k ≡ ok o
      → OtherStep h c (console_of o)

pub data OtherReach (h : ℕ) (c : Console) : Console → Type 0 where
  here : OtherReach h c c
  next : {d e : Console} → OtherReach h c d → OtherStep h d e → OtherReach h c e

-- The lock is the task's, and the screen shows what it showed.
pub record Silent (h : ℕ) (screen : List ℕ) (c : Console) : Type 0 where
  pub held : IsHeld h c.lock
  pub same : c.screen ≡ screen

print_locked-Silent :
    {h : ℕ} (str : List ℕ) (c : Console) (m : Run (Outcome Lock)) (o : Outcome Console)
    → ((o₁ : Outcome Lock) → m ≡ ok o₁ → Waits h o₁)
    → (m >>= print_locked str c) ≡ ok o
    → Silent h c.screen (console_of o)
unfolding print_locked
print_locked-Silent str c (ok (returned l k)) o w e = absurd (w _ refl)
print_locked-Silent str c (ok (waiting old l k)) (returned d k') w e = cc
print_locked-Silent str c (ok (waiting old l k)) (waiting old' d k') w e =
    let h = w _ refl in
    record {
      held = record { holder = ground (arith, h.holder); value = ground (arith, h.value) };
      same = ground arith;
    }
print_locked-Silent str c panic o w e = cc
print_locked-Silent str c fault o w e = cc
print_locked-Silent str c stuck o w e = cc

OtherStep-Silent : {h : ℕ} {c d : Console} → OtherStep h c d → IsHeld h c.lock → Silent h c.screen d
unfolding console_put_str console_resume
OtherStep-Silent {h} {c} (puts str k o ne e) v =
    print_locked-Silent str c (lock_acquire c.lock k) o
      (λ o₁ q.
        acquire-Waits c.lock k o₁ v (==_of_ne k.running c.lock.holder (λ z. ne (z ∙ v.holder))) q)
      e
OtherStep-Silent {h} {c} (resumes old str k o e) v =
    print_locked-Silent str c (lock_resume old c.lock k) o
      (λ o₁ q. resume-Waits old c.lock k o₁ v q) e

OtherReach-Silent :
    {h : ℕ} {c d : Console} → OtherReach h c d → IsHeld h c.lock → Silent h c.screen d
OtherReach-Silent here v = record { held = v; same = refl }
OtherReach-Silent (next r s) v =
    let before = OtherReach-Silent r v in
    let after = OtherStep-Silent s before.held in
    record { held = after.held; same = after.same ∙ before.same }

put_str_steps :
    (str : List ℕ) (c : Console) (k : Kernel) (l : Lock)
    → lock_acquire c.lock k ≡ ok (returned l k)
    → l.holder ≡ k.running
    → l.holder_repeat_nr ≡ 1
    → console_put_str str c k
      ≡ ok (
          returned
            (record { lock = record l { holder_repeat_nr = 0 }; screen = c.screen ++ str })
            k)
unfolding console_put_str print_locked
put_str_steps str c k l r h one = simp (r, lock_release_once l k h one)

-- A task that can have the lock at once prints, and keeps the lock.
pub console_put_str_within :
    (str : List ℕ) (c : Console) (k : Kernel)
    → IsWithin c.lock k
    → (c' : Console) × (console_put_str str c k ≡ ok (returned c' k))
      × (c'.screen ≡ c.screen ++ str)
      × (c'.lock.holder ≡ k.running)
      × (c'.lock.holder_repeat_nr ≡ 0)
console_put_str_within str c k w =
    let (l, r, h, one) = lock_acquire-first c.lock k w in
    (
      record { lock = record l { holder_repeat_nr = 0 }; screen = c.screen ++ str },
      put_str_steps str c k l r h one,
      refl,
      h,
      refl,
    )

pub console_put_char_within :
    (char_asci : ℕ) (c : Console) (k : Kernel)
    → IsWithin c.lock k
    → (c' : Console) × (console_put_char char_asci c k ≡ ok (returned c' k))
      × (c'.screen ≡ c.screen ++ char_asci ∷ [])
      × (c'.lock.holder ≡ k.running)
      × (c'.lock.holder_repeat_nr ≡ 0)
unfolding console_put_char
console_put_char_within char_asci c k w = console_put_str_within (char_asci ∷ []) c k w

-- The first task that prints, on a console with a free lock, prints at once and leaves the kernel as
-- it was. From then on whatever other tasks ask for and however often they are woken, nothing of
-- theirs is printed.
pub console_put_str_alone :
    (str : List ℕ) (c : Console) (k : Kernel)
    → c.lock.holder ≡ 0
    → c.lock.semaphore.value ≡ 1
    → c.lock.holder_repeat_nr ≡ 0
    → k.running ≢ 0
    → (c' : Console) × (console_put_str str c k ≡ ok (returned c' k))
      × (c'.screen ≡ c.screen ++ str)
      × ((d : Console) → OtherReach k.running c' d → d.screen ≡ c.screen ++ str)
console_put_str_alone str c k free one nr ne = (
  record {
    lock = record (taken_by k.running c.lock) { holder_repeat_nr = 0 };
    screen = c.screen ++ str;
  },
  put_str_steps str c k (taken_by k.running c.lock) (lock_acquire_open c.lock k free one nr ne) refl
      refl,
  refl,
  λ d r. (OtherReach-Silent r (record { holder = refl; value = refl })).same,
)
