-- ===== src/Console.antt =====
-- device/console.c: output under a lock. `screen` is what `put_str`, `put_char` and `put_int` have been
-- given so far.
pub mod Locked
mod Tests
use oslearn.Base.{ℕ, List, [], ◌∷◌, ◌++◌, Run, ok, ◌>>=◌}
use oslearn.Interrupt.Status.{IntrStatus}
use oslearn.Thread.State.{Kernel}
use oslearn.Sync.{
  Lock, Outcome, returned, waiting, lock_init, lock_acquire, lock_resume, lock_release,
}

pub record Console : Type 0 where
  pub lock : Lock
  pub screen : List ℕ

unfoldable pub console_init : Console → Console
console_init c = record c { lock = lock_init }

-- The text and the release, once the lock has been asked for.
pub print_locked : List ℕ → Console → Outcome Lock → Run (Outcome Console)
print_locked text c (waiting old_status l k) = ok (waiting old_status (record c { lock = l }) k)
print_locked text c (returned l k) = do
  (l', k') ← lock_release l k
  ok (returned (record { lock = l'; screen = c.screen ++ text }) k')

pub console_put_str : List ℕ → Console → Kernel → Run (Outcome Console)
console_put_str str c k = do o ← lock_acquire c.lock k; print_locked str c o

-- The waiting task runs again.
pub console_resume : IntrStatus → List ℕ → Console → Kernel → Run (Outcome Console)
console_resume old_status str c k = do o ← lock_resume old_status c.lock k; print_locked str c o

pub console_put_char : ℕ → Console → Kernel → Run (Outcome Console)
unfolding console_put_str
console_put_char char_asci c k = console_put_str (char_asci ∷ []) c k

-- `print` is what the screen shows of a number, which is up to `put_int`.
unfoldable pub console_put_int : (ℕ → List ℕ) → ℕ → Console → Kernel → Run (Outcome Console)
unfolding console_put_str
console_put_int print num c k = console_put_str (print num) c k

-- The calls of a task that prints several texts; where one waits the rest is still to come.
unfoldable pub then_print :
    (Console → Kernel → Run (Outcome Console)) → Outcome Console → Run (Outcome Console)
then_print next (waiting old_status c k) = ok (waiting old_status c k)
then_print next (returned c k) = next c k
