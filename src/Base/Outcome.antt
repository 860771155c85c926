-- ===== src/Base/Outcome.antt =====
-- How a call ends. The kernel is built with assertions on: `ASSERT` and `PANIC` end in the endless
-- loop of `panic_spin` (kernel/debug.c), here `panic`.
use mathlib.Core.Path.{◌≡◌, refl}
use mathlib.Core.Bool.{Bool, true, false}
use mathlib.Core.Option.{Option, none, some}

-- `fault` is an access outside the memory that the model gives the call, `stuck` a loop that was
-- given too few rounds.
pub data Run {ℓ} (A : Type ℓ) : Type ℓ where
  ok : A → Run A
  panic fault stuck : Run A

infixl 5 ◌>>=◌ ◌>>◌
abbrev pub ◌>>=◌ {ℓ κ} : {A : Type ℓ} {B : Type κ} → Run A → (A → Run B) → Run B
ok a >>= k = k a
panic >>= k = panic
fault >>= k = fault
stuck >>= k = stuck

abbrev pub ◌>>◌ {ℓ} : {B : Type ℓ} → Run (Unit {0}) → Run B → Run B
m >> n = m >>= λ _. n

-- `ASSERT(condition)`
abbrev pub assert : Bool → Run (Unit {0})
assert true = ok tt
assert false = panic

-- a read that may be out of range
abbrev pub read {ℓ} : {A : Type ℓ} → Option A → Run A
read none = fault
read (some a) = ok a

pub bind_ok : {A : Type 0} (x : Run A) → (x >>= λ a. ok a) ≡ x
bind_ok (ok a) = refl
bind_ok panic = refl
bind_ok fault = refl
bind_ok stuck = refl

pub bind_assoc :
    {A B C : Type 0} (x : Run A) (f : A → Run B) (g : B → Run C)
    → ((x >>= f) >>= g) ≡ (x >>= λ a. f a >>= g)
bind_assoc (ok a) f g = refl
bind_assoc panic f g = refl
bind_assoc fault f g = refl
bind_assoc stuck f g = refl
