-- ===== src/Base/Table.antt =====
-- Facts about all values of a small range, by evaluation.
use Prim.Native.Nat.{ℕ, zero, suc, ◌<◌}
use mathlib.Core.Path.{◌≡◌}
use mathlib.Core.Bool.{Bool, true, false, not, ◌&&◌}
use native.Mathlib.Omega.{arith}

unfoldable pub every_below : ℕ → (ℕ → Bool) → Bool
every_below zero holds = true
every_below (suc top) holds = every_below top holds && holds top

pub every_below_lem :
    (top : ℕ) (holds : ℕ → Bool) (i : ℕ) → every_below top holds ≡ true → i < top → holds i ≡ true
unfolding every_below
every_below_lem zero holds i all lt = absurd (omega arith)
every_below_lem (suc top) holds i all lt = ground (arith, every_below_lem top holds i)

-- Two ranges and three.
pub every_below₂_lem :
    (n m : ℕ) (p : ℕ → ℕ → Bool) (x y : ℕ)
    → every_below n (λ a. every_below m (p a)) ≡ true
    → x < n
    → y < m
    → p x y ≡ true
every_below₂_lem n m p x y h hx hy =
    every_below_lem m (p x) y (every_below_lem n (λ a. every_below m (p a)) x h hx) hy

pub every_below₃_lem :
    (n m k : ℕ) (p : ℕ → ℕ → ℕ → Bool) (x y z : ℕ)
    → every_below n (λ a. every_below m (λ b. every_below k (p a b))) ≡ true
    → x < n
    → y < m
    → z < k
    → p x y z ≡ true
every_below₃_lem n m k p x y z h hx hy hz =
    every_below₂_lem m k (p x) y z
      (every_below_lem n (λ a. every_below m (λ b. every_below k (p a b))) x h hx) hy hz

abbrev pub agree : Bool → Bool → Bool
agree true b = b
agree false b = not b

pub agree→eq : (a b : Bool) → agree a b ≡ true → a ≡ b
agree→eq a b h = ground arith
