-- ===== src/Machine/Walk.antt =====
-- How a walk, a load and a store go, by the entries on the way.
use oslearn.Base.{ℕ, ◌+◌, ◌*◌, ◌/◌, ◌%◌, ◌≡◌, none, some, ok, arith}
use oslearn.Machine.{Machine, frame_of, pde_addr, pte_addr, walk, load, store, put_word}

pub walk_mapped :
    (m : Machine) (v d t : ℕ)
    → m.words (pde_addr m v) ≡ d
    → d % 2 ≡ 1
    → m.words (frame_of d + v / 4096 % 1024 * 4) ≡ t
    → t % 2 ≡ 1
    → walk m v ≡ some (frame_of t + v % 4096)
unfolding walk
walk_mapped m v d t e h f k = simp (e, h, f, k)

pub walk_no_table : (m : Machine) (v : ℕ) → m.words (pde_addr m v) % 2 ≡ 0 → walk m v ≡ none
unfolding walk
walk_no_table m v h = simp h

pub walk_no_page : (m : Machine) (v : ℕ) → m.words (pte_addr m v) % 2 ≡ 0 → walk m v ≡ none
unfolding walk
walk_no_page m v h = ground arith

-- The walk reads two words, and goes the same way where these are the same.
pub walk_same :
    (m m' : Machine) (v : ℕ)
    → m'.cr3 ≡ m.cr3
    → m'.words (pde_addr m v) ≡ m.words (pde_addr m v)
    → m'.words (pte_addr m v) ≡ m.words (pte_addr m v)
    → walk m' v ≡ walk m v
unfolding walk
walk_same m m' v c d t = simp (c, d, t)

-- So it does in another directory whose entry for the address is the same.
pub walk_entry :
    (m m' : Machine) (v : ℕ)
    → m'.words (pde_addr m' v) ≡ m.words (pde_addr m v)
    → m'.words (pte_addr m' v) ≡ m.words (pte_addr m v)
    → walk m' v ≡ walk m v
unfolding walk
walk_entry m m' v d t = ground arith

pub load_at : (m : Machine) (v a : ℕ) → walk m v ≡ some a → load m v ≡ ok (m.words a)
unfolding load
load_at m v a e = simp e

pub store_at : (m : Machine) (v a x : ℕ) → walk m v ≡ some a → store m v x ≡ ok (put_word a x m)
unfolding store
store_at m v a x e = simp e

-- What a successful walk has read.
pub walk-some :
    (m : Machine) (v a : ℕ)
    → walk m v ≡ some a
    → (m.words (pde_addr m v) % 2 ≡ 1)
      × (m.words (pte_addr m v) % 2 ≡ 1)
      × (a ≡ frame_of (m.words (pte_addr m v)) + v % 4096)
unfolding walk
walk-some m v a e = ground arith

-- A failed walk with a table has met an absent page.
pub walk-none :
    (m : Machine) (v : ℕ)
    → walk m v ≡ none
    → m.words (pde_addr m v) % 2 ≡ 1
    → m.words (pte_addr m v) % 2 ≡ 0
unfolding walk
walk-none m v e d = ground arith
