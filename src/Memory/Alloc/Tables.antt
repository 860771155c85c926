-- ===== src/Memory/Alloc/Tables.antt =====
-- The page tables of the kernel's half of the address space, which the loader has made: 0xc0000000 up
-- to the last 4 MB, where the tables themselves show.
use oslearn.Base.{ℕ, ◌/◌, ◌%◌, ◌<◌, ◌≤◌, ◌≡◌, ◌≢◌, inl, inr, ap, sym, ◌∙◌, arith, Bool-cases, ◌==◌}
use oslearn.Machine.{Machine, frame_of, pde_addr, pte_addr}
use oslearn.Memory.Paging.SelfMap.{IsDirectory}
use oslearn.Memory.Paging.Table.{IsFree, Maps}

abbrev pub InKernel : ℕ → Type 0
InKernel u = (0xc0000000 ≤ u) × (u < 0xffc00000)

-- Every 4 MB there have a table of their own, and none of these is the directory.
pub record HasTables (m : Machine) : Type 0 where
  pub directory : IsDirectory m
  pub table : (u : ℕ) → InKernel u → m.words (pde_addr m u) % 2 ≡ 1
  pub apart : (u : ℕ) → InKernel u → frame_of (m.words (pde_addr m u)) ≢ m.cr3
  pub own :
      (u w : ℕ)
      → InKernel u
      → InKernel w
      → u / 4194304 ≢ w / 4194304
      → frame_of (m.words (pde_addr m u)) ≢ frame_of (m.words (pde_addr m w))

-- No page is mapped at the address.
abbrev pub Unmapped : Machine → ℕ → Type 0
Unmapped m u = m.words (pte_addr m u) % 2 ≡ 0

pub Unmapped-IsFree : {m : Machine} (v : ℕ) → HasTables m → InKernel v → Unmapped m v → IsFree m v
Unmapped-IsFree v t k e = record { table = t.table v k; apart = t.apart v k; free = e }

-- Addresses on different pages have different entries.
pub entries_apart :
    {m : Machine} (u v : ℕ)
    → HasTables m
    → InKernel u
    → InKernel v
    → u / 4096 ≢ v / 4096
    → pte_addr m u ≢ pte_addr m v
entries_apart {m} u v t ku kv ne e = elim (Bool-cases (u / 4194304 == v / 4194304)) [
  | inl d ↦
      let near : u / 4194304 ≡ v / 4194304 = ground arith in
      let same : m.words (pde_addr m u) ≡ m.words (pde_addr m v) = ap m.words (omega arith) in
      ne (omega arith)
  | inr d ↦ t.own u v ku kv (λ q. ground arith) (omega arith)
]

pub kept_table :
    {m m' : Machine} (v frame u : ℕ)
    → Maps m m' v frame
    → InKernel u
    → m'.words (pde_addr m' u) ≡ m.words (pde_addr m u)
kept_table {m} {m'} v frame u x k = ap m'.words (omega (arith, x.cr3)) ∙ x.directory u (omega arith)

pub Maps-HasTables :
    {m m' : Machine} (v frame : ℕ) → HasTables m → IsDirectory m' → Maps m m' v frame → HasTables m'
Maps-HasTables {m} {m'} v frame t d x = record {
  directory = d;
  table = λ u k. ap (λ w. w % 2) (kept_table v frame u x k) ∙ t.table u k;
  apart = λ u k e. t.apart u k (ap frame_of (sym (kept_table v frame u x k)) ∙ e ∙ x.cr3);
  own = λ u w ku kw ne e.
      t.own u w ku kw ne (
        ap frame_of (sym (kept_table v frame u x ku))
        ∙ e
        ∙ ap frame_of (kept_table v frame w x kw));
}

pub Maps-Unmapped :
    {m m' : Machine} (v frame u : ℕ)
    → HasTables m
    → Maps m m' v frame
    → InKernel v
    → InKernel u
    → u / 4096 ≢ v / 4096
    → Unmapped m u
    → Unmapped m' u
Maps-Unmapped {m} {m'} v frame u t x kv ku ne e =
    let d = kept_table v frame u x ku in
    ap (λ a. m'.words a % 2) (omega arith)
    ∙ ap (λ w. w % 2) (x.entries u (entries_apart u v t ku kv ne))
    ∙ e
