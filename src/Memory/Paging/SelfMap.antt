-- ===== src/Memory/Paging/SelfMap.antt =====
-- `pte_ptr` and `pde_ptr` point at the entries of an address, and `addr_v2p` agrees with the walk.
use oslearn.Base.{ℕ, ◌+◌, ◌*◌, ◌/◌, ◌%◌, ◌^◌, ◌<◌, ◌≡◌, ap, ◌∙◌, bit_and, bit_or, some, ok, arith}
use oslearn.Base.Bits.{bit_and_low, bit_and_field, bit_or-fields}
use oslearn.Machine.{Machine, frame_of, pde_addr, pte_addr, walk}
use oslearn.Machine.Walk.{walk_mapped, walk-some, load_at}
use oslearn.Memory.Paging.{pte_ptr, pde_ptr, entry_for, addr_v2p}

-- The directory stands in a frame, and its last entry leads to itself.
pub record IsDirectory (m : Machine) : Type 0 where
  pub aligned : m.cr3 % 4096 ≡ 0
  pub self_present : m.words (m.cr3 + 4092) % 2 ≡ 1
  pub self_frame : frame_of (m.words (m.cr3 + 4092)) ≡ m.cr3

high_ten : (v : ℕ) → bit_and v 0xffc00000 ≡ v / 4194304 % 1024 * 4194304
high_ten v = bit_and_field 10 22 v

middle_ten : (v : ℕ) → bit_and v 0x3ff000 ≡ v / 4096 % 1024 * 4096
middle_ten v = bit_and_field 10 12 v

-- The pointers in arithmetic.
pub pte_ptr_lem : (v : ℕ) → v < 2 ^ 32 → pte_ptr v ≡ 0xffc00000 + v / 4096 * 4
unfolding pte_ptr
pte_ptr_lem v h =
    let d : bit_and v 0xffc00000 / 1024 ≡ v / 4194304 * 4096 = omega (arith, high_ten v) in
    let t : bit_and v 0x3ff000 / 4096 * 4 ≡ v / 4096 % 1024 * 4 = omega (arith, middle_ten v) in
    ap (λ x. bit_or (bit_or 0xffc00000 x) (bit_and v 0x3ff000 / 4096 * 4)) d
    ∙ ap (λ x. bit_or (bit_or 0xffc00000 (v / 4194304 * 4096)) x) t
    ∙ ap (λ x. bit_or x (v / 4096 % 1024 * 4))
        (bit_or-fields 22 1023 (v / 4194304 * 4096) (omega arith))
    ∙ ap (λ x. bit_or x (v / 4096 % 1024 * 4)) (omega arith)
    ∙ bit_or-fields 12 (1023 * 1024 + v / 4194304) (v / 4096 % 1024 * 4) (omega arith)
    ∙ omega arith

pub pde_ptr_lem : (v : ℕ) → v < 2 ^ 32 → pde_ptr v ≡ 0xfffff000 + v / 4194304 * 4
unfolding pde_ptr
pde_ptr_lem v h =
    let d : bit_and v 0xffc00000 / 4194304 * 4 ≡ v / 4194304 * 4 = omega (arith, high_ten v) in
    ap (λ x. bit_or 0xfffff000 x) d ∙ bit_or-fields 12 0xfffff (v / 4194304 * 4) (omega arith)

pub entry_for_lem : (f : ℕ) → f % 4096 ≡ 0 → entry_for f ≡ f + 7
unfolding entry_for
entry_for_lem f h =
    ap (λ x. bit_or (bit_or (bit_or x 4) 2) 1) (omega arith)
    ∙ ap (λ x. bit_or (bit_or x 2) 1) (bit_or-fields 3 (f / 8) 4 (omega arith))
    ∙ ap (λ x. bit_or (bit_or x 2) 1) (omega arith)
    ∙ ap (λ x. bit_or x 1) (bit_or-fields 2 (f / 4 + 1) 2 (omega arith))
    ∙ ap (λ x. bit_or x 1) (omega arith)
    ∙ bit_or-fields 1 (f / 2 + 3) 1 (omega arith)
    ∙ omega arith

module _ {m : Machine} (s : IsDirectory m) (v : ℕ) (h : v < 2 ^ 32) where
  -- An address in the last 4 MB has the directory for its table.
  self_entry : (p : ℕ) → p / 4194304 ≡ 1023 → m.words (pde_addr m p) ≡ m.words (m.cr3 + 4092)
  self_entry p e = ap m.words (omega arith)

  -- Through the pointer of `pde_ptr` one reaches the directory entry of the address.
  pub walk-pde_ptr : walk m (pde_ptr v) ≡ some (pde_addr m v)
  walk-pde_ptr =
      let q = pde_ptr_lem v h in
      let f = s.self_frame in
      walk_mapped m (pde_ptr v) (m.words (m.cr3 + 4092)) (m.words (m.cr3 + 4092))
        (self_entry (pde_ptr v) (omega arith)) s.self_present (ap m.words (omega arith))
        s.self_present
      ∙ ap some (omega arith)

  -- Through the pointer of `pte_ptr` one reaches its table entry, if the table is there, and else
  -- the access faults.
  pub walk-pte_ptr : m.words (pde_addr m v) % 2 ≡ 1 → walk m (pte_ptr v) ≡ some (pte_addr m v)
  walk-pte_ptr e =
      let q = pte_ptr_lem v h in
      let f = s.self_frame in
      walk_mapped m (pte_ptr v) (m.words (m.cr3 + 4092)) (m.words (pde_addr m v))
        (self_entry (pte_ptr v) (omega arith)) s.self_present (ap m.words (omega arith)) e
      ∙ ap some (omega arith)

-- Where the directory leads to itself and an entry is a 32-bit word, `addr_v2p` of a mapped address
-- is the physical address that the processor's walk finds.
pub addr_v2p-walk :
    (m : Machine) (v a : ℕ)
    → IsDirectory m
    → v < 2 ^ 32
    → m.words (pte_addr m v) < 2 ^ 32
    → walk m v ≡ some a
    → addr_v2p v m ≡ ok a
unfolding addr_v2p
addr_v2p-walk m v a s h w e =
    let (d, t, q) = walk-some m v a e in
    rw (load_at m (pte_ptr v) (pte_addr m v) (walk-pte_ptr s v h d))
      (ap ok (omega (arith, bit_and_field 20 12 (m.words (pte_addr m v)), bit_and_low 12 v)))
