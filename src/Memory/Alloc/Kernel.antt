-- ===== src/Memory/Alloc/Kernel.antt =====
-- `malloc_page(PF_KERNEL, …)` as a whole.
use oslearn.Base.{
  ℕ, ◌+◌, ◌-◌, ◌*◌, ◌/◌, ◌%◌, ◌<◌, ◌≤◌, ◌≡◌, ◌⊎◌, inl, inr, refl, ap, sym, subst, ◌∙◌, true, false,
  ◌&&◌, ◌==◌, ltb, leb, lt→ltb, ==_of_ne, Bool-cases, List, length, ok, arith,
}
use oslearn.Bitmap.Bits.{used}
use oslearn.Bitmap.Free.{Blocked}
use oslearn.Machine.{Machine, walk}
use oslearn.Machine.Walk.{walk-none, walk_no_page}
use oslearn.Memory.{VirtualAddr, pf_kernel, Memory, vaddr_get, pg_size}
use oslearn.Memory.Addresses.{IsVirtual, Reserves, Marked, vaddr_get-Reserves}
use oslearn.Memory.Alloc.{Space, map_pages, malloc_page}
use oslearn.Memory.Alloc.Free.{free_below}
use oslearn.Memory.Alloc.Tables.{HasTables, InKernel, Unmapped}
use oslearn.Memory.Alloc.Pages.{IsReady, frames, frame_bits, Mapped, map_pages-Mapped}

abbrev pub addresses : Space → VirtualAddr
addresses s = s.memory.kernel_vaddr

abbrev pub page_bits : VirtualAddr → ℕ
page_bits v = v.vaddr_bitmap.btmp_bytes_len * 8

-- The addresses are the kernel's, and a page that is free in the bitmap is not mapped.
pub record IsKernelRange (v : VirtualAddr) (m : Machine) : Type 0 where
  pub virtual : IsVirtual v
  pub aligned : v.vaddr_start % 4096 ≡ 0
  pub low : 0xc0000000 ≤ v.vaddr_start
  pub top : v.vaddr_start + page_bits v * 4096 ≤ 0xffc00000
  pub behind : used v.vaddr_bitmap (page_bits v) ≡ true
  pub unmapped :
      (i u : ℕ)
      → i < page_bits v
      → used v.vaddr_bitmap i ≡ false
      → InKernel u
      → u / 4096 ≡ v.vaddr_start / 4096 + i
      → Unmapped m u

-- The invariant of the kernel's memory.
pub record IsKernelSpace (s : Space) : Type 0 where
  pub ready : IsReady s
  pub range : IsKernelRange (addresses s) s.machine

malloc_page-none :
    (n : ℕ) (s : Space) (mem : Memory)
    → 0 < n
    → n < 3840
    → vaddr_get pf_kernel n s.memory ≡ ok (mem, 0)
    → malloc_page pf_kernel n s ≡ ok (record s { memory = mem }, 0)
unfolding malloc_page
malloc_page-none n s mem h k e = simp (lt→ltb 0 n h, lt→ltb n 3840 k, e)

malloc_page-some :
    (n a : ℕ) (s s' : Space) (mem : Memory)
    → 0 < n
    → n < 3840
    → vaddr_get pf_kernel n s.memory ≡ ok (mem, a)
    → (a == 0) ≡ false
    → map_pages pf_kernel n a (record s { memory = mem }) ≡ ok (s', true)
    → malloc_page pf_kernel n s ≡ ok (s', a)
unfolding malloc_page
malloc_page-some n a s s' mem h k e z r = simp (lt→ltb 0 n h, lt→ltb n 3840 k, e, z, r)

abbrev pub with_addresses : VirtualAddr → Space → Space
with_addresses v s = record s { memory = record s.memory { kernel_vaddr = v } }

-- A run of pages has been reserved, and no page outside it has been mapped.
pub marked-IsKernelRange :
    (v v' : VirtualAddr) (m m' : Machine) (n i : ℕ)
    → IsKernelRange v m
    → HasTables m'
    → i + n ≤ page_bits v
    → Marked v.vaddr_bitmap i n v'.vaddr_bitmap
    → v'.vaddr_start ≡ v.vaddr_start
    → ((u : ℕ)
        → InKernel u
        → (u / 4096 < (v.vaddr_start + i * pg_size) / 4096)
          ⊎ ((v.vaddr_start + i * pg_size) / 4096 + n ≤ u / 4096)
        → walk m' u ≡ walk m u)
    → IsKernelRange v' m'
marked-IsKernelRange v v' m m' n i w t inside marked same others =
    let len = marked.len in
    let start = same in
    record {
      virtual = record {
        bitmap = marked.valid;
        positive = omega (arith, w.virtual.positive);
        addresses = omega (arith, w.virtual.addresses);
      };
      aligned = omega (arith, w.aligned);
      low = omega (arith, w.low);
      top = omega (arith, w.top);
      behind = ap (used v'.vaddr_bitmap) (omega arith) ∙ last;
      unmapped = λ j u lt free k e.
          let outside : (leb i j && ltb j (i + n)) ≡ false = ground (arith, marked.bit j) in
          let was_free : used v.vaddr_bitmap j ≡ false = ground (arith, marked.bit j) in
          walk-none m' u
            (others u k (side j u outside (omega arith))
              ∙ walk_no_page m u (w.unmapped j u (omega arith) was_free k (omega arith)))
            (t.table u k);
    }
  where
    last : used v'.vaddr_bitmap (page_bits v) ≡ true
    last = ground (arith, marked.bit (page_bits v), w.behind, inside)

    side :
        (j u : ℕ)
        → (leb i j && ltb j (i + n)) ≡ false
        → u / 4096 ≡ v.vaddr_start / 4096 + j
        → (u / 4096 < (v.vaddr_start + i * pg_size) / 4096)
          ⊎ ((v.vaddr_start + i * pg_size) / 4096 + n ≤ u / 4096)
    side j u o e = elim (Bool-cases (ltb j i)) [
      | inl b ↦ inl (ground (arith, w.aligned))
      | inr a ↦ inr (ground (arith, w.aligned))
    ]

-- What the result says: NULL, and nothing has changed, for want of a run of free pages; or the
-- address of the first run, which is mapped to frames that were free.
abbrev pub Outcome : ℕ → Space → Space → ℕ → Type 0
Outcome n s s' a =
    ((a ≡ 0)
      × (s' ≡ s)
      × ((t : ℕ) → t + n ≤ page_bits (addresses s) → Blocked (addresses s).vaddr_bitmap t n))
    ⊎ ((i : ℕ) × (fs : List ℕ) × (a ≡ (addresses s).vaddr_start + i * pg_size)
        × (length fs ≡ n)
        × Reserves (addresses s) (addresses s') n i
        × Mapped (with_addresses (addresses s') s) s' a fs)

-- The run is reserved, and the loop maps it.
reserved-IsKernelSpace :
    (n i a : ℕ) (s : Space) (v : VirtualAddr)
    → IsKernelSpace s
    → 0 < n
    → n < 3840
    → n ≤ free_below (frames s).pool_bitmap (frame_bits s)
    → vaddr_get pf_kernel n s.memory ≡ ok (record s.memory { kernel_vaddr = v }, a)
    → a ≡ (addresses s).vaddr_start + i * pg_size
    → Reserves (addresses s) v n i
    → (s' : Space) × (malloc_page pf_kernel n s ≡ ok (s', a)) × IsKernelSpace s' × Outcome n s s' a
reserved-IsKernelSpace n i a s v w h k few r e took =
    let start = (addresses s).vaddr_start in
    let ready : IsReady (with_addresses v s) = record {
      tables = w.ready.tables;
      pool = w.ready.pool;
      aligned = w.ready.aligned;
      positive = w.ready.positive;
    } in
    let (s', fs, run, count, x) =
      map_pages-Mapped n a (with_addresses v s) ready few (omega (arith, w.range.aligned))
        (omega (arith, w.range.low)) (omega (arith, w.range.top, took.inside))
        (λ u q b t.
          let k = u / 4096 - a / 4096 in
          w.range.unmapped (i + k) u (omega (arith, took.inside)) (took.was_free k (omega arith)) q
            (omega (arith, w.range.aligned))) in
    let others : (u : ℕ)
        → InKernel u
        → (u / 4096 < (start + i * pg_size) / 4096) ⊎ ((start + i * pg_size) / 4096 + n ≤ u / 4096)
        → walk s'.machine u ≡ walk s.machine u =
      λ u q o. x.others u q (elim o [ inl b ↦ inl (omega arith) | inr t ↦ inr (omega arith) ]) in
    let range : IsKernelRange v s'.machine =
      marked-IsKernelRange (addresses s) v s.machine s'.machine n i w.range x.ready.tables
        took.inside took.marked took.same_start others in
    (
      s',
      malloc_page-some n a s s' (record s.memory { kernel_vaddr = v }) h k r
          (==_of_ne a 0 (λ z. omega (arith, w.range.low))) run,
      record {
        ready = x.ready;
        range = subst (λ t. IsKernelRange t s'.machine) (sym x.vaddr) range;
      },
      inr (
        i,
        fs,
        e,
        count,
        subst (λ t. Reserves (addresses s) t n i) (sym x.vaddr) took,
        subst (λ t. Mapped (with_addresses t s) s' a fs) (sym x.vaddr) x,
      ),
    )

-- In a well-formed kernel memory with a free page among the addresses and `n` free frames,
-- `malloc_page(PF_KERNEL, n)` for `0 < n < 3840` returns, and keeps the memory well formed. It
-- reserves the first run of `n` free pages, gives its address, and maps each page to a frame of its
-- own that was free; no other page of the kernel changes. Without such a run it returns NULL and
-- changes nothing.
pub malloc_page-IsKernelSpace :
    (n free : ℕ) (s : Space)
    → IsKernelSpace s
    → 0 < n
    → n < 3840
    → free < page_bits (addresses s)
    → used (addresses s).vaddr_bitmap free ≡ false
    → n ≤ free_below (frames s).pool_bitmap (frame_bits s)
    → (s' : Space) × (a : ℕ) × (malloc_page pf_kernel n s ≡ ok (s', a))
      × IsKernelSpace s'
      × Outcome n s s' a
malloc_page-IsKernelSpace n free s w h k lt unused few =
    let (v, a, r, answer) =
      vaddr_get-Reserves n s.memory free w.range.virtual h lt unused w.range.behind in
    elim answer [
      | inl (z, same, blocked) ↦ (
        s,
        0,
        malloc_page-none n s (record s.memory { kernel_vaddr = v }) h k
              (r ∙ ap (λ t. ok (record s.memory { kernel_vaddr = v }, t)) z)
            ∙ ap (λ t. ok (with_addresses t s, 0)) same,
        w,
        inl (refl, refl, blocked),
      )
      | inr (i, e, pos, took) ↦
          let (s', run, w', out) = reserved-IsKernelSpace n i a s v w h k few r e took in
          (s', a, run, w', out)
    ]
