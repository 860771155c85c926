-- ===== src/Memory/Locked/One.antt =====
-- `get_a_page` of a kernel thread.
use oslearn.Base.{
  ℕ, ◌+◌, ◌-◌, ◌*◌, ◌/◌, ◌%◌, ◌^◌, ◌<◌, ◌≡◌, inl, inr, refl, ap, ◌∙◌, true, false, ◌||◌, lt→ltb,
  ◌==◌, ==_of_ne, u32, ok, panic, arith,
}
use oslearn.Bitmap.{Bitmap, put}
use oslearn.Bitmap.Bits.{used, Stored, put-Stored}
use oslearn.Machine.{Machine}
use oslearn.Thread.State.{Kernel, current}
use oslearn.Sync.{Lock, returned, lock_acquire, lock_release}
use oslearn.Sync.Held.{lock_release_once}
use oslearn.Sync.Within.{IsWithin, lock_acquire-first}
use oslearn.Memory.{Pool, VirtualAddr, pf_kernel, pf_user, palloc, pg_size}
use oslearn.Memory.Addresses.{Marked}
use oslearn.Memory.Frames.{IsPool, palloc-Takes}
use oslearn.Memory.Paging.{page_table_add}
use oslearn.Memory.Paging.Table.{Maps, page_table_add-Maps}
use oslearn.Memory.Alloc.{Space}
use oslearn.Memory.Alloc.Tables.{InKernel, Unmapped-IsFree, Maps-HasTables, entries_apart}
use oslearn.Memory.Alloc.Pages.{frames, frame_bits, frame_used}
use oslearn.Memory.Alloc.Kernel.{addresses, page_bits, IsKernelSpace, marked-IsKernelRange}
use oslearn.Memory.Locked.{mark_page, mark_for, page_locked, page_with, get_a_page}

pub mark_page_steps :
    (a i : ℕ) (v : VirtualAddr) (bm : Bitmap)
    → u32 (a + 2 ^ 32 - v.vaddr_start) / pg_size ≡ i
    → 0 < i
    → put v.vaddr_bitmap i 1 ≡ ok bm
    → mark_page a v ≡ ok (record v { vaddr_bitmap = bm })
unfolding mark_page
mark_page_steps a i v bm e pos p = simp (e, lt→ltb 0 i pos, p)

pub Stored-Marked : {bm bm' : Bitmap} (i : ℕ) → Stored bm i true bm' → Marked bm i 1 bm'
Stored-Marked i s = record { valid = s.valid; len = s.len; bit = λ j. s.bit j ∙ ground arith }

-- The state with the page marked, its frame mapped and the lock counted down.
abbrev with_page : VirtualAddr → Pool → Lock → Machine → Space → Space
with_page v p l m s = record {
  memory = record s.memory { kernel_pool = record p { lock = l }; kernel_vaddr = v };
  machine = m;
}

get_a_page_steps :
    (a page : ℕ) (s : Space) (k : Kernel) (l l' : Lock) (v : VirtualAddr) (p : Pool) (m : Machine)
    → lock_acquire (frames s).lock k ≡ ok (returned l k)
    → (current k).pgdir ≡ 0
    → mark_page a (addresses s) ≡ ok v
    → palloc (record (frames s) { lock = l }) ≡ ok (p, page)
    → (page == 0) ≡ false
    → page_table_add a page p s.machine ≡ ok (p, m)
    → lock_release p.lock k ≡ ok (l', k)
    → get_a_page pf_kernel a s k ≡ ok (returned (with_page v p l' m s, a) k)
unfolding get_a_page page_with page_locked mark_for
get_a_page_steps a page s k l l' v p m acq dir mark pal ne add rel =
    simp (acq, dir, mark, pal, ne, add, rel)

-- In a well-formed kernel memory, a kernel thread that can have the lock of the pool gets a given
-- free page but the first by `get_a_page`, where there is a free frame: the page is marked and mapped
-- to a frame that was free, no other page and no other frame changes, and the memory stays well
-- formed. The thread keeps the lock.
pub get_a_page-IsKernelSpace :
    (i free : ℕ) (s : Space) (k : Kernel)
    → IsKernelSpace s
    → IsWithin (frames s).lock k
    → (current k).pgdir ≡ 0
    → 0 < i
    → i < page_bits (addresses s)
    → used (addresses s).vaddr_bitmap i ≡ false
    → free < frame_bits s
    → frame_used s free ≡ false
    → let a = (addresses s).vaddr_start + i * pg_size in
      (s' : Space) × (j : ℕ) × (get_a_page pf_kernel a s k ≡ ok (returned (s', a) k))
      × IsKernelSpace s'
      × Marked (addresses s).vaddr_bitmap i 1 (addresses s').vaddr_bitmap
      × Maps s.machine s'.machine a ((frames s).phy_addr_start + j * pg_size)
      × (frame_used s j ≡ false)
      × ((t : ℕ) → frame_used s' t ≡ ((j == t) || frame_used s t))
      × ((frames s').lock.holder ≡ k.running)
get_a_page-IsKernelSpace i free s k w lock dir pos inside unused lt free_frame =
    let start = (addresses s).vaddr_start in
    let a = start + i * pg_size in
    let kernel : InKernel a = (omega (arith, w.range.low), omega (arith, w.range.top)) in
    let (l, acq, held, one) = lock_acquire-first (frames s).lock k lock in
    let (bm, p, stored) = put-Stored i 1 w.range.virtual.bitmap inside (omega arith) in
    let marked = Stored-Marked i stored in
    let v : VirtualAddr = record (addresses s) { vaddr_bitmap = bm } in
    let pool : Pool = record (frames s) { lock = l } in
    let is_pool : IsPool pool = record {
      bitmap = w.ready.pool.bitmap;
      frames = w.ready.pool.frames;
    } in
    let (pool', j, pal, w', takes) = palloc-Takes pool free is_pool lt free_frame in
    let frame = (frames s).phy_addr_start + j * pg_size in
    let free_entry =
      Unmapped-IsFree a w.ready.tables kernel
        (w.range.unmapped i a inside unused kernel (omega (arith, w.range.aligned))) in
    let (m, added, d, maps) =
      page_table_add-Maps s.machine a frame pool' w.ready.tables.directory (omega arith) free_entry
        (omega (arith, w.ready.aligned)) in
    let rel =
      lock_release_once pool'.lock k (ap (λ (q : Lock). q.holder) takes.same_lock ∙ held)
        (ap (λ (q : Lock). q.holder_repeat_nr) takes.same_lock ∙ one) in
    let tables = Maps-HasTables {m' = m} a frame w.ready.tables d maps in
    (
      with_page v pool' (record pool'.lock { holder_repeat_nr = 0 }) m s,
      j,
      get_a_page_steps a frame s k l (record pool'.lock { holder_repeat_nr = 0 }) v pool' m acq dir
          (mark_page_steps a i (addresses s) bm (omega (arith, w.range.virtual.addresses)) pos p)
          pal (==_of_ne frame 0 (λ e. omega (arith, w.ready.positive))) added rel,
      record {
        ready = record {
          tables = tables;
          pool = record { bitmap = w'.bitmap; frames = w'.frames };
          aligned = ap (λ t. t % 4096) takes.same_start ∙ w.ready.aligned;
          positive = omega (arith, w.ready.positive, takes.same_start);
        };
        range =
            marked-IsKernelRange (addresses s) v s.machine m 1 i w.range tables (omega arith) marked
              refl
              (λ u q o. maps.others u (omega arith) (
                entries_apart u a w.ready.tables q kernel
                  (λ e. elim o [ inl b ↦ omega arith | inr b ↦ omega arith ])));
      },
      marked,
      maps,
      takes.was_free,
      λ t. takes.stored.bit t ∙ ground arith,
      ap (λ (q : Lock). q.holder) takes.same_lock ∙ held,
    )

-- A kernel thread that can have the lock may not take a user's page.
pub get_a_page_thread :
    (a : ℕ) (s : Space) (k : Kernel)
    → IsWithin s.memory.user_pool.lock k
    → (current k).pgdir ≡ 0
    → get_a_page pf_user a s k ≡ panic
unfolding get_a_page page_with page_locked mark_for
get_a_page_thread a s k lock dir =
    let (l, acq, held, one) = lock_acquire-first s.memory.user_pool.lock k lock in
    simp (acq, dir) refl
