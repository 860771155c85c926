-- ===== src/Memory/Locked/User.antt =====
-- `get_a_page` of a process.
use oslearn.Base.{
  ℕ, ◌+◌, ◌*◌, ◌%◌, ◌<◌, ◌≤◌, ◌≡◌, ◌≢◌, refl, ap, ◌∙◌, false, ◌==◌, ◌||◌, ==_of_ne, ok, arith,
}
use oslearn.Bitmap.Bits.{used, put-Stored}
use oslearn.Machine.{Machine, pde_addr}
use oslearn.Thread.State.{Kernel, current}
use oslearn.Sync.{Lock, returned, lock_acquire, lock_release}
use oslearn.Sync.Held.{lock_release_once}
use oslearn.Sync.Within.{IsWithin, lock_acquire-first}
use oslearn.Memory.{Pool, VirtualAddr, pf_user, palloc, pg_size}
use oslearn.Memory.Addresses.{IsVirtual, Marked}
use oslearn.Memory.Frames.{IsPool, palloc-Takes}
use oslearn.Memory.Paging.{page_table_add}
use oslearn.Memory.Paging.SelfMap.{IsDirectory}
use oslearn.Memory.Paging.Extend.{Extends}
use oslearn.Memory.Paging.Add.{page_table_add-Extends}
use oslearn.Memory.Alloc.{Space}
use oslearn.Memory.Locked.{mark_page, mark_for, page_locked, page_with, get_a_page}
use oslearn.Memory.Locked.One.{mark_page_steps, Stored-Marked}

-- The state with the page marked and mapped, and the lock counted down.
abbrev with_user_page : VirtualAddr → Pool → Lock → Pool → Machine → Space → Space
with_user_page v p l kernel m s = record s {
  memory = record s.memory {
    user_pool = record p { lock = l };
    userprog_vaddr = v;
    kernel_pool = kernel;
  };
  machine = m;
}

user_page_steps :
    (a page : ℕ) (s : Space) (k : Kernel) (l l' : Lock) (v : VirtualAddr) (p kernel : Pool)
    (m : Machine)
    → lock_acquire s.memory.user_pool.lock k ≡ ok (returned l k)
    → ((current k).pgdir == 0) ≡ false
    → mark_page a s.memory.userprog_vaddr ≡ ok v
    → palloc (record s.memory.user_pool { lock = l }) ≡ ok (p, page)
    → (page == 0) ≡ false
    → page_table_add a page s.memory.kernel_pool s.machine ≡ ok (kernel, m)
    → lock_release p.lock k ≡ ok (l', k)
    → get_a_page pf_user a s k ≡ ok (returned (with_user_page v p l' kernel m s, a) k)
unfolding get_a_page page_with page_locked mark_for
user_page_steps a page s k l l' v p kernel m acq dir mark pal ne add rel =
    simp (acq, dir, mark, pal, ne, add, rel)

-- What the process has got: the page is marked as taken, and in a new table it is mapped to a frame of
-- the user's pool. This frame and that of the table, one of the kernel's pool, were free and are
-- taken, and no other frame of the two pools changes.
pub record HasUserPage (s s' : Space) (a i frame table : ℕ) : Type 0 where
  pub marked : Marked s.memory.userprog_vaddr.vaddr_bitmap i 1 s'.memory.userprog_vaddr.vaddr_bitmap
  pub user : IsPool s'.memory.user_pool
  pub frame_index : ℕ
  pub frame_place : frame ≡ s.memory.user_pool.phy_addr_start + frame_index * pg_size
  pub frame_inside : frame_index < s.memory.user_pool.pool_bitmap.btmp_bytes_len * 8
  pub was_free : used s.memory.user_pool.pool_bitmap frame_index ≡ false
  pub taken :
      (t : ℕ)
      → used s'.memory.user_pool.pool_bitmap t
        ≡ ((frame_index == t) || used s.memory.user_pool.pool_bitmap t)
  pub user_start : s'.memory.user_pool.phy_addr_start ≡ s.memory.user_pool.phy_addr_start
  pub user_bits :
      s'.memory.user_pool.pool_bitmap.btmp_bytes_len ≡ s.memory.user_pool.pool_bitmap.btmp_bytes_len
  pub kernel : IsPool s'.memory.kernel_pool
  pub table_index : ℕ
  pub table_place : table ≡ s.memory.kernel_pool.phy_addr_start + table_index * pg_size
  pub table_inside : table_index < s.memory.kernel_pool.pool_bitmap.btmp_bytes_len * 8
  pub table_free : used s.memory.kernel_pool.pool_bitmap table_index ≡ false
  pub table_taken :
      (t : ℕ)
      → used s'.memory.kernel_pool.pool_bitmap t
        ≡ ((table_index == t) || used s.memory.kernel_pool.pool_bitmap t)
  pub kernel_start : s'.memory.kernel_pool.phy_addr_start ≡ s.memory.kernel_pool.phy_addr_start
  pub kernel_bits :
      s'.memory.kernel_pool.pool_bitmap.btmp_bytes_len
      ≡ s.memory.kernel_pool.pool_bitmap.btmp_bytes_len
  pub kernel_vaddr : s'.memory.kernel_vaddr ≡ s.memory.kernel_vaddr
  pub directory : IsDirectory s'.machine
  pub mapped : Extends s.machine s'.machine a frame table

-- The memory of a process whose directory is loaded: a free page `i` of its addresses but the first,
-- in 4 MB that have no table yet; free frames in both pools, and no free frame of the kernel's pool is
-- the directory.
pub record HasProcess (s : Space) (i : ℕ) : Type 0 where
  pub directory : IsDirectory s.machine
  pub virtual : IsVirtual s.memory.userprog_vaddr
  pub aligned : s.memory.userprog_vaddr.vaddr_start % 4096 ≡ 0
  pub ends :
      s.memory.userprog_vaddr.vaddr_start
        + s.memory.userprog_vaddr.vaddr_bitmap.btmp_bytes_len * 8 * pg_size
      ≤ 0xc0000000
  pub not_first : 0 < i
  pub inside : i < s.memory.userprog_vaddr.vaddr_bitmap.btmp_bytes_len * 8
  pub no_table :
      s.machine.words (pde_addr s.machine (s.memory.userprog_vaddr.vaddr_start + i * pg_size)) % 2
      ≡ 0
  pub user : IsPool s.memory.user_pool
  pub user_aligned : s.memory.user_pool.phy_addr_start % 4096 ≡ 0
  pub user_positive : 0 < s.memory.user_pool.phy_addr_start
  pub user_free : ℕ
  pub user_inside : user_free < s.memory.user_pool.pool_bitmap.btmp_bytes_len * 8
  pub user_unused : used s.memory.user_pool.pool_bitmap user_free ≡ false
  pub kernel : IsPool s.memory.kernel_pool
  pub kernel_aligned : s.memory.kernel_pool.phy_addr_start % 4096 ≡ 0
  pub kernel_free : ℕ
  pub kernel_inside : kernel_free < s.memory.kernel_pool.pool_bitmap.btmp_bytes_len * 8
  pub kernel_unused : used s.memory.kernel_pool.pool_bitmap kernel_free ≡ false
  pub apart :
      (j : ℕ)
      → used s.memory.kernel_pool.pool_bitmap j ≡ false
      → s.memory.kernel_pool.phy_addr_start + j * pg_size ≢ s.machine.cr3

-- A process that can have the lock of the user's pool gets a given page of its addresses by
-- `get_a_page`, where its 4 MB have no table yet: a table is made in a free frame of the kernel, the
-- page is marked and mapped to a free frame of the user's pool, no other page of these 4 MB is mapped,
-- and addresses elsewhere go where they went. The process keeps the lock.
pub get_a_page-HasUserPage :
    (i : ℕ) (s : Space) (k : Kernel)
    → HasProcess s i
    → IsWithin s.memory.user_pool.lock k
    → (current k).pgdir ≢ 0
    → let a = s.memory.userprog_vaddr.vaddr_start + i * pg_size in
      (s' : Space) × (frame : ℕ) × (table : ℕ) × (get_a_page pf_user a s k
        ≡ ok (returned (s', a) k))
      × HasUserPage s s' a i frame table
      × (s'.memory.user_pool.lock.holder ≡ k.running)
get_a_page-HasUserPage i s k w lock dir =
    let start = s.memory.userprog_vaddr.vaddr_start in
    let a = start + i * pg_size in
    let (l, acq, held, one) = lock_acquire-first s.memory.user_pool.lock k lock in
    let (bm, p, stored) = put-Stored i 1 w.virtual.bitmap w.inside (omega arith) in
    let marked = Stored-Marked i stored in
    let v : VirtualAddr = record (s.memory.userprog_vaddr) { vaddr_bitmap = bm } in
    let pool : Pool = record (s.memory.user_pool) { lock = l } in
    let is_pool : IsPool pool = record { bitmap = w.user.bitmap; frames = w.user.frames } in
    let (pool', j, pal, w', takes) =
      palloc-Takes pool w.user_free is_pool w.user_inside w.user_unused in
    let frame = s.memory.user_pool.phy_addr_start + j * pg_size in
    let (kernel, m, t, added, kernel_ok, kernel_takes, d, ext) =
      page_table_add-Extends s.machine a frame w.kernel_free s.memory.kernel_pool w.directory
        (omega (arith, w.ends, w.inside)) (omega (arith, w.ends, w.inside)) w.no_table
        (omega (arith, w.user_aligned)) w.kernel w.kernel_aligned w.kernel_inside w.kernel_unused
        w.apart in
    let rel =
      lock_release_once pool'.lock k (ap (λ (q : Lock). q.holder) takes.same_lock ∙ held)
        (ap (λ (q : Lock). q.holder_repeat_nr) takes.same_lock ∙ one) in
    (
      with_user_page v pool' (record pool'.lock { holder_repeat_nr = 0 }) kernel m s,
      frame,
      s.memory.kernel_pool.phy_addr_start + t * pg_size,
      user_page_steps a frame s k l (record pool'.lock { holder_repeat_nr = 0 }) v pool' kernel m
          acq (==_of_ne (current k).pgdir 0 dir)
          (mark_page_steps a i s.memory.userprog_vaddr bm
            (omega (arith, w.virtual.addresses, w.inside)) w.not_first p)
          pal (==_of_ne frame 0 (λ e. omega (arith, w.user_positive))) added rel,
      record {
        marked = marked;
        user = record { bitmap = w'.bitmap; frames = w'.frames };
        frame_index = j;
        frame_place = refl;
        frame_inside = takes.inside;
        was_free = takes.was_free;
        taken = λ t. takes.stored.bit t ∙ ground arith;
        user_start = takes.same_start;
        user_bits = takes.stored.len;
        kernel = kernel_ok;
        table_index = t;
        table_place = refl;
        table_inside = kernel_takes.inside;
        table_free = kernel_takes.was_free;
        table_taken = λ u. kernel_takes.stored.bit u ∙ ground arith;
        kernel_start = kernel_takes.same_start;
        kernel_bits = kernel_takes.stored.len;
        kernel_vaddr = refl;
        directory = d;
        mapped = ext;
      },
      ap (λ (q : Lock). q.holder) takes.same_lock ∙ held,
    )
