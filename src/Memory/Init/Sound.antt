-- ===== src/Memory/Init/Sound.antt =====
-- The memory that `mem_pool_init` sets up.
use oslearn.Base.{
  ℕ, zero, suc, ◌+◌, ◌*◌, ◌%◌, ◌^◌, ◌<◌, ◌≤◌, ◌≡◌, refl, ap, ◌∙◌, true, false, ltb, length, get_or,
  if◌then◌else◌, ok, arith,
}
use oslearn.Bitmap.{Bitmap}
use oslearn.Bitmap.Byte.{digit}
use oslearn.Bitmap.Bits.{IsValid, used}
use oslearn.Bitmap.Init.{init-IsValid}
use oslearn.Machine.{Machine, frame_of, pde_addr}
use oslearn.Memory.{Memory, pg_size}
use oslearn.Memory.Frames.{IsPool}
use oslearn.Memory.Layout.{IsDivision, divide, divide_small, divide-IsDivision, used_mem}
use oslearn.Memory.Alloc.{Space}
use oslearn.Memory.Alloc.Tables.{HasTables, InKernel, Unmapped}
use oslearn.Memory.Alloc.Kernel.{IsKernelSpace, addresses, page_bits}
use oslearn.Memory.Alloc.Pages.{frames, frame_bits, frame_used}
use oslearn.Memory.Alloc.Granted.{HasPlainFrames}
use oslearn.Memory.Init.{bytes_at, clear_bitmap, k_heap_start, pool_at, mem_pool_init}

length-bytes_at : (low : ℕ → ℕ) (a n : ℕ) → length (bytes_at low a n) ≡ n
unfolding bytes_at
length-bytes_at low a zero = refl
length-bytes_at low a (suc n) = ap suc (length-bytes_at low (a + 1) n)

get_or-bytes_at : (low : ℕ → ℕ) (a n i : ℕ) → i < n → get_or (bytes_at low a n) i 0 ≡ low (a + i)
unfolding bytes_at
get_or-bytes_at low a zero i h = absurd (omega arith)
get_or-bytes_at low a (suc n) zero h = ap low (omega arith)
get_or-bytes_at low a (suc n) (suc i) h =
    get_or-bytes_at low (a + 1) n i (omega arith) ∙ ap low (omega arith)

bytes_at-lt :
    (low : ℕ → ℕ) (a n i : ℕ) → ((b : ℕ) → low b < 256) → get_or (bytes_at low a n) i 0 < 256
unfolding bytes_at
bytes_at-lt low a zero i h = ground arith
bytes_at-lt low a (suc n) zero h = h a
bytes_at-lt low a (suc n) (suc i) h = bytes_at-lt low (a + 1) n i h

abbrev raw : (ℕ → ℕ) → ℕ → ℕ → Bitmap
raw low a len = record { btmp_bytes_len = len; bits = bytes_at low a (len + 1) }

raw-IsValid :
    (low : ℕ → ℕ) (a len : ℕ) → ((b : ℕ) → low b < 256) → len * 8 < 2 ^ 31 → IsValid (raw low a len)
raw-IsValid low a len h lt = record {
  bytes = λ i. bytes_at-lt low a (len + 1) i h;
  small = lt;
  readable = omega (arith, length-bytes_at low a (len + 1));
}

raw_behind : (low : ℕ → ℕ) (a len : ℕ) → used (raw low a len) (len * 8) ≡ digit (low (a + len)) 0
unfolding used
raw_behind low a len =
    ap (λ k. digit (get_or (bytes_at low a (len + 1)) k 0) (len * 8 % 8)) (omega arith)
    ∙ ap (λ b. digit b (len * 8 % 8)) (get_or-bytes_at low a (len + 1) len (omega arith))
    ∙ ap (digit (low (a + len))) (omega arith)

-- A bitmap whose bits are all free; the first bit behind them is that of the byte behind it.
record Fresh (low : ℕ → ℕ) (a n : ℕ) (bm : Bitmap) : Type 0 where
  valid : IsValid bm
  len : bm.btmp_bytes_len ≡ n
  free : (i : ℕ) → i < n * 8 → used bm i ≡ false
  behind : used bm (n * 8) ≡ digit (low (a + n)) 0

clear_bitmap-Fresh :
    (low : ℕ → ℕ) (a len : ℕ)
    → ((b : ℕ) → low b < 256)
    → len * 8 < 2 ^ 31
    → (bm : Bitmap) × (clear_bitmap low a len ≡ ok bm) × Fresh low a len bm
unfolding clear_bitmap
clear_bitmap-Fresh low a len h lt =
    let (bm, r, v, e, bits) = init-IsValid (raw-IsValid low a len h lt) in
    (
      bm,
      r,
      record {
        valid = v;
        len = e;
        free = λ i l. bits i ∙ ground arith;
        behind = bits (len * 8) ∙ not_below (len * 8) ∙ raw_behind low a len;
      },
    )
  where
    not_below :
        (n : ℕ) → (if ltb n n then false else used (raw low a len) n) ≡ used (raw low a len) n
    not_below n = ground arith

-- The paging that the loader leaves behind: the kernel's tables lie below 2 MB, in the used memory,
-- and from the start of the heap on no page is mapped.
pub record IsLoaded (m : Machine) : Type 0 where
  pub tables : HasTables m
  pub directory : m.cr3 < used_mem
  pub low : (u : ℕ) → InKernel u → frame_of (m.words (pde_addr m u)) < used_mem
  pub unmapped : (u : ℕ) → InKernel u → k_heap_start ≤ u → Unmapped m u

-- The memory at the start: it is well formed, everything is free, and the user's frames lie behind the
-- kernel's, inside the memory.
pub record IsInitial (all_mem : ℕ) (s : Space) : Type 0 where
  pub space : IsKernelSpace s
  pub plain : HasPlainFrames s
  pub free_frame : (i : ℕ) → i < frame_bits s → frame_used s i ≡ false
  pub free_page : (i : ℕ) → i < page_bits (addresses s) → used (addresses s).vaddr_bitmap i ≡ false
  pub user : IsPool s.memory.user_pool
  pub free_user :
      (i : ℕ)
      → i < s.memory.user_pool.pool_bitmap.btmp_bytes_len * 8
      → used s.memory.user_pool.pool_bitmap i ≡ false
  pub apart : (frames s).phy_addr_start + frame_bits s * pg_size ≤ s.memory.user_pool.phy_addr_start
  pub inside :
      s.memory.user_pool.phy_addr_start
        + s.memory.user_pool.pool_bitmap.btmp_bytes_len * 8 * pg_size
      ≤ all_mem
  pub bits : frame_bits s ≡ (divide all_mem).kbm_length * 8
  pub same_bits : page_bits (addresses s) ≡ (divide all_mem).kbm_length * 8
  pub heap : (addresses s).vaddr_start ≡ k_heap_start

abbrev with_bitmaps : ℕ → Bitmap → Bitmap → Bitmap → Memory → Memory
with_bitmaps all_mem kernel user vaddr m = record m {
  kernel_pool = pool_at kernel (divide all_mem).kp_start (divide all_mem).kernel_free_pages;
  user_pool = pool_at user (divide all_mem).up_start (divide all_mem).user_free_pages;
  kernel_vaddr = record { vaddr_bitmap = vaddr; vaddr_start = k_heap_start };
}

mem_pool_init_steps :
    (low : ℕ → ℕ) (all_mem : ℕ) (m : Memory) (kernel user vaddr : Bitmap)
    → clear_bitmap low (divide all_mem).kernel_bits (divide all_mem).kbm_length ≡ ok kernel
    → clear_bitmap low (divide all_mem).user_bits (divide all_mem).ubm_length ≡ ok user
    → clear_bitmap low (divide all_mem).vaddr_bits (divide all_mem).kbm_length ≡ ok vaddr
    → mem_pool_init low all_mem m ≡ ok (with_bitmaps all_mem kernel user vaddr m)
unfolding mem_pool_init
mem_pool_init_steps low all_mem m kernel user vaddr k u v = simp (k, u, v)

module _ (low : ℕ → ℕ) (all_mem : ℕ) (m : Memory) (machine : Machine) (kernel user vaddr : Bitmap)
    (h : used_mem ≤ all_mem) (lt : all_mem < 2 ^ 32) (l : IsLoaded machine)
    (fk : Fresh low (divide all_mem).kernel_bits (divide all_mem).kbm_length kernel)
    (fu : Fresh low (divide all_mem).user_bits (divide all_mem).ubm_length user)
    (fv : Fresh low (divide all_mem).vaddr_bits (divide all_mem).kbm_length vaddr)
    (guard : digit (low ((divide all_mem).vaddr_bits + (divide all_mem).kbm_length)) 0 ≡ true) where
  abbrev whole : Space
  whole = record { memory = with_bitmaps all_mem kernel user vaddr m; machine = machine }

  division : IsDivision all_mem (divide all_mem)
  division = divide-IsDivision all_mem h lt

  whole-IsKernelSpace : IsKernelSpace whole
  whole-IsKernelSpace =
      let (a, b, c) = divide_small all_mem in
      record {
        ready = record {
          tables = l.tables;
          pool = record { bitmap = fk.valid; frames = omega (arith, fk.len) };
          aligned = ap (λ t. t % 4096) c;
          positive = omega (arith, c);
        };
        range = record {
          virtual = record {
            bitmap = fv.valid;
            positive = omega arith;
            addresses = omega (arith, fv.len);
          };
          aligned = refl;
          low = omega arith;
          top = omega (arith, fv.len);
          behind = ap (λ t. used vaddr (t * 8)) fv.len ∙ fv.behind ∙ guard;
          unmapped = λ i u il free k e. l.unmapped u k (omega arith);
        };
      }

  whole-IsInitial : IsInitial all_mem whole
  whole-IsInitial =
      let (a, b, c) = divide_small all_mem in
      let d = division in
      record {
        space = whole-IsKernelSpace;
        plain = record {
          plain = λ i il free. record {
            aligned = omega (arith, c);
            directory = λ e. omega (arith, l.directory);
            tables = λ u k e. omega (arith, l.low u k);
          };
        };
        free_frame = λ i il. fk.free i (omega (arith, fk.len));
        free_page = λ i il. fv.free i (omega (arith, fv.len));
        user = record {
          bitmap = fu.valid;
          frames = omega (arith, fu.len, d.inside, d.user_bitmap);
        };
        free_user = λ i il. fu.free i (omega (arith, fu.len));
        apart = omega (arith, fk.len, d.adjacent, d.kernel_bitmap);
        inside = omega (arith, fu.len, d.inside, d.user_bitmap);
        bits = ap (λ t. t * 8) fk.len;
        same_bits = ap (λ t. t * 8) fv.len;
        heap = refl;
      }

-- On a memory of at least 2 MB that 32 bits can count, whose low part holds bytes, the byte behind the
-- bitmap of the addresses an odd one, with the paging of the loader, `mem_pool_init` succeeds. The
-- memory of the kernel is then well formed and no free frame holds a table; every frame of either
-- pool and every page of the heap is free, and the user's frames lie behind the kernel's, inside
-- the memory.
pub mem_pool_init-IsInitial :
    (low : ℕ → ℕ) (all_mem : ℕ) (m : Memory) (machine : Machine)
    → used_mem ≤ all_mem
    → all_mem < 2 ^ 32
    → ((a : ℕ) → low a < 256)
    → low ((divide all_mem).vaddr_bits + (divide all_mem).kbm_length) % 2 ≡ 1
    → IsLoaded machine
    → (m' : Memory) × (mem_pool_init low all_mem m ≡ ok m')
      × IsInitial all_mem (record { memory = m'; machine = machine })
unfolding digit
mem_pool_init-IsInitial low all_mem m machine h lt bytes guard l =
    let d = divide all_mem in
    let (a, b, c) = divide_small all_mem in
    let (kernel, rk, fk) = clear_bitmap-Fresh low d.kernel_bits d.kbm_length bytes (omega arith) in
    let (user, ru, fu) = clear_bitmap-Fresh low d.user_bits d.ubm_length bytes (omega arith) in
    let (vaddr, rv, fv) = clear_bitmap-Fresh low d.vaddr_bits d.kbm_length bytes (omega arith) in
    (
      with_bitmaps all_mem kernel user vaddr m,
      mem_pool_init_steps low all_mem m kernel user vaddr rk ru rv,
      whole-IsInitial low all_mem m machine kernel user vaddr h lt l fk fu fv
          (ground (arith, guard)),
    )
