-- ===== src/Spawn/Fresh.antt =====
-- The pages that no task has, and the invariant of the system.
use oslearn.Base.{
  ℕ, ◌+◌, ◌*◌, ◌<◌, ◌≡◌, ◌≢◌, refl, ap, sym, ◌∙◌, false, ==_of_ne, List, [], ◌∷◌, ◌++◌, has,
  has-append, arith,
}
use oslearn.Bitmap.Bits.{used}
use oslearn.Thread.State.{Task, TaskStatus, task_ready}
use oslearn.Thread.Invariant.{IsKernel, IsKernel-intr}
use oslearn.Memory.{pg_size}
use oslearn.Interrupt.Status.{IntrStatus}
use oslearn.Memory.Alloc.{Space}
use oslearn.Memory.Alloc.Kernel.{addresses, page_bits, IsKernelSpace}
use oslearn.Memory.Alloc.Given.{Given}
use oslearn.Memory.Alloc.Granted.{HasPlainFrames, Granted}
use oslearn.Sync.Within.{IsWithin}
use oslearn.Spawn.{System}

-- No free page of the kernel's addresses is a task's.
pub record HasFreshPages (s : System) : Type 0 where
  pub unlisted :
      (i : ℕ)
      → i < page_bits (addresses s.space)
      → used (addresses s.space).vaddr_bitmap i ≡ false
      → has ((addresses s.space).vaddr_start + i * pg_size) s.kernel.all_list ≡ false
  pub not_ready :
      (i : ℕ)
      → i < page_bits (addresses s.space)
      → used (addresses s.space).vaddr_bitmap i ≡ false
      → (s.kernel.tasks ((addresses s.space).vaddr_start + i * pg_size)).status ≢ task_ready
  pub not_running :
      (i : ℕ)
      → i < page_bits (addresses s.space)
      → used (addresses s.space).vaddr_bitmap i ≡ false
      → (addresses s.space).vaddr_start + i * pg_size ≢ s.kernel.running
  pub not_main :
      (i : ℕ)
      → i < page_bits (addresses s.space)
      → used (addresses s.space).vaddr_bitmap i ≡ false
      → (addresses s.space).vaddr_start + i * pg_size ≢ s.main_thread

-- The scheduler and the memory are well formed, no free frame holds a table of the kernel and no free
-- page is a task's, and the running task can have the pid lock.
pub record IsSystem (s : System) : Type 0 where
  pub kernel : IsKernel s.kernel
  pub space : IsKernelSpace s.space
  pub plain : HasPlainFrames s.space
  pub fresh : HasFreshPages s
  pub lock : IsWithin s.pid_lock s.kernel

abbrev page_at : System → ℕ → ℕ
page_at s i = (addresses s.space).vaddr_start + i * pg_size

abbrev status_of : Task → TaskStatus
status_of t = t.status

-- The page that a new thread gets is no longer free, and no other one is a task's.
module _ (s s' : System) (a f : ℕ) (fresh : HasFreshPages s) (given : Given s.space s'.space a f)
    (all_list : s'.kernel.all_list ≡ s.kernel.all_list ++ a ∷ [])
    (running : s'.kernel.running ≡ s.kernel.running) (main_thread : s'.main_thread ≡ s.main_thread)
    (tasks : (t : ℕ) → t ≢ a → s'.kernel.tasks t ≡ s.kernel.tasks t) where
  same : (i : ℕ) → page_at s' i ≡ page_at s i
  same i = ap (λ t. t + i * pg_size) given.granted.pages.start

  inside : (i : ℕ) → i < page_bits (addresses s'.space) → i < page_bits (addresses s.space)
  inside i lt = omega (arith, given.granted.pages.len)

  was_free :
      (i : ℕ)
      → used (addresses s'.space).vaddr_bitmap i ≡ false
      → used (addresses s.space).vaddr_bitmap i ≡ false
  was_free i u = ground (arith, given.granted.pages.bit i)

  other : (i : ℕ) → used (addresses s'.space).vaddr_bitmap i ≡ false → page_at s i ≢ a
  other i u e =
      let d : i ≡ given.granted.page = omega (arith, given.granted.place) in
      ground (arith, given.granted.pages.bit i)

  pub spawned-HasFreshPages : HasFreshPages s'
  spawned-HasFreshPages = record {
    unlisted = λ i lt u.
        ap (λ p. has p s'.kernel.all_list) (same i)
        ∙ ap (has (page_at s i)) all_list
        ∙ has-append (page_at s i) s.kernel.all_list (a ∷ [])
        ∙ rw (fresh.unlisted i (inside i lt) (was_free i u), ==_of_ne (page_at s i) a (other i u))
            refl;
    not_ready = λ i lt u e. fresh.not_ready i (inside i lt) (was_free i u) (
        ap status_of (sym (tasks (page_at s i) (other i u)))
        ∙ ap (λ p. (s'.kernel.tasks p).status) (sym (same i))
        ∙ e);
    not_running =
        λ i lt u e. fresh.not_running i (inside i lt) (was_free i u) (sym (same i) ∙ e ∙ running);
    not_main =
        λ i lt u e. fresh.not_main i (inside i lt) (was_free i u) (sym (same i) ∙ e ∙ main_thread);
  }

-- The page is no task's.
pub record IsNobody (s : System) (a : ℕ) : Type 0 where
  pub unlisted : has a s.kernel.all_list ≡ false
  pub not_ready : (s.kernel.tasks a).status ≢ task_ready
  pub not_running : a ≢ s.kernel.running
  pub not_main : a ≢ s.main_thread

pub Given-IsNobody :
    (s : System) {space : Space} (a f : ℕ)
    → HasFreshPages s
    → Given s.space space a f
    → IsNobody s a
Given-IsNobody s a f fresh given =
    let i = given.granted.page in
    let place = given.granted.place in
    let inside : i < page_bits (addresses s.space) = omega (arith, given.granted.pages.inside) in
    let was_free : used (addresses s.space).vaddr_bitmap i ≡ false =
      ap (used (addresses s.space).vaddr_bitmap) (omega arith)
      ∙ given.granted.pages.was_free 0 (omega arith) in
    record {
      unlisted = ap (λ p. has p s.kernel.all_list) place ∙ fresh.unlisted i inside was_free;
      not_ready = λ e.
          fresh.not_ready i inside was_free (ap (λ p. (s.kernel.tasks p).status) (sym place) ∙ e);
      not_running = λ e. fresh.not_running i inside was_free (sym place ∙ e);
      not_main = λ e. fresh.not_main i inside was_free (sym place ∙ e);
    }

-- Pages that the kernel takes for itself are no task's either.
pub granted-IsSystem :
    {s : System} {space : Space} {a : ℕ} {fs : List ℕ}
    → IsSystem s
    → Granted s.space space a fs
    → IsSystem (record s { space = space })
granted-IsSystem {s} {space} sys g = record {
  kernel = sys.kernel;
  space = g.space;
  plain = g.plain;
  fresh = record {
    unlisted = λ i lt u.
        ap (λ p. has p s.kernel.all_list) (same i)
        ∙ sys.fresh.unlisted i (inside i lt) (was_free i u);
    not_ready = λ i lt u e.
        sys.fresh.not_ready i (inside i lt) (was_free i u)
          (ap (λ p. (s.kernel.tasks p).status) (sym (same i)) ∙ e);
    not_running =
        λ i lt u e. sys.fresh.not_running i (inside i lt) (was_free i u) (sym (same i) ∙ e);
    not_main = λ i lt u e. sys.fresh.not_main i (inside i lt) (was_free i u) (sym (same i) ∙ e);
  };
  lock = sys.lock;
}
  where
    same :
        (i : ℕ)
        → (addresses space).vaddr_start + i * pg_size
          ≡ (addresses s.space).vaddr_start + i * pg_size
    same i = ap (λ t. t + i * pg_size) g.pages.start

    inside : (i : ℕ) → i < page_bits (addresses space) → i < page_bits (addresses s.space)
    inside i lt = omega (arith, g.pages.len)

    was_free :
        (i : ℕ)
        → used (addresses space).vaddr_bitmap i ≡ false
        → used (addresses s.space).vaddr_bitmap i ≡ false
    was_free i u = ground (arith, g.pages.bit i)

-- The invariant does not depend on the interrupt flag.
pub IsSystem-intr :
    (s : System) (flag : IntrStatus)
    → IsSystem s
    → IsSystem (record s { kernel = record (s.kernel) { intr = flag } })
IsSystem-intr s flag sys = record {
  kernel = IsKernel-intr s.kernel flag sys.kernel;
  space = sys.space;
  plain = sys.plain;
  fresh = record {
    unlisted = sys.fresh.unlisted;
    not_ready = sys.fresh.not_ready;
    not_running = sys.fresh.not_running;
    not_main = sys.fresh.not_main;
  };
  lock = record { count = sys.lock.count; near = sys.lock.near };
}
