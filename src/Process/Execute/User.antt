-- ===== src/Process/Execute/User.antt =====
-- `start_process` of a process.
use oslearn.Base.{
  ℕ, ◌+◌, ◌*◌, ◌%◌, ◌<◌, ◌≡◌, ◌≢◌, refl, ap, sym, subst, ◌∙◌, false, ==-refl, List, [], ◌∷◌, u32,
  ok, arith,
}
use oslearn.Bitmap.Bits.{used}
use oslearn.Machine.{Machine, load}
use oslearn.Thread.State.{Kernel, current, set_task}
use oslearn.Sync.{returned}
use oslearn.Sync.Within.{IsWithin}
use oslearn.Descriptor.{selector_u_code, selector_u_data}
use oslearn.Memory.{pf_user, pg_size}
use oslearn.Memory.Locked.{get_a_page}
use oslearn.Spawn.{store_fields}
use oslearn.Memory.Alloc.{Space}
use oslearn.Memory.Alloc.Page.{
  IsPlain, Keeps, Shows, Keeps-Shows, Keeps-HasTables, Keeps-IsPlain, same_directory,
}
use oslearn.Memory.Alloc.Granted.{HasPlainFrames}
use oslearn.Memory.Alloc.Extended.{Extends-Shows}
use oslearn.Memory.Locked.User.{HasProcess, HasUserPage, get_a_page-HasUserPage}
use oslearn.Spawn.Frame.{Fit, put_fields, store_fields-Shows}
use oslearn.Spawn.Start.{frame_load}
use oslearn.Process.Execute.{
  entry_fields, enter_user, user_stack3_vaddr, user_eflags, start_process,
}
use oslearn.Process.Execute.Entry.{entry_fits}
mod Tests

-- The stack that `intr_exit` takes from the page `a`: the registers are 0, and it leads to the program with the selectors of
-- a user, interrupts on, and the top of the user's stack.
pub record IsEntered (m : Machine) (a filename : ℕ) : Type 0 where
  pub edi : load m (a + 949 * 4) ≡ ok 0
  pub esi : load m (a + 950 * 4) ≡ ok 0
  pub ebp : load m (a + 951 * 4) ≡ ok 0
  pub esp_dummy : load m (a + 952 * 4) ≡ ok 0
  pub ebx : load m (a + 953 * 4) ≡ ok 0
  pub edx : load m (a + 954 * 4) ≡ ok 0
  pub ecx : load m (a + 955 * 4) ≡ ok 0
  pub eax : load m (a + 956 * 4) ≡ ok 0
  pub gs : load m (a + 957 * 4) ≡ ok 0
  pub fs : load m (a + 958 * 4) ≡ ok selector_u_data
  pub es : load m (a + 959 * 4) ≡ ok selector_u_data
  pub ds : load m (a + 960 * 4) ≡ ok selector_u_data
  pub eip : load m (a + 962 * 4) ≡ ok filename
  pub cs : load m (a + 963 * 4) ≡ ok selector_u_code
  pub eflags : load m (a + 964 * 4) ≡ ok user_eflags
  pub esp : load m (a + 965 * 4) ≡ ok (user_stack3_vaddr + 4096)
  pub ss : load m (a + 966 * 4) ≡ ok selector_u_data

-- The fields that stay do not concern the page of the stack.
Keeps-HasProcess :
    {s : Space} {m : Machine} {a f i : ℕ}
    → Shows s.machine a f
    → Keeps s.machine m
    → HasProcess s i
    → HasProcess (record s { machine = m }) i
Keeps-HasProcess {s} {m} {a} {f} {i} shows d w =
    let v = s.memory.userprog_vaddr.vaddr_start + i * pg_size in
    record {
      directory = (Keeps-HasTables shows.tables d).directory;
      virtual = w.virtual;
      aligned = w.aligned;
      ends = w.ends;
      not_first = w.not_first;
      inside = w.inside;
      no_table =
          ap (λ t. m.words t % 2) (omega (arith, d.cr3))
          ∙ ap (λ t. t % 2)
              (same_directory shows.tables d v (omega (arith, w.virtual.addresses, w.inside)))
          ∙ w.no_table;
      user = w.user;
      user_aligned = w.user_aligned;
      user_positive = w.user_positive;
      user_free = w.user_free;
      user_inside = w.user_inside;
      user_unused = w.user_unused;
      kernel = w.kernel;
      kernel_aligned = w.kernel_aligned;
      kernel_free = w.kernel_free;
      kernel_inside = w.kernel_inside;
      kernel_unused = w.kernel_unused;
      apart = λ j u e. w.apart j u (e ∙ d.cr3);
    }

-- What has to hold before `start_process`: the task's page, whose frame is not free, shows its frame,
-- the stack is as `thread_start` has left it, and the page of the user's stack can be given.
pub record CanEnter (s : Space) (k : Kernel) (a f i : ℕ) : Type 0 where
  pub shows : Shows s.machine a f
  pub plain : HasPlainFrames s
  pub own :
      (j : ℕ)
      → used s.memory.kernel_pool.pool_bitmap j ≡ false
      → s.memory.kernel_pool.phy_addr_start + j * pg_size ≢ f
  pub stack : (current k).self_kstack ≡ a + 3664
  pub process : (current k).pgdir ≢ 0
  pub lock : IsWithin s.memory.user_pool.lock k
  pub memory : HasProcess s i
  pub place : s.memory.userprog_vaddr.vaddr_start + i * pg_size ≡ user_stack3_vaddr

abbrev pub entered : ℕ → ℕ → Machine → Machine
entered f filename m = put_fields (f + 3792) (entry_fields filename) m

abbrev last_fields : List (ℕ × ℕ)
last_fields = (17, user_stack3_vaddr + 4096) ∷ (18, selector_u_data) ∷ []

entered-IsEntered :
    (a f filename : ℕ) (m m₂ : Machine)
    → Shows (put_fields (f + 3792) last_fields m₂) a f
    → ((j : ℕ) → j < 1024 → m₂.words (f + j * 4) ≡ (entered f filename m).words (f + j * 4))
    → IsEntered (put_fields (f + 3792) last_fields m₂) a filename
entered-IsEntered a f filename m m₂ shows same = record {
  edi = frame_load 949 0 shows (omega arith) (ground (arith, same 949));
  esi = frame_load 950 0 shows (omega arith) (ground (arith, same 950));
  ebp = frame_load 951 0 shows (omega arith) (ground (arith, same 951));
  esp_dummy = frame_load 952 0 shows (omega arith) (ground (arith, same 952));
  ebx = frame_load 953 0 shows (omega arith) (ground (arith, same 953));
  edx = frame_load 954 0 shows (omega arith) (ground (arith, same 954));
  ecx = frame_load 955 0 shows (omega arith) (ground (arith, same 955));
  eax = frame_load 956 0 shows (omega arith) (ground (arith, same 956));
  gs = frame_load 957 0 shows (omega arith) (ground (arith, same 957));
  fs = frame_load 958 selector_u_data shows (omega arith) (ground (arith, same 958));
  es = frame_load 959 selector_u_data shows (omega arith) (ground (arith, same 959));
  ds = frame_load 960 selector_u_data shows (omega arith) (ground (arith, same 960));
  eip = frame_load 962 filename shows (omega arith) (ground (arith, same 962));
  cs = frame_load 963 selector_u_code shows (omega arith) (ground (arith, same 963));
  eflags = frame_load 964 user_eflags shows (omega arith) (ground (arith, same 964));
  esp = frame_load 965 (user_stack3_vaddr + 4096) shows (omega arith) (ground arith);
  ss = frame_load 966 selector_u_data shows (omega arith) (ground arith);
}

-- The page of the user's stack has been given on top of `entered`; then the page of the task shows its
-- frame as before, and the words there stay.
stack_given :
    (a f i filename frame table : ℕ) (s s₂ : Space) (k : Kernel)
    → CanEnter s k a f i
    → Keeps s.machine (entered f filename s.machine)
    → HasUserPage
        (record s { machine = entered f filename s.machine })
        s₂
        user_stack3_vaddr
        i
        frame
        table
    → Shows s₂.machine a f
      × ((j : ℕ)
          → j < 1024
          → s₂.machine.words (f + j * 4) ≡ (entered f filename s.machine).words (f + j * 4))
stack_given a f i filename frame table s s₂ k c d g =
    let shows₁ = Keeps-Shows c.shows d in
    let plain : IsPlain (entered f filename s.machine) table =
      Keeps-IsPlain c.shows.tables d table (
        subst (IsPlain s.machine) (sym g.table_place)
          (c.plain.plain g.table_index g.table_inside g.table_free)) in
    (
      Extends-Shows shows₁.tables g.mapped g.directory (omega arith) plain shows₁,
      λ j lt.
          g.mapped.words (f + j * 4)
            (λ e. shows₁.plain.directory (omega (arith, shows₁.plain.aligned)))
            (λ e.
              c.own g.table_index g.table_free
                (omega (arith, shows₁.plain.aligned, g.table_place))),
    )

last_fits : Fit 948 last_fields
last_fits = (omega arith, (omega arith, tt))

-- The task with its stack moved over what `thread_create` has put there, to `top`.
abbrev pub popped : ℕ → Kernel → Kernel
popped top k = set_task k.running (record (current k) { self_kstack = top }) k

popped_dir : (top : ℕ) (k : Kernel) → (current (popped top k)).pgdir ≡ (current k).pgdir
popped_dir top k = rw (==-refl k.running) refl

enter_steps :
    (a filename : ℕ) (s s₂ : Space) (k : Kernel) (m₁ m : Machine)
    → u32 ((current k).self_kstack + 128) ≡ a + 3792
    → store_fields (a + 3792) (entry_fields filename) s.machine ≡ ok m₁
    → get_a_page pf_user user_stack3_vaddr (record s { machine = m₁ }) (popped (a + 3792) k)
      ≡ ok (returned (s₂, user_stack3_vaddr) (popped (a + 3792) k))
    → store_fields (a + 3792) last_fields s₂.machine ≡ ok m
    → start_process filename s k
      ≡ ok (returned (record s₂ { machine = m }, a + 3792) (popped (a + 3792) k))
unfolding start_process enter_user
enter_steps a filename s s₂ k m₁ m place wrote got wrote₂ = simp (place, wrote, got, wrote₂) refl

-- A task with a page directory whose stack is as `thread_start` leaves it, in a page whose frame is
-- not free and holds no table, gets through `start_process` without waiting if the lock of the user's
-- pool is free or its own, both pools have a free frame, and the 4 MB of the user's stack have no
-- table yet (`CanEnter`): the page of the user's stack is marked and mapped to a frame of the user's
-- pool, with a new table, the frames of both were free and alone are taken, and on the stack that
-- `intr_exit` takes stand cleared registers, the program's address, the selectors of a user,
-- interrupts on, and the top of the user's stack. The task keeps the lock.
pub start_process-IsEntered :
    (a f i filename : ℕ) (s : Space) (k : Kernel)
    → CanEnter s k a f i
    → (s₂ : Space) × (frame : ℕ) × (table : ℕ) × (m : Machine) × (start_process filename s k
        ≡ ok (returned (record s₂ { machine = m }, a + 3792) (popped (a + 3792) k)))
      × HasUserPage
          (record s { machine = entered f filename s.machine })
          s₂
          user_stack3_vaddr
          i
          frame
          table
      × IsEntered m a filename
      × (s₂.memory.user_pool.lock.holder ≡ k.running)
start_process-IsEntered a f i filename s k c =
    let place : u32 ((current k).self_kstack + 128) ≡ a + 3792 =
      omega (arith, c.stack, c.shows.kernel) in
    let (wrote, d) =
      store_fields-Shows (entry_fields filename) 948 (a + 3792) (f + 3792) s.machine a f c.shows
        refl refl (entry_fits filename) in
    let s₁ : Space = record s { machine = entered f filename s.machine } in
    let (s₂, frame, table, got, page, holder) =
      get_a_page-HasUserPage i s₁ (popped (a + 3792) k) (Keeps-HasProcess c.shows d c.memory)
        (record { count = c.lock.count; near = c.lock.near })
        (λ e. c.process (sym (popped_dir (a + 3792) k) ∙ e)) in
    let page' : HasUserPage s₁ s₂ user_stack3_vaddr i frame table =
      subst (λ v. HasUserPage s₁ s₂ v i frame table) c.place page in
    let (shows₂, same) = stack_given a f i filename frame table s s₂ k c d page' in
    let (wrote₂, d₂) =
      store_fields-Shows last_fields 948 (a + 3792) (f + 3792) s₂.machine a f shows₂ refl refl
        last_fits in
    (
      s₂,
      frame,
      table,
      put_fields (f + 3792) last_fields s₂.machine,
      enter_steps a filename s s₂ k (entered f filename s.machine)
          (put_fields (f + 3792) last_fields s₂.machine) place wrote
          (subst
            (λ v.
              get_a_page pf_user v s₁ (popped (a + 3792) k)
              ≡ ok (returned (s₂, v) (popped (a + 3792) k)))
            c.place got)
          wrote₂,
      page',
      entered-IsEntered a f filename s.machine s₂.machine (Keeps-Shows shows₂ d₂) same,
      holder,
    )
