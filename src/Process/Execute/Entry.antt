-- ===== src/Process/Execute/Entry.antt =====
-- `start_process` up to the page of the user's stack.
use oslearn.Base.{ℕ, ◌+◌, ◌-◌, ◌≡◌, refl, ==-refl, u32, panic, arith}
use oslearn.Thread.State.{Kernel, current, set_task}
use oslearn.Sync.Within.{IsWithin}
use oslearn.Memory.Alloc.{Space}
use oslearn.Memory.Alloc.Page.{Shows}
use oslearn.Memory.Locked.One.{get_a_page_thread}
use oslearn.Spawn.Frame.{Fit, put_fields, store_fields-Shows}
use oslearn.Process.Execute.{entry_fields, start_process}

pub entry_fits : (filename : ℕ) → Fit 948 (entry_fields filename)
entry_fits filename = (
  omega arith,
  (
    omega arith,
    (
      omega arith,
      (
        omega arith,
        (
          omega arith,
          (
            omega arith,
            (
              omega arith,
              (
                omega arith,
                (
                  omega arith,
                  (
                    omega arith,
                    (omega arith, (omega arith, (omega arith, (omega arith, (omega arith, tt))))),
                  ),
                ),
              ),
            ),
          ),
        ),
      ),
    ),
  ),
)

-- A task that has no directory of its own, on a page whose stack is as `thread_start` has left it,
-- and that can have the lock of the user's pool, stops the kernel by `start_process`.
pub start_process_thread :
    (a f filename : ℕ) (s : Space) (k : Kernel)
    → Shows s.machine a f
    → (current k).self_kstack ≡ a + 3664
    → (current k).pgdir ≡ 0
    → IsWithin s.memory.user_pool.lock k
    → start_process filename s k ≡ panic
unfolding start_process
start_process_thread a f filename s k shows stack dir lock =
    let cur = current k in
    let place : u32 (cur.self_kstack + 128) ≡ a + 3792 = omega (arith, stack, shows.kernel) in
    let k' : Kernel =
      set_task k.running (record cur { self_kstack = u32 (cur.self_kstack + 128) }) k in
    let (wrote, d) =
      store_fields-Shows (entry_fields filename) 948 (u32 (cur.self_kstack + 128)) (f + 3792)
        s.machine a f shows place refl (entry_fits filename) in
    simp
      (
        wrote,
        get_a_page_thread (0xc000000 - 4096)
            (record s { machine = put_fields (f + 3792) (entry_fields filename) s.machine }) k'
            (record { count = lock.count; near = lock.near }) (rw (==-refl k.running) dir),
      )
      refl
