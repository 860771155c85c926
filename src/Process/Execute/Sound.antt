-- ===== src/Process/Execute/Sound.antt =====
-- `process_execute` as a whole.
use oslearn.Base.{length, true, ℕ, ◌+◌, ◌*◌, ◌<◌, ◌≡◌, ◌≢◌, false, List, [], ◌∷◌, ◌++◌, u16, ok}
use oslearn.Bitmap.Bits.{used}
use oslearn.Thread.State.{Kernel}
use oslearn.Sync.{Lock}
use oslearn.Memory.{pg_size}
use oslearn.Memory.Addresses.{IsVirtual}
use oslearn.Memory.Alloc.Page.{Shows}
use oslearn.Console.{Console}
use oslearn.Spawn.Fresh.{IsSystem}
use oslearn.Process.{user_vaddr_start}
use oslearn.Process.Directory.{IsPageDir}
use oslearn.Process.Execute.Steps.{process_task, with_process}
use oslearn.Process.Execute.{Programs, Texts}
use oslearn.Machine.{load}
use oslearn.Memory.Alloc.Kernel.{addresses}
use oslearn.Memory.Alloc.Granted.{frame_at}
use oslearn.Memory.Alloc.Chain.{Gets}
use oslearn.Process.Execute.Grants.{Grants}

-- What `process_execute` has done: the page `a` holds a ready task with the next pid, at the end of
-- both lists, from whose stack the first switch to it starts `kernel_thread` (`kt`) with
-- `start_process` (`start`) and the program. Its directory `dir` shows the kernel and maps nothing
-- below it, and its addresses, which end where the kernel begins, are all free. The frame of the
-- task, the 23 of the bitmap and the one of the directory are different and were free, and they
-- alone are taken; the pages of the task and the directory are.
pub record IsExecuted (kt start filename : ℕ) (t : Texts) (name : List ℕ) (s s' : Programs) (a : ℕ)
    : Type 0 where
  pub system : IsSystem s'.system
  pub frame : ℕ
  pub task_page : Shows s'.system.space.machine a frame
  pub eip : load s'.system.space.machine (a + 3680) ≡ ok kt
  pub function : load s'.system.space.machine (a + 3688) ≡ ok start
  pub func_arg : load s'.system.space.machine (a + 3692) ≡ ok filename
  pub page_index : ℕ
  pub bit_frames : List ℕ
  pub dir_index : ℕ
  pub count : length bit_frames ≡ 23
  pub gets : Gets s.system.space s'.system.space (page_index ∷ (bit_frames ++ dir_index ∷ []))
  pub frame_place : frame ≡ frame_at s.system.space page_index
  pub page : ℕ
  pub page_place : a ≡ (addresses s.system.space).vaddr_start + page * pg_size
  pub page_free : used (addresses s.system.space).vaddr_bitmap page ≡ false
  pub page_taken : used (addresses s'.system.space).vaddr_bitmap page ≡ true
  pub dir : ℕ
  pub dir_frame : ℕ
  pub dir_place : dir_frame ≡ frame_at s.system.space dir_index
  pub dir_page : ℕ
  pub dir_at : dir ≡ (addresses s.system.space).vaddr_start + dir_page * pg_size
  pub dir_taken : used (addresses s'.system.space).vaddr_bitmap dir_page ≡ true
  pub is_dir : IsPageDir s'.system.space.machine dir_frame
  pub shows : Shows s'.system.space.machine dir dir_frame
  pub task : s'.system.kernel.tasks a ≡ process_task a (u16 (s.system.next_pid + 1)) dir
  pub tasks : (u : ℕ) → u ≢ a → s'.system.kernel.tasks u ≡ s.system.kernel.tasks u
  pub ready_list : s'.system.kernel.ready_list ≡ s.system.kernel.ready_list ++ a ∷ []
  pub all_list : s'.system.kernel.all_list ≡ s.system.kernel.all_list ++ a ∷ []
  pub intr : s'.system.kernel.intr ≡ s.system.kernel.intr
  pub running : s'.system.kernel.running ≡ s.system.kernel.running
  pub main_thread : s'.system.main_thread ≡ s.system.main_thread
  pub next_pid : s'.system.next_pid ≡ u16 (s.system.next_pid + 1)
  pub pid_lock : s'.system.pid_lock.holder ≡ s.system.kernel.running
  pub virtual : IsVirtual (s'.userprog_vaddr a)
  pub begins : (s'.userprog_vaddr a).vaddr_start ≡ user_vaddr_start
  pub ends :
      (s'.userprog_vaddr a).vaddr_start
        + (s'.userprog_vaddr a).vaddr_bitmap.btmp_bytes_len * 8 * pg_size
      ≡ 0xc0000000
  pub all_free :
      (i : ℕ)
      → i < (s'.userprog_vaddr a).vaddr_bitmap.btmp_bytes_len * 8
      → used (s'.userprog_vaddr a).vaddr_bitmap i ≡ false
  pub others : (u : ℕ) → u ≢ a → s'.userprog_vaddr u ≡ s.userprog_vaddr u
  pub screen :
      s'.console.screen
      ≡ ((((s.console.screen ++ t.opening) ++ name) ++ t.print a) ++ t.newline) ++ t.closing

abbrev after :
    (kt start filename : ℕ) (s : Programs)
    → Grants s.system.space kt start filename
    → ℕ
    → Lock
    → Console
    → Programs
after kt start filename s g pid l c =
    with_process g.page pid g.dir g.space₃ g.vaddr c
      (record (s.system) { pid_lock = l; next_pid = pid }) s
