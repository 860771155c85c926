-- ===== src/Syscall.antt =====
-- System calls: userprog/syscall-init.c and lib/user/syscall.c, with what
-- `syscall_handler` of kernel/kernel.S does to eax and its call through the table. A function is its address, and NULL is 0.
pub mod Getpid
mod Tests
use oslearn.Base.{
  ℕ, ◌+◌, ◌-◌, ◌*◌, ◌/◌, ◌^◌, ltb, List, get_elem?, set, replicate, ◌==◌, if◌then◌else◌, Run, ok,
  fault, ◌>>=◌, read,
}
use oslearn.Thread.State.{Kernel, current}

abbrev pub syscall_nr : ℕ
syscall_nr = 32

abbrev pub sys_getpid_nr : ℕ
sys_getpid_nr = 0

-- The table before `syscall_init`.
abbrev pub no_calls : List ℕ
no_calls = replicate syscall_nr 0

pub syscall_init : ℕ → List ℕ → List ℕ
syscall_init sys_getpid_at syscall_table = set syscall_table sys_getpid_nr sys_getpid_at

-- `pid_t` has 16 bits with a sign, and the result 32 bits without.
pub sys_getpid : Kernel → ℕ
sys_getpid k = let pid = (current k).pid in if ltb pid (2 ^ 15) then pid else pid + 2 ^ 32 - 2 ^ 16

-- The command that ends an interrupt at the controllers.
abbrev pub eoi : ℕ
eoi = 0x20

-- `mov al, EOI`: the low byte of eax.
pub load_eoi : ℕ → ℕ
load_eoi eax = eax / 256 * 256 + eoi

-- `call [syscall_table + eax * 4]`: a call of anything but a system call, NULL above all, is a fault,
-- and so is a read behind the words from the table on.
pub call_entry : ℕ → List ℕ → ℕ → Kernel → Run ℕ
call_entry sys_getpid_at syscall_table eax k = do
  function ← read (get_elem? syscall_table eax)
  if function == 0 then fault else if function == sys_getpid_at then ok (sys_getpid k) else fault

-- `syscall_handler` with the number in eax, which is no longer the number at the call. The bytes for
-- the controllers, the registers that it saves and the arguments that it pushes are left.
pub syscall_handler : ℕ → List ℕ → ℕ → Kernel → Run ℕ
syscall_handler sys_getpid_at syscall_table eax k =
    call_entry sys_getpid_at syscall_table (load_eoi eax) k

-- `int $0x80` with the number in eax
pub getpid : ℕ → List ℕ → Kernel → Run ℕ
getpid sys_getpid_at syscall_table k = syscall_handler sys_getpid_at syscall_table sys_getpid_nr k
