-- ===== src/Syscall/Tests.antt =====
-- The pid of a sample task.
use oslearn.Base.{ℕ, ◌≡◌, ◌≢◌, refl, List, ◌∷◌, ◌++◌, ok, fault, arith}
use oslearn.Thread.State.{current}
use oslearn.Thread.Sample.{sample}
use oslearn.Syscall.{sys_getpid_nr, no_calls, syscall_init, call_entry, syscall_handler, getpid}
use oslearn.Syscall.Getpid.{getpid-syscall_init}

getpid-syscall_init_example :
    (call_entry 0xc0001d00 (syscall_init 0xc0001d00 no_calls) sys_getpid_nr (sample 5)
      ≡ ok (current (sample 5)).pid)
    × ((eax : ℕ)
        → syscall_handler 0xc0001d00 (syscall_init 0xc0001d00 no_calls) eax (sample 5) ≡ fault)
    × ((word : ℕ) (behind : List ℕ)
        → word ≢ 0xc0001d00
        → getpid 0xc0001d00 (syscall_init 0xc0001d00 no_calls ++ word ∷ behind) (sample 5) ≡ fault)
getpid-syscall_init_example =
    getpid-syscall_init 0xc0001d00 no_calls (sample 5) refl (λ e. omega arith) (omega arith)
