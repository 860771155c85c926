-- ===== src/Syscall/Getpid.antt =====
-- What a user gets.
use oslearn.Base.{
  ℕ, zero, suc, ◌^◌, ◌<◌, ◌≤◌, ◌≡◌, ◌≢◌, refl, ◌∙◌, List, [], ◌∷◌, ◌++◌, length, get_elem?,
  get_elem?-eq-get_or, get_or-set_self, length-set, set, ==_of_ne, ==-refl, none, some, ok, fault,
  arith,
}
use oslearn.Thread.State.{Kernel, current}
use oslearn.Syscall.{
  syscall_nr, sys_getpid_nr, syscall_init, sys_getpid, load_eoi, call_entry, syscall_handler,
  getpid,
}

get_elem?_behind : (xs : List ℕ) (i : ℕ) → length xs ≤ i → get_elem? xs i ≡ none
get_elem?_behind [] zero h = refl
get_elem?_behind [] (suc i) h = refl
get_elem?_behind (x ∷ xs) zero h = absurd (omega arith)
get_elem?_behind (x ∷ xs) (suc i) h = get_elem?_behind xs i (omega arith)

get_elem?_next : (xs ys : List ℕ) (y i : ℕ) → length xs ≡ i → get_elem? (xs ++ y ∷ ys) i ≡ some y
get_elem?_next [] ys y zero h = refl
get_elem?_next [] ys y (suc i) h = absurd (omega arith)
get_elem?_next (x ∷ xs) ys y zero h = absurd (omega arith)
get_elem?_next (x ∷ xs) ys y (suc i) h = get_elem?_next xs ys y i (omega arith)

-- An entry that is not there cannot be called.
call_entry_behind :
    (f : ℕ) (table : List ℕ) (i : ℕ) (k : Kernel)
    → length table ≤ i
    → call_entry f table i k ≡ fault
unfolding call_entry
call_entry_behind f table i k h = simp (get_elem?_behind table i h)

-- The call through the entry that `syscall_init` has filled gives the pid.
call_entry-syscall_init :
    (f : ℕ) (table : List ℕ) (k : Kernel)
    → length table ≡ syscall_nr
    → f ≢ 0
    → (current k).pid < 2 ^ 15
    → call_entry f (syscall_init f table) sys_getpid_nr k ≡ ok (current k).pid
unfolding call_entry syscall_init sys_getpid
call_entry-syscall_init f table k len ne small =
    simp
      (
        get_elem?-eq-get_or (set table 0 f) 0 0 (omega (arith, length-set table 0 f)),
        get_or-set_self table 0 f 0 (omega arith),
        ==_of_ne f 0 ne,
        ==-refl f,
      )
      (ground arith)

length-syscall_init : (f : ℕ) (table : List ℕ) → length (syscall_init f table) ≡ length table
unfolding syscall_init
length-syscall_init f table = length-set table 0 f

-- No number in eax leads into the table.
init_below :
    (f : ℕ) (table : List ℕ) (eax : ℕ)
    → length table ≡ syscall_nr
    → length (syscall_init f table) ≤ load_eoi eax
unfolding load_eoi
init_below f table eax len = omega (arith, length-syscall_init f table)

getpid_next :
    (f word : ℕ) (table behind : List ℕ) (k : Kernel)
    → length table ≡ syscall_nr
    → word ≢ f
    → getpid f (syscall_init f table ++ word ∷ behind) k ≡ fault
unfolding getpid syscall_handler load_eoi call_entry
getpid_next f word table behind k len other =
    simp
      (
        get_elem?_next (syscall_init f table) behind word 32 (length-syscall_init f table ∙ len),
        ==_of_ne word f other,
      )
      (ground arith)

-- `syscall_init` of a table of full length fills the entry with which the call for `getpid` would give
-- the pid of the running task, as long as pids have not wrapped around to negative ones. But
-- `syscall_handler` has the command for the controllers in the low byte of eax by then: whatever the
-- number in eax, it calls an entry behind the table, and `getpid` calls the word directly behind it,
-- which faults unless that word is the address of `sys_getpid`.
pub getpid-syscall_init :
    (sys_getpid_at : ℕ) (table : List ℕ) (k : Kernel)
    → length table ≡ syscall_nr
    → sys_getpid_at ≢ 0
    → (current k).pid < 2 ^ 15
    → (call_entry sys_getpid_at (syscall_init sys_getpid_at table) sys_getpid_nr k
        ≡ ok (current k).pid)
      × ((eax : ℕ) → syscall_handler sys_getpid_at (syscall_init sys_getpid_at table) eax k ≡ fault)
      × ((word : ℕ) (behind : List ℕ)
          → word ≢ sys_getpid_at
          → getpid sys_getpid_at (syscall_init sys_getpid_at table ++ word ∷ behind) k ≡ fault)
unfolding syscall_handler
getpid-syscall_init f table k len ne small = (
  call_entry-syscall_init f table k len ne small,
  λ eax. call_entry_behind f _ (load_eoi eax) k (init_below f table eax len),
  λ word behind other. getpid_next f word table behind k len other,
)
