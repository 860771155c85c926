-- ===== src/Interrupt/Handlers.antt =====
-- The table of handlers and the names of the exceptions in kernel/interrupt.c. A handler is the address
-- of a function.
use oslearn.Base.{
  ℕ, ◌<◌, ◌≤◌, ◌≡◌, ◌≢◌, refl, ap, sym, ◌∙◌, ◌||◌, ◌==◌, some, List, [], ◌∷◌, ◌++◌, get_elem?,
  get_or, set, length, length-set, get_elem?-eq-get_or, get_elem?-none, get_or-set_self,
  get_or-set_ne, replicate, if◌then◌else◌, Run, ok, panic, fault, ◌>>=◌, read, arith,
}
use oslearn.Descriptor.{idt_desc_cnt}

-- The strings of `intr_name`.
pub data ExceptionName : Type 0 where
  unknown divide_error debug_exception nmi_interrupt breakpoint overflow bound_range : ExceptionName
  invalid_opcode device_not_available double_fault coprocessor_overrun : ExceptionName
  invalid_tss segment_not_present stack_fault general_protection page_fault : ExceptionName
  fpu_error alignment_check machine_check simd_exception : ExceptionName

pub record Handlers : Type 0 where
  pub idt_table : List ℕ
  pub intr_name : List ExceptionName

-- Entry 15 is reserved and keeps the name that all get first, and so do those from 20 on.
abbrev pub named : List ExceptionName
named =
    divide_error ∷ debug_exception ∷ nmi_interrupt ∷ breakpoint ∷ overflow ∷ bound_range
    ∷ invalid_opcode ∷ device_not_available ∷ double_fault ∷ coprocessor_overrun ∷ invalid_tss
    ∷ segment_not_present ∷ stack_fault ∷ general_protection ∷ page_fault ∷ unknown ∷ fpu_error
    ∷ alignment_check ∷ machine_check ∷ simd_exception ∷ []

unfoldable pub exception_init : ℕ → Handlers
exception_init general_intr_handler = record {
  idt_table = replicate idt_desc_cnt general_intr_handler;
  intr_name = named ++ replicate 109 unknown;
}

-- A vector number is a byte, and the table is shorter: a write behind it is a fault here.
pub register_handler : ℕ → ℕ → Handlers → Run Handlers
register_handler vector_no function h = do
  old ← read (get_elem? h.idt_table vector_no)
  ok (record h { idt_table = set h.idt_table vector_no function })

-- Spurious interrupts are left alone; for the others the exception is shown and the kernel stops.
pub general_intr_handler : ℕ → Handlers → Run (Unit {0})
general_intr_handler vec_nr h =
    if (0x27 == vec_nr) || (0x2f == vec_nr)
    then ok tt
    else (do name ← read (get_elem? h.intr_name vec_nr); panic)

-- With a table of full length, registering a handler for one of its vectors changes the entry of that
-- vector only; a vector behind it is written out of the table.
pub register_handler-entries :
    (vector_no function : ℕ) (h : Handlers)
    → length h.idt_table ≡ idt_desc_cnt
    → ((vector_no < 0x81)
        → (h' : Handlers) × (register_handler vector_no function h ≡ ok h')
          × (length h'.idt_table ≡ idt_desc_cnt)
          × (get_elem? h'.idt_table vector_no ≡ some function)
          × ((i : ℕ) → i ≢ vector_no → get_or h'.idt_table i 0 ≡ get_or h.idt_table i 0))
      × ((0x81 ≤ vector_no) → register_handler vector_no function h ≡ fault)
unfolding register_handler
register_handler-entries v f h len = (
  λ lt. (
    record h { idt_table = set h.idt_table v f },
    rw (get_elem?-eq-get_or h.idt_table v 0 (omega arith)) refl,
    length-set h.idt_table v f ∙ len,
    get_elem?-eq-get_or (set h.idt_table v f) v 0 (omega (arith, length-set h.idt_table v f))
        ∙ ap some (get_or-set_self h.idt_table v f 0 (omega arith)),
    λ i ne. get_or-set_ne h.idt_table v i f 0 (λ e. ne (sym e)),
  ),
  λ le. rw (get_elem?-none h.idt_table v (omega arith)) refl,
)
