-- ===== src/Descriptor/Gate.antt =====
-- The gates that `idt_desc_init` makes.
use oslearn.Base.{
  ℕ, zero, suc, ◌+◌, ◌*◌, ◌/◌, ◌%◌, ◌^◌, ◌<◌, ◌≤◌, ◌≡◌, refl, ap, ◌∙◌, arith, List, [], ◌∷◌, length,
  get_or, set, get_elem?, get_elem?-eq-get_or, get_elem?-none, Bool-cases, ◌==◌, inl, inr, fault,
  get_or-set_self, get_or-set_ne, length-set, ok, some,
}
use oslearn.Base.Bits.{bit_and_low}
use oslearn.Descriptor.{
  GateDesc, make_idt_desc, make_gates, idt_desc_init, idt_desc_cnt, idt_desc_attr_dpl0,
  idt_desc_attr_dpl3,
}

abbrev pub offset_of : GateDesc → ℕ
offset_of g = g.func_offset_low_word + g.func_offset_high_word * 2 ^ 16

-- The least privilege that may take the gate by an `int` instruction.
abbrev pub dpl_of : GateDesc → ℕ
dpl_of g = g.attribute / 32 % 4

make_idt_desc-offset : (attr f : ℕ) → f < 2 ^ 32 → offset_of (make_idt_desc attr f) ≡ f
unfolding make_idt_desc
make_idt_desc-offset attr f h = omega (arith, bit_and_low 16 f, bit_and_low 16 (f / 65536))

make_idt_desc-dpl : (attr f : ℕ) → dpl_of (make_idt_desc attr f) ≡ attr / 32 % 4
unfolding make_idt_desc
make_idt_desc-dpl attr f = refl

abbrev no_gate : GateDesc
no_gate = record {
  func_offset_low_word = 0;
  selector = 0;
  dcount = 0;
  attribute = 0;
  func_offset_high_word = 0;
}

abbrev pub gate_at : List GateDesc → ℕ → GateDesc
gate_at idt i = get_or idt i no_gate

record Gates (n i : ℕ) (entries : List ℕ) (gs : List GateDesc) : Type 0 where
  count : length gs ≡ n
  each :
      (j : ℕ) → j < n → gate_at gs j ≡ make_idt_desc idt_desc_attr_dpl0 (get_or entries (i + j) 0)

make_gates-Gates :
    (n i : ℕ) (entries : List ℕ)
    → i + n ≤ length entries
    → (gs : List GateDesc) × (make_gates n i entries ≡ ok gs) × Gates n i entries gs
unfolding make_gates
make_gates-Gates zero i entries h =
    ([], refl, record { count = refl; each = λ j l. absurd (omega arith) })
make_gates-Gates (suc n) i entries h =
    let (gs, r, g) = make_gates-Gates n (i + 1) entries (omega arith) in
    (
      make_idt_desc idt_desc_attr_dpl0 (get_or entries i 0) ∷ gs,
      simp (get_elem?-eq-get_or entries i 0 (omega arith), r),
      record { count = ap suc g.count; each = at_place gs g.each },
    )
  where
    at_place :
        (gs : List GateDesc)
        → ((j : ℕ)
            → j < n
            → gate_at gs j ≡ make_idt_desc idt_desc_attr_dpl0 (get_or entries (i + 1 + j) 0))
        → (j : ℕ) → j < suc n
        → gate_at (make_idt_desc idt_desc_attr_dpl0 (get_or entries i 0) ∷ gs) j
          ≡ make_idt_desc idt_desc_attr_dpl0 (get_or entries (i + j) 0)
    at_place gs each zero l =
        ap (λ t. make_idt_desc idt_desc_attr_dpl0 (get_or entries t 0)) (omega arith)
    at_place gs each (suc j) l =
        each j (omega arith)
        ∙ ap (λ t. make_idt_desc idt_desc_attr_dpl0 (get_or entries t 0)) (omega arith)

-- What `idt_desc_init` promises: gate `i` leads to entry `i` and only the kernel may take it by an
-- instruction; the last gate leads to the system calls, and a user may.
pub record Installed (entries : List ℕ) (syscall : ℕ) (idt : List GateDesc) : Type 0 where
  pub count : length idt ≡ idt_desc_cnt
  pub entry : (i : ℕ) → i < 0x80 → offset_of (gate_at idt i) ≡ get_or entries i 0
  pub kernel_only : (i : ℕ) → i < 0x80 → dpl_of (gate_at idt i) ≡ 0
  pub syscall_entry : offset_of (gate_at idt 0x80) ≡ syscall
  pub user_too : dpl_of (gate_at idt 0x80) ≡ 3

-- On a table of 129 entries with 32-bit addresses, `idt_desc_init` makes 129 gates: each of the
-- first 128 leads to its entry with privilege 0, and the last to `syscall_handler` with privilege 3.
pub idt_desc_init-Installed :
    (entries : List ℕ) (syscall : ℕ)
    → length entries ≡ idt_desc_cnt
    → ((i : ℕ) → get_or entries i 0 < 2 ^ 32)
    → syscall < 2 ^ 32
    → (idt : List GateDesc) × (idt_desc_init entries syscall ≡ ok (idt, set entries 0x80 syscall))
      × Installed entries syscall idt
unfolding idt_desc_init
idt_desc_init-Installed entries syscall h small hs =
    let (gs, r, g) = make_gates-Gates idt_desc_cnt 0 entries (omega arith) in
    let last = make_idt_desc idt_desc_attr_dpl3 syscall in
    let read_back : get_elem? (set entries 0x80 syscall) 0x80 ≡ some syscall =
      get_elem?-eq-get_or (set entries 0x80 syscall) 0x80 0
        (omega (arith, length-set entries 0x80 syscall))
      ∙ ap some (get_or-set_self entries 0x80 syscall 0 (omega arith)) in
    (
      set gs 0x80 last,
      simp (r, read_back),
      record {
        count = length-set gs 0x80 last ∙ g.count;
        entry = λ i l.
            ap offset_of (first gs g.each last i l)
            ∙ make_idt_desc-offset idt_desc_attr_dpl0 (get_or entries i 0) (small i);
        kernel_only = λ i l.
            ap dpl_of (first gs g.each last i l)
            ∙ make_idt_desc-dpl idt_desc_attr_dpl0 (get_or entries i 0);
        syscall_entry =
            ap offset_of (get_or-set_self gs 0x80 last no_gate (omega (arith, g.count)))
            ∙ make_idt_desc-offset idt_desc_attr_dpl3 syscall hs;
        user_too =
            ap dpl_of (get_or-set_self gs 0x80 last no_gate (omega (arith, g.count)))
            ∙ make_idt_desc-dpl idt_desc_attr_dpl3 syscall;
      },
    )
  where
    first :
        (gs : List GateDesc)
        → ((j : ℕ)
            → j < idt_desc_cnt
            → gate_at gs j ≡ make_idt_desc idt_desc_attr_dpl0 (get_or entries (0 + j) 0))
        → (last : GateDesc) (i : ℕ) → i < 0x80
        → gate_at (set gs 0x80 last) i ≡ make_idt_desc idt_desc_attr_dpl0 (get_or entries i 0)
    first gs each last i l =
        get_or-set_ne gs 0x80 i last no_gate (omega arith)
        ∙ each i (omega arith)
        ∙ ap (λ t. make_idt_desc idt_desc_attr_dpl0 (get_or entries t 0)) (omega arith)

make_gates_short :
    (n i : ℕ) (entries : List ℕ)
    → i ≤ length entries
    → length entries < i + n
    → make_gates n i entries ≡ fault
unfolding make_gates
make_gates_short zero i entries h l = absurd (omega arith)
make_gates_short (suc n) i entries h l = elim (Bool-cases (i == length entries)) [
  | inl e ↦ rw (get_elem?-none entries i (ground arith)) refl
  | inr e ↦
      rw
        (
          get_elem?-eq-get_or entries i 0 (ground arith),
          make_gates_short n (i + 1) entries (ground arith) (omega arith),
        )
        refl
]

pub idt_desc_init_short :
    (entries : List ℕ) (syscall : ℕ)
    → length entries < idt_desc_cnt
    → idt_desc_init entries syscall ≡ fault
unfolding idt_desc_init
idt_desc_init_short entries syscall h =
    rw (make_gates_short idt_desc_cnt 0 entries (omega arith) (omega arith)) refl
