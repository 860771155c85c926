-- ===== src/Interrupt/Idt.antt =====
-- `idt_init` of kernel/interrupt.c: the gates, the handlers, the controllers, and the operand of `lidt`.
use oslearn.Base.{
  ℕ, ◌+◌, ◌-◌, ◌*◌, ◌/◌, ◌%◌, ◌^◌, ◌<◌, ◌≡◌, refl, ap, ◌∙◌, List, length, get_or, set, bit_or, u32,
  ◌<<<◌, Run, ok, fault, ◌>>=◌, arith,
}
use oslearn.Base.Bits.{bit_or-fields_swap}
use oslearn.Port.{Writes}
use oslearn.Descriptor.{GateDesc, idt_desc_init, idt_desc_cnt}
use oslearn.Descriptor.Gate.{Installed, idt_desc_init-Installed, idt_desc_init_short}
use oslearn.Interrupt.Handlers.{Handlers, exception_init}
use oslearn.Interrupt.Pic.{pic_init}

-- What the calls leave behind; a gate has 8 bytes.
pub record Loaded : Type 0 where
  pub idt : List GateDesc
  pub intr_entry_table : List ℕ
  pub handlers : Handlers
  pub writes : Writes
  pub idt_operand : ℕ

-- `(sizeof(idt) - 1) | ((uint64_t)((uint32_t)idt << 16))`: the shift is in 32 bits.
abbrev pub lidt_operand : ℕ → ℕ
lidt_operand idt_addr = bit_or (8 * idt_desc_cnt - 1) (u32 (idt_addr <<< 16))

pub idt_init : List ℕ → ℕ → ℕ → ℕ → Writes → Run Loaded
idt_init intr_entry_table syscall_handler general_intr_handler idt_addr w = do
  (idt, entries) ← idt_desc_init intr_entry_table syscall_handler
  ok (record {
    idt = idt;
    intr_entry_table = entries;
    handlers = exception_init general_intr_handler;
    writes = pic_init w;
    idt_operand = lidt_operand idt_addr;
  })

lidt_operand_lem : (a : ℕ) → lidt_operand a ≡ a % 65536 * 65536 + 1031
lidt_operand_lem a =
    ap (bit_or 1031) (omega arith) ∙ bit_or-fields_swap 16 (a % 65536) 1031 (omega arith)

-- On a table of 129 entries with 32-bit addresses, `idt_init` installs the gates, and the operand of
-- `lidt` has the limit of all of them; but as the base it has only the low 16 bits of the address
-- of the table.
pub idt_init-Installed :
    (entries : List ℕ) (syscall general idt_addr : ℕ) (w : Writes)
    → length entries ≡ idt_desc_cnt
    → ((i : ℕ) → get_or entries i 0 < 2 ^ 32)
    → syscall < 2 ^ 32
    → (l : Loaded) × (idt_init entries syscall general idt_addr w ≡ ok l)
      × Installed entries syscall l.idt
      × (l.handlers ≡ exception_init general)
      × (l.writes ≡ pic_init w)
      × (l.idt_operand % 2 ^ 16 + 1 ≡ 8 * length l.idt)
      × (l.idt_operand / 2 ^ 16 ≡ idt_addr % 2 ^ 16)
unfolding idt_init
idt_init-Installed entries syscall general idt_addr w len small hs =
    let (idt, r, i) = idt_desc_init-Installed entries syscall len small hs in
    (
      record {
        idt = idt;
        intr_entry_table = set entries 0x80 syscall;
        handlers = exception_init general;
        writes = pic_init w;
        idt_operand = lidt_operand idt_addr;
      },
      rw r refl,
      i,
      refl,
      refl,
      omega (arith, lidt_operand_lem idt_addr, i.count),
      omega (arith, lidt_operand_lem idt_addr),
    )

-- With fewer entries than gates, the table is read behind its end: kernel.S has 48 entries.
pub idt_init_short :
    (entries : List ℕ) (syscall general idt_addr : ℕ) (w : Writes)
    → length entries < idt_desc_cnt
    → idt_init entries syscall general idt_addr w ≡ fault
unfolding idt_init
idt_init_short entries syscall general idt_addr w h =
    rw (idt_desc_init_short entries syscall h) refl
