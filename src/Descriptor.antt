-- ===== src/Descriptor.antt =====
-- The descriptors of the processor's tables: kernel/global.h, the segments of userprog/tss.c and the
-- gates of kernel/interrupt.c. A descriptor is a record of its fields in memory; an address of a
-- function or of the `tss` is a number that the linker gives.
pub mod Segment
pub mod Gate
pub mod Install
mod Tests
use oslearn.Base.{
  ℕ, zero, suc, ◌+◌, ◌-◌, ◌*◌, ◌/◌, ◌%◌, ◌^◌, bit_and, bit_or, Bool, true, false, not, ◌||◌, List,
  [], ◌∷◌, get_elem?, set, ◌==◌, if◌then◌else◌, u8, u32, ◌<<<◌, ◌>>>◌, Run, ok, ◌>>=◌, read,
}

-- `a || b` of two numbers
abbrev pub either : ℕ → ℕ → ℕ
either a b = if not (a == 0) || not (b == 0) then 1 else 0

-- Selectors: the index of a descriptor, the table, and the privilege of the request.
abbrev pub selector_k_code : ℕ
selector_k_code = bit_or (bit_or (1 <<< 3) (0 <<< 2)) 0

abbrev pub selector_k_data : ℕ
selector_k_data = bit_or (bit_or (2 <<< 3) (0 <<< 2)) 0

abbrev pub selector_k_stack : ℕ
selector_k_stack = selector_k_data

abbrev pub selector_tss : ℕ
selector_tss = bit_or (bit_or (4 <<< 3) (0 <<< 2)) 0

abbrev pub selector_u_code : ℕ
selector_u_code = bit_or (bit_or (5 <<< 3) (0 <<< 2)) 3

abbrev pub selector_u_data : ℕ
selector_u_data = bit_or (bit_or (6 <<< 3) (0 <<< 2)) 3

-- The second `|` of the line is `||` in the source, which binds weaker than `|`.
abbrev pub gdt_attr_high : ℕ
gdt_attr_high = either (bit_or (1 <<< 7) (1 <<< 6)) (bit_or (0 <<< 5) (0 <<< 4))

abbrev pub gdt_code_attr_low_dpl3 : ℕ
gdt_code_attr_low_dpl3 = bit_or (bit_or (bit_or (1 <<< 7) (3 <<< 5)) (1 <<< 4)) 8

abbrev pub gdt_data_attr_low_dpl3 : ℕ
gdt_data_attr_low_dpl3 = bit_or (bit_or (bit_or (1 <<< 7) (3 <<< 5)) (1 <<< 4)) 2

abbrev pub tss_attr_high : ℕ
tss_attr_high = bit_or (bit_or (bit_or (bit_or (1 <<< 7) (0 <<< 6)) (0 <<< 5)) (0 <<< 4)) 0

abbrev pub tss_attr_low : ℕ
tss_attr_low = bit_or (bit_or (bit_or (1 <<< 7) (0 <<< 5)) (0 <<< 4)) 9

abbrev pub idt_desc_attr_dpl0 : ℕ
idt_desc_attr_dpl0 = bit_or (bit_or (1 <<< 7) (0 <<< 5)) 0xe

abbrev pub idt_desc_attr_dpl3 : ℕ
idt_desc_attr_dpl3 = bit_or (bit_or (1 <<< 7) (3 <<< 5)) 0xe

pub record GdtDesc : Type 0 where
  pub limit_low_word : ℕ
  pub base_low_word : ℕ
  pub base_mid_byte : ℕ
  pub attr_low_byte : ℕ
  pub limit_high_attr_high : ℕ
  pub base_high_byte : ℕ

pub make_gdt_desc : ℕ → ℕ → ℕ → ℕ → GdtDesc
make_gdt_desc desc_base limit attr_low attr_high = record {
  limit_low_word = bit_and limit 0xffff;
  base_low_word = bit_and desc_base 0xffff;
  base_mid_byte = bit_and desc_base 0xff0000 >>> 16;
  attr_low_byte = attr_low;
  limit_high_attr_high = u8 (bit_or (bit_and limit 0xf0000 >>> 16) attr_high);
  base_high_byte = desc_base >>> 24;
}

pub record GateDesc : Type 0 where
  pub func_offset_low_word : ℕ
  pub selector : ℕ
  pub dcount : ℕ
  pub attribute : ℕ
  pub func_offset_high_word : ℕ

pub make_idt_desc : ℕ → ℕ → GateDesc
make_idt_desc attr function = record {
  func_offset_low_word = bit_and function 0xffff;
  selector = selector_k_code;
  dcount = 0;
  attribute = attr;
  func_offset_high_word = bit_and (function >>> 16) 0xffff;
}

abbrev pub idt_desc_cnt : ℕ
idt_desc_cnt = 0x81

-- The loop of `idt_desc_init` from gate `i` on, with `n` gates to go.
pub make_gates : ℕ → ℕ → List ℕ → Run (List GateDesc)
make_gates zero i intr_entry_table = ok []
make_gates (suc n) i intr_entry_table = do
  function ← read (get_elem? intr_entry_table i)
  rest ← make_gates n (i + 1) intr_entry_table
  ok (make_idt_desc idt_desc_attr_dpl0 function ∷ rest)

-- The gates, and the entry table with the entry of the system calls.
pub idt_desc_init : List ℕ → ℕ → Run (List GateDesc × List ℕ)
idt_desc_init intr_entry_table syscall_handler = do
  let lastindex = idt_desc_cnt - 1
  idt ← make_gates idt_desc_cnt 0 intr_entry_table
  let entries = set intr_entry_table lastindex syscall_handler
  function ← read (get_elem? entries lastindex)
  ok (set idt lastindex (make_idt_desc idt_desc_attr_dpl3 function), entries)

-- The fields of the `tss` that the kernel writes; `memset` has cleared the others. It has 27 words.
pub record Tss : Type 0 where
  pub esp0 : ℕ
  pub ss0 : ℕ
  pub io_base : ℕ

abbrev pub tss_size : ℕ
tss_size = 27 * 4

unfoldable pub update_tss_esp : ℕ → Tss → Tss
update_tss_esp pthread tss = record tss { esp0 = u32 (pthread + 4096) }

-- The descriptors by their index, from `GDT_BASE` on.
abbrev pub Gdt : Type 0
Gdt = ℕ → GdtDesc

abbrev pub put_desc : ℕ → GdtDesc → Gdt → Gdt
put_desc i d gdt j = if i == j then d else gdt j

-- `tss_init`, with the operands of `lgdt` and `ltr`. `tss_addr` is where the `tss` lies.
pub tss_init : ℕ → Gdt → Tss × Gdt × ℕ × ℕ
tss_init tss_addr gdt =
    let tss : Tss = record { esp0 = 0; ss0 = selector_k_stack; io_base = tss_size } in
    let gdt₁ : Gdt =
      put_desc 4 (make_gdt_desc tss_addr (tss_size - 1) tss_attr_low tss_attr_high) gdt in
    let gdt₂ : Gdt =
      put_desc 5 (make_gdt_desc 0 0xfffff gdt_code_attr_low_dpl3 gdt_attr_high) gdt₁ in
    let gdt₃ : Gdt =
      put_desc 6 (make_gdt_desc 0 0xfffff gdt_data_attr_low_dpl3 gdt_attr_high) gdt₂ in
    (tss, gdt₃, bit_or (8 * 7 - 1) ((0xc0000000 + 0x900) <<< 16), selector_tss)
