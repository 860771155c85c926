-- ===== src/Descriptor/Install.antt =====
-- The global table after `tss_init`.
use oslearn.Base.{ℕ, ◌+◌, ◌-◌, ◌*◌, ◌/◌, ◌%◌, ◌^◌, ◌<◌, ◌≡◌, ◌⊎◌, refl, arith}
use oslearn.Descriptor.{
  GdtDesc, Gdt, make_gdt_desc, tss_init, Tss, tss_size, tss_attr_low, selector_k_stack,
  selector_u_code, selector_u_data,
}
use oslearn.Descriptor.Segment.{base_of, limit_of, flags_of, last_offset, make_gdt_desc-fields}

-- Type and privilege in the low attributes.
abbrev pub type_of : GdtDesc → ℕ
type_of d = d.attr_low_byte % 32

abbrev pub privilege_of : GdtDesc → ℕ
privilege_of d = d.attr_low_byte / 32 % 4

-- The descriptor that a selector names.
abbrev pub selected : Gdt → ℕ → GdtDesc
selected gdt selector = gdt (selector / 8)

-- The task register's selector names a descriptor of the `tss`. Its limit field is the size less 1, but
-- counts 4 KB pages, since TSS_ATTR_HIGH sets the granularity: for the processor the segment goes on
-- far behind the `tss`, and `io_base`, the size, is an offset inside it. A user's selectors name
-- segments of their privilege that start at 0 and end below 1 MB; the other descriptors stay.
pub record Installs (tss_addr : ℕ) (gdt : Gdt) (tss : Tss) (gdt' : Gdt) (tr : ℕ) : Type 0 where
  pub base : base_of (selected gdt' tr) ≡ tss_addr
  pub limit : limit_of (selected gdt' tr) + 1 ≡ tss_size
  pub granular : flags_of (selected gdt' tr) ≡ 8
  pub last : last_offset (selected gdt' tr) ≡ (tss_size - 1) * 4096 + 4095
  pub type_tss : type_of (selected gdt' tr) ≡ 9
  pub io_base : tss.io_base ≡ tss_size
  pub io_inside : tss.io_base < last_offset (selected gdt' tr)
  pub stack : tss.ss0 ≡ selector_k_stack
  pub code_base : base_of (selected gdt' selector_u_code) ≡ 0
  pub code_end : last_offset (selected gdt' selector_u_code) ≡ 0xfffff
  pub code_type : type_of (selected gdt' selector_u_code) ≡ 24
  pub code_privilege : privilege_of (selected gdt' selector_u_code) ≡ selector_u_code % 4
  pub data_base : base_of (selected gdt' selector_u_data) ≡ 0
  pub data_end : last_offset (selected gdt' selector_u_data) ≡ 0xfffff
  pub data_type : type_of (selected gdt' selector_u_data) ≡ 18
  pub data_privilege : privilege_of (selected gdt' selector_u_data) ≡ selector_u_data % 4
  pub others : (i : ℕ) → (i < 4) ⊎ (6 < i) → gdt' i ≡ gdt i

-- Wherever the `tss` lies in the 32-bit address space, `tss_init` installs it and the two segments
-- for user code and data, and hands `lgdt` the seven descriptors from 0xc0000900 on.
pub tss_init-Installs :
    (tss_addr : ℕ) (gdt : Gdt)
    → tss_addr < 2 ^ 32
    → let (tss, gdt', gdtr, tr) = tss_init tss_addr gdt in
      Installs tss_addr gdt tss gdt' tr × (gdtr % 2 ^ 16 + 1 ≡ 7 * 8) × (gdtr / 2 ^ 16 ≡ 0xc0000900)
unfolding tss_init make_gdt_desc
tss_init-Installs tss_addr gdt h =
    let (b, l, f, a) =
      make_gdt_desc-fields tss_addr (tss_size - 1) tss_attr_low 8 h (omega arith) (omega arith) in
    (
      record {
        base = b;
        limit = omega arith;
        type_tss = refl;
        granular = f;
        last = ground arith;
        io_base = refl;
        io_inside = ground arith;
        stack = refl;
        code_base = refl;
        code_end = refl;
        code_type = refl;
        code_privilege = refl;
        data_base = refl;
        data_end = refl;
        data_type = refl;
        data_privilege = refl;
        others = λ i o. ground arith;
      },
      refl,
      refl,
    )
