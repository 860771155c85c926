-- ===== src/Descriptor/Segment.antt =====
-- What the processor reads from a segment descriptor.
use oslearn.Base.{
  ℕ, ◌+◌, ◌*◌, ◌/◌, ◌%◌, ◌^◌, ◌<◌, ◌≡◌, refl, ap, ◌∙◌, bit_and, bit_or, arith, true, if◌then◌else◌,
  ltb, ◌==◌, every_below, every_below_lem,
}
use oslearn.Base.Bits.{bit_and_low, bit_and_field, bit_or-fields_swap}
use oslearn.Descriptor.{GdtDesc, make_gdt_desc, gdt_attr_high}

abbrev pub base_of : GdtDesc → ℕ
base_of d = d.base_low_word + d.base_mid_byte * 2 ^ 16 + d.base_high_byte * 2 ^ 24

abbrev pub limit_of : GdtDesc → ℕ
limit_of d = d.limit_low_word + d.limit_high_attr_high % 16 * 2 ^ 16

-- The upper half of the byte that the flags share with the limit: granularity, size, long, available.
abbrev pub flags_of : GdtDesc → ℕ
flags_of d = d.limit_high_attr_high / 16

-- The last offset in the segment.
abbrev pub last_offset : GdtDesc → ℕ
last_offset d = if flags_of d / 8 == 1 then limit_of d * 4096 + 4095 else limit_of d

low_word : (a : ℕ) → bit_and a 0xffff ≡ a % 65536
low_word a = bit_and_low 16 a

mid_byte : (a : ℕ) → bit_and a 0xff0000 ≡ a / 65536 % 256 * 65536
mid_byte a = bit_and_field 8 16 a

high_limit : (a : ℕ) → bit_and a 0xf0000 ≡ a / 65536 % 16 * 65536
high_limit a = bit_and_field 4 16 a

-- Base and limit, the flags and the low attributes all come back from a descriptor, for a 32-bit
-- base, a 20-bit limit, a byte of attributes, and flags in the upper half of their byte.
pub make_gdt_desc-fields :
    (base limit attr_low flags : ℕ)
    → base < 2 ^ 32
    → limit < 2 ^ 20
    → flags < 16
    → let d = make_gdt_desc base limit attr_low (flags * 2 ^ 4) in
      (base_of d ≡ base)
      × (limit_of d ≡ limit)
      × (flags_of d ≡ flags)
      × (d.attr_low_byte ≡ attr_low)
unfolding make_gdt_desc
make_gdt_desc-fields base limit attr_low flags hb hl hf =
    let l = low_word base in
    let m = mid_byte base in
    let ll = low_word limit in
    let lh = high_limit limit in
    let joined : bit_or (bit_and limit 0xf0000 / 65536) (flags * 16) ≡ flags * 16 + limit / 65536 =
      ap (λ t. bit_or t (flags * 16)) (omega arith)
      ∙ bit_or-fields_swap 4 flags (limit / 65536) (omega arith) in
    (omega arith, omega arith, omega arith, refl)

-- With the flag byte 1 the flags are 0, and the limit has its lowest high bit set.
or_one : (x : ℕ) → x < 16 → (ltb (bit_or x 1) 16) ≡ true
unfolding every_below
or_one x h = every_below_lem 16 (λ x. ltb (bit_or x 1) 16) x refl h

-- A segment that is made with the high attributes of the user's segments has neither the 4 KB
-- granularity nor any other flag: its last offset is its 20-bit limit, below 1 MB.
pub user_segment_small :
    (base limit attr_low : ℕ)
    → limit < 2 ^ 20
    → let d = make_gdt_desc base limit attr_low gdt_attr_high in
      (flags_of d ≡ 0) × (last_offset d ≡ limit_of d) × (last_offset d < 2 ^ 20)
unfolding make_gdt_desc
user_segment_small base limit attr_low h =
    let lh = high_limit limit in
    let ll = low_word limit in
    let small : bit_or (bit_and limit 0xf0000 / 65536) 1 < 16 =
      ground (arith, or_one (bit_and limit 0xf0000 / 65536) (omega arith)) in
    (omega arith, ground arith, ground arith)
