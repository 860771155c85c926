-- ===== src/Descriptor/Tests.antt =====
-- A segment.
use oslearn.Base.{◌^◌, ◌<◌, ◌≡◌, arith}
use oslearn.Descriptor.{make_gdt_desc, gdt_attr_high}
use oslearn.Descriptor.Segment.{
  base_of, limit_of, flags_of, last_offset, make_gdt_desc-fields, user_segment_small,
}

make_gdt_desc-fields_example :
    (base_of (make_gdt_desc 0xc0b80000 0x12345 0xf2 0xc0) ≡ 0xc0b80000)
    × (limit_of (make_gdt_desc 0xc0b80000 0x12345 0xf2 0xc0) ≡ 0x12345)
    × (flags_of (make_gdt_desc 0xc0b80000 0x12345 0xf2 0xc0) ≡ 12)
    × ((make_gdt_desc 0xc0b80000 0x12345 0xf2 0xc0).attr_low_byte ≡ 0xf2)
make_gdt_desc-fields_example =
    make_gdt_desc-fields 0xc0b80000 0x12345 0xf2 12 (omega arith) (omega arith) (omega arith)

user_segment_small_example :
    let d = make_gdt_desc 0 0xfffff 0xf8 gdt_attr_high in
    (flags_of d ≡ 0) × (last_offset d ≡ limit_of d) × (last_offset d < 2 ^ 20)
user_segment_small_example = user_segment_small 0 0xfffff 0xf8 (omega arith)
