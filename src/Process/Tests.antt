-- ===== src/Process/Tests.antt =====
-- A page directory made in the sample memory.
use oslearn.Base.{
  ℕ, zero, suc, ◌+◌, ◌/◌, ◌%◌, ◌^◌, ◌<◌, ◌≤◌, ◌≡◌, refl, none, List, [], replicate, get_or, ok,
  arith,
}
use oslearn.Machine.{walk}
use oslearn.Interrupt.Idt.{Loaded, idt_init}
use oslearn.Process.Interrupts.{idt_init-create_page_dir}
use oslearn.Bitmap.Byte.{digit}
use oslearn.Bitmap.Bits.{used}
use oslearn.Memory.Alloc.{Space}
use oslearn.Memory.Alloc.Sample.{space, space-IsKernelSpace, space-HasPlainFrames, space_few}
use oslearn.Memory.Alloc.Given.{SparesBut, Given}
use oslearn.Descriptor.{Tss}
use oslearn.Process.{create_page_dir}
use oslearn.Process.Directory.{IsPageDir, with_cr3, create_page_dir-IsPageDir}

create_page_dir-IsPageDir_example :
    (s' : Space) × (a : ℕ) × (f : ℕ) × (create_page_dir space ≡ ok (s', a))
    × Given space s' a f
    × IsPageDir s'.machine f
    × SparesBut space s' f
unfolding used digit
create_page_dir-IsPageDir_example =
    create_page_dir-IsPageDir 10 space space-IsKernelSpace space-HasPlainFrames (omega arith) refl
      (omega (arith, space_few))

abbrev tss : Tss
tss = record { esp0 = 0; ss0 = 16; io_base = 108 }

abbrev entries : List ℕ
entries = replicate 0x81 0xc0001500

entries_small : (n i : ℕ) → get_or (replicate n 0xc0001500) i 0 < 2 ^ 32
entries_small zero i = omega arith
entries_small (suc n) zero = omega arith
entries_small (suc n) (suc i) = entries_small n i

-- The table lies at 0xc0012340.
idt_init-create_page_dir_example :
    (l : Loaded) × (s' : Space) × (a : ℕ) × (f : ℕ) × (idt_init entries 0xc0001900 0xc0001a00
        0xc0012340 []
      ≡ ok l)
    × (create_page_dir space ≡ ok (s', a))
    × IsPageDir s'.machine f
    × ((k : ℕ)
        → k ≤ l.idt_operand % 2 ^ 16
        → walk (with_cr3 f s'.machine) (l.idt_operand / 2 ^ 16 + k) ≡ none)
unfolding used digit
idt_init-create_page_dir_example =
    idt_init-create_page_dir 10 space entries 0xc0001900 0xc0001a00 0xc0012340 []
      space-IsKernelSpace space-HasPlainFrames (omega arith) refl (omega (arith, space_few)) refl
      (entries_small 0x81) (omega arith)
