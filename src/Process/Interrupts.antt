-- ===== src/Process/Interrupts.antt =====
-- The table of interrupts and the page directory of a process.
use oslearn.Base.{
  ℕ, ◌+◌, ◌/◌, ◌%◌, ◌^◌, ◌<◌, ◌≤◌, ◌≡◌, false, none, List, length, get_or, ok, arith,
}
use oslearn.Bitmap.Bits.{used}
use oslearn.Machine.{walk}
use oslearn.Memory.Alloc.{Space}
use oslearn.Memory.Alloc.Free.{free_below}
use oslearn.Memory.Alloc.Pages.{frames, frame_bits}
use oslearn.Memory.Alloc.Kernel.{addresses, page_bits, IsKernelSpace}
use oslearn.Memory.Alloc.Granted.{HasPlainFrames}
use oslearn.Descriptor.{idt_desc_cnt}
use oslearn.Port.{Writes}
use oslearn.Interrupt.Idt.{Loaded, idt_init, idt_init-Installed}
use oslearn.Process.{create_page_dir}
use oslearn.Process.Directory.{IsPageDir, with_cr3, create_page_dir-IsPageDir}

-- In a well-formed kernel memory as in `create_page_dir-IsPageDir`, and on a table of 129 entries with
-- 32-bit addresses, `idt_init` and `create_page_dir` succeed, but in the new directory no byte of
-- the table of interrupts is mapped at the base that `lidt` gets: loaded into cr3, it leaves the
-- processor without handlers.
pub idt_init-create_page_dir :
    (free : ℕ) (s : Space) (entries : List ℕ) (syscall general idt_addr : ℕ) (w : Writes)
    → IsKernelSpace s
    → HasPlainFrames s
    → free < page_bits (addresses s)
    → used (addresses s).vaddr_bitmap free ≡ false
    → 1 ≤ free_below (frames s).pool_bitmap (frame_bits s)
    → length entries ≡ idt_desc_cnt
    → ((i : ℕ) → get_or entries i 0 < 2 ^ 32)
    → syscall < 2 ^ 32
    → (l : Loaded) × (s' : Space) × (a : ℕ) × (f : ℕ) × (idt_init entries syscall general idt_addr w
        ≡ ok l)
      × (create_page_dir s ≡ ok (s', a))
      × IsPageDir s'.machine f
      × ((k : ℕ)
          → k ≤ l.idt_operand % 2 ^ 16
          → walk (with_cr3 f s'.machine) (l.idt_operand / 2 ^ 16 + k) ≡ none)
idt_init-create_page_dir free s entries syscall general idt_addr w v plain lt unused few len small
      hs =
    let (l, r, i, h, c, limit, base) =
      idt_init-Installed entries syscall general idt_addr w len small hs in
    let (s', a, f, made, given, d, spares) =
      create_page_dir-IsPageDir free s v plain lt unused few in
    (
      l,
      s',
      a,
      f,
      r,
      made,
      d,
      λ k le. d.user (l.idt_operand / 2 ^ 16 + k) (omega (arith, base, limit, i.count)),
    )
