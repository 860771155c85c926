-- ===== src/Boot/Devices.antt =====
-- The clock, the keyboard and the interrupt controllers after `init_all`.
use oslearn.Base.{
  ℕ, zero, suc, ◌+◌, ◌/◌, ◌<◌, ◌≡◌, ◌≢◌, refl, ap, sym, ◌∙◌, ◌||◌, ◌==◌, length, some, get_elem?,
  get_elem?-eq-get_or, get_or, replicate, ok, arith,
}
use oslearn.Port.{Writes}
use oslearn.Descriptor.{idt_desc_cnt}
use oslearn.Interrupt.Handlers.{Handlers, exception_init, register_handler-entries}
use oslearn.Interrupt.Pic.{
  Controller, pic_init, run_writes, written, run_writes-outb, is_open, vector_of, pic_init-open,
}
use oslearn.Interrupt.Idt.{Loaded}
use oslearn.Timer.{frequency_set, counter0_value, timer_init, input_frequency, irq0_frequency}
use oslearn.Timer.Rate.{Counters, run_counters, frequency_set-Counters}
use oslearn.Keyboard.{keyboard_init}
use oslearn.IoQueue.{ioqueue_init}
use oslearn.Console.{console_init}
use oslearn.Descriptor.{tss_init}
use oslearn.Spawn.{System, allocated}
use oslearn.Boot.{Linked, Entry, Booted, complete, init_devices}

-- The counter is not on a port of the interrupt controllers.
run_writes-frequency_set :
    (c : Controller) (v : ℕ) (w : Writes) (s : c.State × c.State)
    → run_writes c (frequency_set 0x40 0 3 2 v w) s ≡ run_writes c w s
unfolding frequency_set written
run_writes-frequency_set c v w s = simp (run_writes-outb) refl

get_or-replicate : (n x i : ℕ) → i < n → get_or (replicate n x) i 0 ≡ x
get_or-replicate zero x i h = absurd (omega arith)
get_or-replicate (suc n) x zero h = refl
get_or-replicate (suc n) x (suc i) h = get_or-replicate n x i (omega arith)

-- The handlers of the clock and of the keyboard stand at the vectors of their lines, and everywhere
-- else the general one; of the sixteen lines those of the clock, the keyboard, the cascade and the
-- disk are open; and the clock ticks a hundred times a second.
pub record IsDriven (l : Linked) (h : Handlers) (w : Writes) : Type 1 where
  pub timer : get_elem? h.idt_table 0x20 ≡ some l.intr_timer_handler
  pub keyboard : get_elem? h.idt_table 0x21 ≡ some l.intr_keyboard_handler
  pub others :
      (i : ℕ)
      → i < idt_desc_cnt
      → i ≢ 0x20
      → i ≢ 0x21
      → get_elem? h.idt_table i ≡ some l.general_intr_handler
  pub lines :
      (c : Controller) (s : c.State × c.State) (i : ℕ)
      → i < 16
      → (vector_of c (run_writes c w s) i ≡ 0x20 + i)
        × (is_open c (run_writes c w s) i ≡ ((i == 0) || (i == 1) || (i == 2) || (i == 14)))
  pub rate :
      (c : Counters) (s : c.State)
      → input_frequency / c.reload (run_counters c w s) 0 ≡ irq0_frequency

abbrev pub devices_after : Linked → Entry → Loaded → System → Handlers → Booted
devices_after l e loaded s h =
    let (tss, gdt, gdt_operand, task_register) = tss_init l.tss e.gdt in
    record {
      system = s;
      loaded = loaded;
      handlers = h;
      writes = frequency_set 0x40 0 3 2 counter0_value loaded.writes;
      console = console_init e.console;
      kbd_buf = ioqueue_init e.kbd_buf;
      tss = tss;
      gdt = gdt;
      gdt_operand = gdt_operand;
      task_register = task_register;
    }

pub init_devices-IsDriven :
    (l : Linked) (e : Entry) (loaded : Loaded) (pid : ℕ) (s : System) (w : Writes)
    → loaded.handlers ≡ exception_init l.general_intr_handler
    → loaded.writes ≡ pic_init w
    → (h : Handlers) × (init_devices l e loaded (allocated pid s)
        ≡ ok (complete (devices_after l e loaded s h)))
      × IsDriven l h (devices_after l e loaded s h).writes
unfolding init_devices timer_init keyboard_init exception_init
init_devices-IsDriven l e loaded pid s w eh ew =
    let table : length loaded.handlers.idt_table ≡ idt_desc_cnt =
      ap (λ (h : Handlers). length h.idt_table) eh in
    let (h₁, r₁, len₁, at₁, others₁) =
      (register_handler-entries 0x20 l.intr_timer_handler loaded.handlers table).0 (omega arith) in
    let (h₂, r₂, len₂, at₂, others₂) =
      (register_handler-entries 0x21 l.intr_keyboard_handler h₁ len₁).0 (omega arith) in
    (
      h₂,
      simp (r₁, r₂),
      record {
        timer =
            get_elem?-eq-get_or h₂.idt_table 0x20 0 (omega arith)
            ∙ ap some (others₂ 0x20 (λ q. omega arith))
            ∙ sym (get_elem?-eq-get_or h₁.idt_table 0x20 0 (omega arith))
            ∙ at₁;
        keyboard = at₂;
        others = λ i lt a b.
            get_elem?-eq-get_or h₂.idt_table i 0 (omega arith)
            ∙ ap some (
                others₂ i b
                ∙ others₁ i a
                ∙ ap (λ (h : Handlers). get_or h.idt_table i 0) eh
                ∙ get_or-replicate idt_desc_cnt l.general_intr_handler i lt);
        lines = λ c t i lt.
            let same =
              run_writes-frequency_set c counter0_value loaded.writes t
              ∙ ap (λ z. run_writes c z t) ew in
            let (v, o) = pic_init-open c w t i lt in
            (ap (λ z. vector_of c z i) same ∙ v, ap (λ z. is_open c z i) same ∙ o);
        rate = λ c t.
            rw
              ((frequency_set-Counters c 0 2 counter0_value loaded.writes t (omega arith)
                (omega arith) (omega arith)).0)
              refl;
      },
    )
