-- ===== src/Timer/Rate.antt =====
-- What the counter is told.
use oslearn.Base.{
  ℕ, ◌+◌, ◌*◌, ◌/◌, ◌%◌, ◌^◌, ◌<◌, ◌≡◌, ◌==◌, if◌then◌else◌, refl, ap, ◌∙◌, [], ◌∷◌, bit_or, u8,
  u16, ◌>>>◌, length, some, get_elem?, get_or, ok, ◌≢◌, arith,
}
use oslearn.Base.Bits.{bit_or-fields}
use oslearn.Port.{Writes, outb}
use oslearn.Descriptor.{idt_desc_cnt}
use oslearn.Interrupt.Handlers.{Handlers, register_handler-entries}
use oslearn.Timer.{frequency_set, timer_init, counter0_value, input_frequency, irq0_frequency}

-- The three counters of an 8253 by their documented behaviour: the control byte selects a counter,
-- the way its value is written and the mode; with the way 3 the low byte of the value comes first,
-- then the high one.
pub record Counters : Type 1 where
  pub State : Type 0
  pub control : ℕ → State → State
  pub value : ℕ → ℕ → State → State
  pub reload : State → ℕ → ℕ
  pub mode : State → ℕ → ℕ
  pub reload_set :
      (n m low high : ℕ) (s : State)
      → n < 3
      → m < 6
      → low < 256
      → reload (value n high (value n low (control (n * 64 + 3 * 16 + m * 2) s))) n
        ≡ low + high * 256
  pub mode_set :
      (n m low high : ℕ) (s : State)
      → n < 3
      → m < 6
      → low < 256
      → mode (value n high (value n low (control (n * 64 + 3 * 16 + m * 2) s))) n ≡ m

-- The counters' values are written at 0x40 to 0x42, the control byte at 0x43; other ports are not
-- theirs.
module _ (c : Counters) where
  pub take_write : ℕ → ℕ → c.State → c.State
  take_write port x s =
      if port == 0x43 then c.control x s else if port / 4 == 0x10 then c.value (port % 4) x s else s

  pub run_counters : Writes → c.State → c.State
  run_counters [] s = s
  run_counters ((port, x) ∷ rest) s = run_counters rest (take_write port x s)

run_counters-outb :
    (c : Counters) (port x : ℕ) (w : Writes) (s : c.State)
    → run_counters c (outb port x w) s ≡ take_write c (port % 65536) (x % 256) (run_counters c w s)
unfolding run_counters outb
run_counters-outb c port x [] s = refl
run_counters-outb c port x ((p, y) ∷ rest) s = run_counters-outb c port x rest (take_write c p y s)

control_byte :
    (n m : ℕ) → n < 3 → m < 6 → bit_or (bit_or (n * 64) 48) (m * 2) ≡ n * 64 + 3 * 16 + m * 2
control_byte n m hn hm =
    ap (λ t. bit_or t (m * 2)) (bit_or-fields 6 n 48 (omega arith))
    ∙ ap (λ t. bit_or t (m * 2)) (omega arith)
    ∙ bit_or-fields 4 (n * 4 + 3) (m * 2) (omega arith)
    ∙ omega arith

-- Where each byte goes.
at_control : (c : Counters) (x : ℕ) (s : c.State) → take_write c 0x43 x s ≡ c.control x s
unfolding take_write
at_control c x s = refl

at_value :
    (c : Counters) (n x : ℕ) (s : c.State)
    → n < 3
    → take_write c ((0x40 + n) % 65536) x s ≡ c.value n x s
unfolding take_write
at_value c n x s h = ground arith

frequency_set_steps :
    (c : Counters) (n m v : ℕ) (w : Writes) (s : c.State)
    → n < 3
    → m < 6
    → v < 2 ^ 16
    → run_counters c (frequency_set (0x40 + n) n 3 m v w) s
      ≡ c.value n
          (v / 256)
          (c.value n (v % 256) (c.control (n * 64 + 3 * 16 + m * 2) (run_counters c w s)))
unfolding frequency_set
frequency_set_steps c n m v w s hn hm hv =
    let start = run_counters c w s in
    let x₁ = u8 (u8 (bit_or (bit_or (n * 64) 48) (m * 2))) in
    let e₁ : x₁ ≡ n * 64 + 3 * 16 + m * 2 = omega (arith, control_byte n m hn hm) in
    let e₂ : u8 (u8 (u16 v)) ≡ v % 256 = omega arith in
    let e₃ : u8 (u8 (u16 v >>> 8)) ≡ v / 256 = omega arith in
    simp
      (
        run_counters-outb,
        at_value c n (u8 (u8 (u16 v >>> 8))) (c.value n (u8 (u8 (u16 v))) (c.control x₁ start)) hn,
        at_value c n (u8 (u8 (u16 v))) (c.control x₁ start) hn,
        at_control c x₁ start,
      )
      (rw (e₁, e₂, e₃) refl)

-- Whatever has been written before, on counters with the documented behaviour `frequency_set` with
-- the low byte first gives each of the three counters any 16-bit value, and any mode.
pub frequency_set-Counters :
    (c : Counters) (n m v : ℕ) (w : Writes) (s : c.State)
    → n < 3
    → m < 6
    → v < 2 ^ 16
    → let s' = run_counters c (frequency_set (0x40 + n) n 3 m v w) s in
      (c.reload s' n ≡ v) × (c.mode s' n ≡ m)
frequency_set-Counters c n m v w s hn hm hv =
    let e = frequency_set_steps c n m v w s hn hm hv in
    let start = run_counters c w s in
    (
      ap (λ t. c.reload t n) e
          ∙ c.reload_set n m (v % 256) (v / 256) start hn hm (omega arith)
          ∙ omega arith,
      ap (λ t. c.mode t n) e ∙ c.mode_set n m (v % 256) (v / 256) start hn hm (omega arith),
    )

-- What `timer_init` leaves behind: counter 0 divides its input down to a hundred ticks a second, and
-- the handler stands at its vector.
pub record IsTimed (c : Counters) (handler : ℕ) (h h' : Handlers) (s : c.State) : Type 0 where
  pub rate : input_frequency / c.reload s 0 ≡ irq0_frequency
  pub rate_mode : c.mode s 0 ≡ 2
  pub table : length h'.idt_table ≡ idt_desc_cnt
  pub handler_at : get_elem? h'.idt_table 0x20 ≡ some handler
  pub others : (i : ℕ) → i ≢ 0x20 → get_or h'.idt_table i 0 ≡ get_or h.idt_table i 0

-- With a table of handlers of full length, and counters with the documented behaviour, `timer_init`
-- sets counter 0 to a hundred ticks a second and registers the handler at vector 0x20, and it
-- changes no other entry.
pub timer_init-IsTimed :
    (c : Counters) (handler : ℕ) (h : Handlers) (w : Writes) (s : c.State)
    → length h.idt_table ≡ idt_desc_cnt
    → (h' : Handlers) × (w' : Writes) × (timer_init handler h w ≡ ok (h', w'))
      × IsTimed c handler h h' (run_counters c w' s)
unfolding timer_init
timer_init-IsTimed c handler h w s len =
    let (h', r, l, at, others) = (register_handler-entries 0x20 handler h len).0 (omega arith) in
    let (reload, mode) =
      frequency_set-Counters c 0 2 counter0_value w s (omega arith) (omega arith) (omega arith) in
    (
      h',
      frequency_set 0x40 0 3 2 counter0_value w,
      rw r refl,
      record {
        rate = rw reload refl;
        rate_mode = mode;
        table = l;
        handler_at = at;
        others = others;
      },
    )
