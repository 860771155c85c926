-- ===== src/Timer.antt =====
-- device/timer.c: the programming of the counter that makes the clock interrupt; the handler is in
-- Thread.
pub mod Rate
mod Tests
use oslearn.Base.{ℕ, ◌/◌, ◌+◌, ◌*◌, ◌^◌, bit_or, u8, u16, ◌<<<◌, ◌>>>◌, Run, ok, ◌>>=◌}
use oslearn.Port.{Writes, outb}
use oslearn.Interrupt.Handlers.{Handlers, register_handler}

abbrev pub irq0_frequency : ℕ
irq0_frequency = 100

abbrev pub input_frequency : ℕ
input_frequency = 1193180

abbrev pub counter0_value : ℕ
counter0_value = input_frequency / irq0_frequency

abbrev pub contrer0_port : ℕ
contrer0_port = 0x40

abbrev pub pit_control_port : ℕ
pit_control_port = 0x43

-- `counter_value` is a uint16_t.
unfoldable pub frequency_set : ℕ → ℕ → ℕ → ℕ → ℕ → Writes → Writes
frequency_set counter_port counter_no rwl counter_mode counter_value w =
    let w =
      outb pit_control_port
        (u8 (bit_or (bit_or (counter_no <<< 6) (rwl <<< 4)) (counter_mode <<< 1))) w in
    let w = outb counter_port (u8 (u16 counter_value)) w in
    outb counter_port (u8 (u16 counter_value >>> 8)) w

unfoldable pub timer_init : ℕ → Handlers → Writes → Run (Handlers × Writes)
timer_init intr_timer_handler h w = do
  let w' = frequency_set contrer0_port 0 3 2 counter0_value w
  h' ← register_handler 0x20 intr_timer_handler h
  ok (h', w')
