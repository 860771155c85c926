-- ===== src/Keyboard/Tests.antt =====
-- The keyboard with an empty queue, on the small kernel state.
use oslearn.Base.{◌≡◌, refl, true, false, some, [], arith, ok, replicate, length, ◌==◌}
use oslearn.Thread.State.{Kernel}
use oslearn.Thread.Invariant.{IsKernel}
use oslearn.Thread.Sample.{sample, sample-IsKernel}
use oslearn.Sync.{lock_init}
use oslearn.IoQueue.{IoQueue}
use oslearn.IoQueue.Ring.{IsRing, contents}
use oslearn.Keyboard.Tables.{Keys}
use oslearn.Keyboard.{Event, Keyboard, scan_key, intr_keyboard_handler}
use oslearn.Keyboard.Modifiers.{keys}
use oslearn.Keyboard.Handler.{after, intr_keyboard_handler_returns}

-- Shift is held.
abbrev shift_held : Keys
shift_held = keys false true false false

-- An empty queue, and task 3 waits for a character.
abbrev awaited : IoQueue
awaited = record {
  lock = lock_init;
  producer = 0;
  consumer = 3;
  buf = replicate 64 0;
  head = 5;
  tail = 5;
}

awaited-IsRing : IsRing awaited
awaited-IsRing = record { size = refl; head_in = omega arith; tail_in = omega arith }

abbrev start : Keyboard
start = record { keys = shift_held; kbd_buf = awaited; shown = [] }

intr_keyboard_handler_returns_example :
    (d' : Keyboard) × (k' : Kernel) × (e : Event) × (intr_keyboard_handler start 0x1e (sample 4)
      ≡ ok (d', some k'))
    × (scan_key shift_held 0x1e ≡ ok (d'.keys, e))
    × IsRing d'.kbd_buf
    × (contents d'.kbd_buf
        ≡ after e (length (contents start.kbd_buf) == 63) (contents start.kbd_buf))
    × IsKernel k'
    × (k'.running ≡ 1)
intr_keyboard_handler_returns_example =
    intr_keyboard_handler_returns start 0x1e (sample 4) (omega arith) awaited-IsRing
      (sample-IsKernel 4) refl (λ h. refl)
