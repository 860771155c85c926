-- ===== src/Keyboard.antt =====
-- device/keyboard.c: the handler of the keyboard interrupt. The scan code that it reads from the port
-- is its argument. What it shows on the screen is the list `shown`.
pub mod Tables
pub mod Modifiers
pub mod Typed
pub mod Handler
mod Tests
use oslearn.Base.{
  ℕ, ◌++◌, bit_and, bit_or, Bool, true, false, not, ◌&&◌, ◌||◌, Option, none, some, List, [], ◌∷◌,
  get_elem?, ltb, ◌==◌, if◌then◌else◌, Run, ok, ◌>>=◌, read,
}
use Tables.{
  keymap, Keys, alt_r_make, ctrl_r_make, ctrl_l_make, shift_l_make, shift_r_make, alt_l_make,
}
use oslearn.Thread.State.{Kernel}
use oslearn.Interrupt.Handlers.{Handlers, register_handler}
use oslearn.IoQueue.{
  ioqueue_init, IoQueue, Transfer, done, waits_lock, waits_turn, ioq_full, ioq_putchar,
}

-- What a scan code comes to: a character to deliver, nothing, or the message for an unknown key.
pub data Event : Type 0 where
  typed : ℕ → Event
  silent unknown : Event

-- The tail of the handler for a key with no character.
pub press_control : Keys → ℕ → Keys
press_control s scancode =
    if (ctrl_l_make == scancode) || (ctrl_r_make == scancode)
    then record s { ctrl_status = true }
    else if (shift_l_make == scancode) || (shift_r_make == scancode)
    then record s { shift_status = true }
    else if (alt_l_make == scancode) || (alt_r_make == scancode)
    then record s { alt_status = true }
    else record s { caps_lock_status = not s.caps_lock_status }

pub release_key : Keys → ℕ → Keys
release_key s make_code =
    if (ctrl_l_make == make_code) || (ctrl_r_make == make_code)
    then record s { ctrl_status = false }
    else if (shift_l_make == make_code) || (shift_r_make == make_code)
    then record s { shift_status = false }
    else if (alt_l_make == make_code) || (alt_r_make == make_code)
    then record s { alt_status = false }
    else s

-- The keys that caps lock leaves alone: digits and punctuation.
pub is_symbol : ℕ → Bool
is_symbol scancode =
    ltb scancode 0x0e
    || (scancode == 0x1a)
    || (scancode == 0x1b)
    || (scancode == 0x2b)
    || (scancode == 0x27)
    || (scancode == 0x28)
    || (scancode == 0x29)
    || (scancode == 0x33)
    || (scancode == 0x34)
    || (scancode == 0x35)

pub use_shift : Keys → ℕ → Bool
use_shift s scancode =
    if is_symbol scancode
    then s.shift_status
    else if s.shift_status && s.caps_lock_status
    then false
    else s.shift_status || s.caps_lock_status

pub press_key : Keys → ℕ → Run (Keys × Event)
press_key s scancode =
    if (ltb 0 scancode && ltb scancode 0x3b)
      || (alt_r_make == scancode)
      || (ctrl_r_make == scancode)
    then (do
      let shift = use_shift s scancode
      let index = bit_and scancode 0xff
      (plain, shifted) ← read (get_elem? keymap index)
      let cur_char = if shift then shifted else plain
      if not (cur_char == 0) then ok (s, typed cur_char) else ok (press_control s index, silent))
    else ok (s, unknown)

-- The handler on a scan code, up to the delivery of a character.
pub scan_key : Keys → ℕ → Run (Keys × Event)
scan_key s byte =
    if 0xe0 == byte
    then ok (record s { ext_scancode = true }, silent)
    else (let scancode = if s.ext_scancode then bit_or byte 0xe000 else byte in
        let s' = record s { ext_scancode = false } in
        if not (bit_and 0x80 scancode == 0)
        then ok (release_key s' (bit_and scancode 0xff7f), silent)
        else press_key s' scancode)

-- `put_str("unknown key\n")`
abbrev unknown_key : List ℕ
unknown_key = b'u' ∷ b'n' ∷ b'k' ∷ b'n' ∷ b'o' ∷ b'w' ∷ b'n' ∷ 0x20 ∷ b'k' ∷ b'e' ∷ b'y' ∷ 0x0a ∷ []

pub record Keyboard : Type 0 where
  pub keys : Keys
  pub kbd_buf : IoQueue
  pub shown : List ℕ

-- `none` in place of the kernel's state would mean that the handler itself has to wait.
pub deliver : Keyboard → ℕ → Kernel → Run (Keyboard × Option Kernel)
deliver d cur_char k = do
  full ← ioq_full d.kbd_buf k
  if full then ok (d, some k) else do
    t ← ioq_putchar d.kbd_buf cur_char k
    let d' = record d { shown = d.shown ++ cur_char ∷ [] }
    elim t [
      | done u q k' ↦ ok (record d' { kbd_buf = q }, some k')
      | waits_lock old q k' ↦ ok (record d' { kbd_buf = q }, none)
      | waits_turn q k' ↦ ok (record d' { kbd_buf = q }, none)
    ]

pub intr_keyboard_handler : Keyboard → ℕ → Kernel → Run (Keyboard × Option Kernel)
intr_keyboard_handler d byte k = do
  (keys', event) ← scan_key d.keys byte
  let d' = record d { keys = keys' }
  elim event [
    | typed c ↦ deliver d' c k
    | silent ↦ ok (d', some k)
    | unknown ↦ ok (record d' { shown = d'.shown ++ unknown_key }, some k)
  ]

-- `keyboard_init`; the bytes of the queue's buffer stay.
unfoldable pub keyboard_init : ℕ → List ℕ → Handlers → Run (IoQueue × Handlers)
keyboard_init intr_keyboard_handler buf h = do
  let kbd_buf = ioqueue_init buf
  h' ← register_handler 0x21 intr_keyboard_handler h
  ok (kbd_buf, h')
