-- ===== src/Keyboard/Handler.antt =====
-- The whole handler, with the queue that it fills.
use oslearn.Base.{
  ℕ, ◌<◌, ◌≡◌, ◌∙◌, refl, Bool, true, false, ◌&&◌, some, List, [], ◌∷◌, ◌++◌, arith, length, Run,
  ok, panic, fault, stuck, if◌then◌else◌, every_below, every_below_lem, Bool-cases, inl, inr, ◌==◌,
  ap, sym,
}
use oslearn.Interrupt.Status.{intr_off}
use oslearn.Thread.State.{Kernel}
use oslearn.Thread.Invariant.{IsKernel}
use oslearn.IoQueue.{IoQueue, consuming, ioq_full, ioq_putchar, done}
use oslearn.IoQueue.Ring.{IsRing, contents, fill_level, length-items}
use oslearn.IoQueue.Bounded.{Sleeps, ioq_empty-length, ioq_putchar_appends}
use oslearn.Keyboard.Tables.{Keys, keymap}
use oslearn.Keyboard.{
  Event, typed, silent, unknown, Keyboard, scan_key, press_key, press_control, release_key,
  is_symbol, use_shift, deliver, intr_keyboard_handler, unknown_key,
}

abbrev is_ok : Run (Keys × Event) → Bool
is_ok (ok r) = true
is_ok _ = false

is_ok_lem : (r : Run (Keys × Event)) → is_ok r ≡ true → (s : Keys) × (e : Event) × (r ≡ ok (s, e))
is_ok_lem (ok (s, e)) h = (s, e, refl)
is_ok_lem panic h = ground (arith, h)
is_ok_lem fault h = ground (arith, h)
is_ok_lem stuck h = ground (arith, h)

abbrev both : (Bool → Bool) → Bool
both p = p true && p false

both_sound : (p : Bool → Bool) (b : Bool) → both p ≡ true → p b ≡ true
both_sound p true h = ground (arith, h)
both_sound p false h = ground (arith, h)

-- The handler's behaviour from every state of the flags that it reads, on every byte.
abbrev scan_is_ok : Bool → Bool → Bool → Bool → Bool → ℕ → Bool
scan_is_ok c s a l e b = is_ok (
    scan_key
      record {
        ctrl_status = c;
        shift_status = s;
        alt_status = a;
        caps_lock_status = l;
        ext_scancode = e;
      }
      b)

abbrev scans : Bool → Bool → Bool → Bool → Bool → Bool
scans c s a l e = every_below 256 (scan_is_ok c s a l e)

scans_lem : both (λ c. both (λ s. both (λ a. both (λ l. both (λ e. scans c s a l e))))) ≡ true
unfolding scan_key press_key press_control release_key keymap use_shift is_symbol every_below
scans_lem = refl

-- Whatever the flags are, every byte is handled: no index leaves the table.
pub scan_key_total :
    (s : Keys) (byte : ℕ) → byte < 256 → (s' : Keys) × (e : Event) × (scan_key s byte ≡ ok (s', e))
scan_key_total s byte h =
    let e₁ =
      both_sound (λ x. both (λ s'. both (λ a. both (λ l. both (λ e. scans x s' a l e)))))
        s.ctrl_status scans_lem in
    let e₂ =
      both_sound (λ x. both (λ a. both (λ l. both (λ e. scans s.ctrl_status x a l e))))
        s.shift_status e₁ in
    let e₃ =
      both_sound (λ x. both (λ l. both (λ e. scans s.ctrl_status s.shift_status x l e)))
        s.alt_status e₂ in
    let e₄ =
      both_sound (λ x. both (λ e. scans s.ctrl_status s.shift_status s.alt_status x e))
        s.caps_lock_status e₃ in
    let e₅ =
      both_sound (scans s.ctrl_status s.shift_status s.alt_status s.caps_lock_status) s.ext_scancode
        e₄ in
    is_ok_lem (scan_key s byte) (
      every_below_lem 256
        (scan_is_ok s.ctrl_status s.shift_status s.alt_status s.caps_lock_status s.ext_scancode)
        byte e₅ h)

-- A character at the end, unless there is no room.
abbrev pub with_char : Bool → ℕ → List ℕ → List ℕ
with_char full c cs = if full then cs else cs ++ c ∷ []

-- What `deliver` does: the queue is full and the character is dropped, or it is echoed and queued.
pub record Delivered (d d' : Keyboard) (c : ℕ) (k k' : Kernel) : Type 0 where
  pub ring : IsRing d'.kbd_buf
  pub queued :
      contents d'.kbd_buf ≡ with_char (length (contents d.kbd_buf) == 63) c (contents d.kbd_buf)
  pub echoed : d'.shown ≡ with_char (length (contents d.kbd_buf) == 63) c d.shown
  pub flags : d'.keys ≡ d.keys
  pub kernel : IsKernel k'
  pub running : k'.running ≡ k.running

deliver_full :
    (d : Keyboard) (c : ℕ) (k : Kernel)
    → ioq_full d.kbd_buf k ≡ ok true
    → deliver d c k ≡ ok (d, some k)
unfolding deliver
deliver_full d c k e = simp e

deliver_room :
    (d : Keyboard) (c : ℕ) (k k' : Kernel) (q' : IoQueue)
    → ioq_full d.kbd_buf k ≡ ok false
    → ioq_putchar d.kbd_buf c k ≡ ok (done tt q' k')
    → deliver d c k ≡ ok (record d { shown = d.shown ++ c ∷ []; kbd_buf = q' }, some k')
unfolding deliver
deliver_room d c k k' q' e r = simp (e, r)

-- A character is queued and shown if the queue has room, and dropped without a trace if it is full;
-- in both cases the handler returns at once, with the invariants of the queue and of the kernel.
pub deliver-Delivered :
    (d : Keyboard) (c : ℕ) (k : Kernel)
    → IsRing d.kbd_buf
    → IsKernel k
    → k.intr ≡ intr_off
    → Sleeps consuming d.kbd_buf k
    → (d' : Keyboard) × (k' : Kernel) × (deliver d c k ≡ ok (d', some k')) × Delivered d d' c k k'
deliver-Delivered d c k v w off s =
    let (_, full) = ioq_empty-length d.kbd_buf k v off in
    elim (Bool-cases (length (contents d.kbd_buf) == 63)) [
      | inl e ↦ (
        d,
        k,
        deliver_full d c k (full ∙ ap ok e),
        record {
          ring = v;
          queued = simp e;
          echoed = simp e;
          flags = refl;
          kernel = w;
          running = refl;
        },
      )
      | inr e ↦
          let few : length (contents d.kbd_buf) < 63 =
            ground (arith, length-items d.kbd_buf.buf d.kbd_buf.tail (fill_level d.kbd_buf)) in
          let (q', k', r, ring, queued, _, kernel, running) =
            ioq_putchar_appends d.kbd_buf c k v w off s few in
          (
            record d { shown = d.shown ++ c ∷ []; kbd_buf = q' },
            k',
            deliver_room d c k k' q' (full ∙ ap ok e) r,
            record {
              ring = ring;
              queued = queued ∙ simp e;
              echoed = simp e;
              flags = refl;
              kernel = kernel;
              running = running;
            },
          )
    ]

handler_typed :
    (d : Keyboard) (byte : ℕ) (k : Kernel) (s : Keys) (c : ℕ)
    → scan_key d.keys byte ≡ ok (s, typed c)
    → intr_keyboard_handler d byte k ≡ deliver (record d { keys = s }) c k
unfolding intr_keyboard_handler
handler_typed d byte k s c e = simp e

handler_silent :
    (d : Keyboard) (byte : ℕ) (k : Kernel) (s : Keys)
    → scan_key d.keys byte ≡ ok (s, silent)
    → intr_keyboard_handler d byte k ≡ ok (record d { keys = s }, some k)
unfolding intr_keyboard_handler
handler_silent d byte k s e = simp e

handler_unknown :
    (d : Keyboard) (byte : ℕ) (k : Kernel) (s : Keys)
    → scan_key d.keys byte ≡ ok (s, unknown)
    → intr_keyboard_handler d byte k
      ≡ ok (record d { keys = s; shown = d.shown ++ unknown_key }, some k)
unfolding intr_keyboard_handler
handler_unknown d byte k s e = simp e

-- The characters of an event.
abbrev pub after : Event → Bool → List ℕ → List ℕ
after (typed c) full cs = with_char full c cs
after silent full cs = cs
after unknown full cs = cs

-- On every byte, with interrupts off, a well-formed queue, and a noted consumer that sleeps, the
-- handler returns: it does not panic, fault or wait. The queue stays well formed and holds what the
-- event of the byte adds to it, the flags are those after the event, and the running task goes on.
pub intr_keyboard_handler_returns :
    (d : Keyboard) (byte : ℕ) (k : Kernel)
    → byte < 256
    → IsRing d.kbd_buf
    → IsKernel k
    → k.intr ≡ intr_off
    → Sleeps consuming d.kbd_buf k
    → (d' : Keyboard) × (k' : Kernel) × (e : Event) × (intr_keyboard_handler d byte k
        ≡ ok (d', some k'))
      × (scan_key d.keys byte ≡ ok (d'.keys, e))
      × IsRing d'.kbd_buf
      × (contents d'.kbd_buf ≡ after e (length (contents d.kbd_buf) == 63) (contents d.kbd_buf))
      × IsKernel k'
      × (k'.running ≡ k.running)
intr_keyboard_handler_returns d byte k h v w off s =
    let (keys', e, r) = scan_key_total d.keys byte h in by_event keys' e r
  where
    by_event :
        (keys' : Keys) (e : Event)
        → scan_key d.keys byte ≡ ok (keys', e)
        → (d' : Keyboard) × (k' : Kernel) × (e : Event) × (intr_keyboard_handler d byte k
            ≡ ok (d', some k'))
          × (scan_key d.keys byte ≡ ok (d'.keys, e))
          × IsRing d'.kbd_buf
          × (contents d'.kbd_buf ≡ after e (length (contents d.kbd_buf) == 63) (contents d.kbd_buf))
          × IsKernel k'
          × (k'.running ≡ k.running)
    by_event keys' (typed c) r =
        let (d', k', run, way) = deliver-Delivered (record d { keys = keys' }) c k v w off s in
        (
          d',
          k',
          typed c,
          handler_typed d byte k keys' c r ∙ run,
          r ∙ ap (λ x. ok (x, typed c)) (sym way.flags),
          way.ring,
          way.queued,
          way.kernel,
          way.running,
        )
    by_event keys' silent r =
        (record d { keys = keys' }, k, silent, handler_silent d byte k keys' r, r, v, refl, w, refl)
    by_event keys' unknown r = (
      record d { keys = keys'; shown = d.shown ++ unknown_key },
      k,
      unknown,
      handler_unknown d byte k keys' r,
      r,
      v,
      refl,
      w,
      refl,
    )
