-- ===== src/Keyboard/Modifiers.antt =====
-- The state of the modifier keys, over the whole byte sequences that the keys send.
use oslearn.Base.{ℕ, ◌≡◌, refl, Bool, true, false, not, List, [], ◌∷◌, Run, ok, ◌>>=◌}
use oslearn.Keyboard.Tables.{Keys, keymap}
use oslearn.Keyboard.{
  Event, silent, scan_key, press_key, press_control, release_key, use_shift, is_symbol,
}

-- The handler on one byte after another.
abbrev pub scan_all : Keys → List ℕ → Run (Keys × List Event)
scan_all s [] = ok (s, [])
scan_all s (b ∷ bs) = do (s', e) ← scan_key s b; (s'', es) ← scan_all s' bs; ok (s'', e ∷ es)

pub data Modifier : Type 0 where
  ctrl_l ctrl_r shift_l shift_r alt_l alt_r : Modifier

-- What the key sends when it goes down, and when it comes up.
abbrev pub make : Modifier → List ℕ
make ctrl_l = 0x1d ∷ []
make ctrl_r = 0xe0 ∷ 0x1d ∷ []
make shift_l = 0x2a ∷ []
make shift_r = 0x36 ∷ []
make alt_l = 0x38 ∷ []
make alt_r = 0xe0 ∷ 0x38 ∷ []

abbrev pub break : Modifier → List ℕ
break ctrl_l = 0x9d ∷ []
break ctrl_r = 0xe0 ∷ 0x9d ∷ []
break shift_l = 0xaa ∷ []
break shift_r = 0xb6 ∷ []
break alt_l = 0xb8 ∷ []
break alt_r = 0xe0 ∷ 0xb8 ∷ []

abbrev pub hold : Modifier → Bool → Keys → Keys
hold ctrl_l down s = record s { ctrl_status = down }
hold ctrl_r down s = record s { ctrl_status = down }
hold shift_l down s = record s { shift_status = down }
hold shift_r down s = record s { shift_status = down }
hold alt_l down s = record s { alt_status = down }
hold alt_r down s = record s { alt_status = down }

abbrev pub silences : List ℕ → List Event
silences [] = []
silences (b ∷ bs) = silent ∷ silences bs

-- No prefix is pending.
abbrev pub keys : Bool → Bool → Bool → Bool → Keys
keys c s a l = record {
  ctrl_status = c;
  shift_status = s;
  alt_status = a;
  caps_lock_status = l;
  ext_scancode = false;
}

by_cases₂ :
    (P : Bool → Bool → Type 0)
    → P true true
    → P true false
    → P false true
    → P false false
    → (a b : Bool) → P a b
by_cases₂ P tt tf ft ff true true = tt
by_cases₂ P tt tf ft ff true false = tf
by_cases₂ P tt tf ft ff false true = ft
by_cases₂ P tt tf ft ff false false = ff

Makes : Modifier → Bool → Bool → Bool → Bool → Type 0
Makes m c s a l =
    scan_all (keys c s a l) (make m) ≡ ok (hold m true (keys c s a l), silences (make m))

Makes_lem : (m : Modifier) (c s a l : Bool) → Makes m c s a l
unfolding Makes scan_key press_key press_control keymap use_shift is_symbol
Makes_lem ctrl_l c s a l = by_cases₂ (λ s l. Makes ctrl_l c s a l) refl refl refl refl s l
Makes_lem ctrl_r c s a l = by_cases₂ (λ s l. Makes ctrl_r c s a l) refl refl refl refl s l
Makes_lem shift_l c s a l = by_cases₂ (λ s l. Makes shift_l c s a l) refl refl refl refl s l
Makes_lem shift_r c s a l = by_cases₂ (λ s l. Makes shift_r c s a l) refl refl refl refl s l
Makes_lem alt_l c s a l = by_cases₂ (λ s l. Makes alt_l c s a l) refl refl refl refl s l
Makes_lem alt_r c s a l = by_cases₂ (λ s l. Makes alt_r c s a l) refl refl refl refl s l

-- Without a pending prefix, the bytes of a modifier key that goes down, its 0xe0 prefix included,
-- set its status and no other; no character is typed.
pub scan_all-make :
    (m : Modifier) (c s a l : Bool)
    → scan_all (keys c s a l) (make m) ≡ ok (hold m true (keys c s a l), silences (make m))
unfolding Makes
scan_all-make = Makes_lem

-- When it comes up again, the status is cleared.
pub scan_all-break :
    (m : Modifier) (c s a l : Bool)
    → scan_all (keys c s a l) (break m) ≡ ok (hold m false (keys c s a l), silences (break m))
unfolding scan_key release_key
scan_all-break ctrl_l c s a l = refl
scan_all-break ctrl_r c s a l = refl
scan_all-break shift_l c s a l = refl
scan_all-break shift_r c s a l = refl
scan_all-break alt_l c s a l = refl
scan_all-break alt_r c s a l = refl

-- Caps lock changes over when the key goes down; its release changes nothing.
pub scan_all-caps_lock :
    (c s a l : Bool)
    → scan_all (keys c s a l) (0x3a ∷ 0xba ∷ []) ≡ ok (keys c s a (not l), silent ∷ silent ∷ [])
unfolding scan_key press_key press_control release_key keymap use_shift is_symbol
scan_all-caps_lock c s a l =
    by_cases₂
      (λ s l.
        scan_all (keys c s a l) (0x3a ∷ 0xba ∷ []) ≡ ok (keys c s a (not l), silent ∷ silent ∷ []))
      refl refl refl refl s l
