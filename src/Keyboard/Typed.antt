-- ===== src/Keyboard/Typed.antt =====
-- Which character a key gives.
use oslearn.Base.{
  ℕ, ◌-◌, ◌<◌, ◌≡◌, ◌∙◌, ap, refl, Bool, true, false, not, ◌&&◌, ◌||◌, bit_and, leb, ◌==◌,
  if◌then◌else◌, ok, some, get_or, get_elem?, get_elem?-eq-get_or, arith, agree, every_below,
  every_below_lem, lt→ltb,
}
use oslearn.Keyboard.Tables.{keymap, Keys}
use oslearn.Keyboard.{typed, scan_key, press_key, use_shift, is_symbol}

-- The two characters of a key.
abbrev pub characters : ℕ → ℕ × ℕ
characters scancode = get_or keymap scancode (0, 0)

abbrev pub plain : ℕ → ℕ
plain scancode = (characters scancode).0

abbrev pub shifted : ℕ → ℕ
shifted scancode = (characters scancode).1

abbrev pub is_letter : ℕ → Bool
is_letter c = leb 0x61 c && leb c 0x7a

-- What the handler tests of a make code without a prefix.
abbrev plain_code : ℕ → Bool
plain_code b = (bit_and 0x80 b == 0) && not (0xe0 == b) && (bit_and b 0xff == b)

plain_code_lem : (b : ℕ) → b < 0x3b → plain_code b ≡ true
unfolding every_below
plain_code_lem b h = every_below_lem 0x3b plain_code b refl h

abbrev letter_key : ℕ → Bool
letter_key b = not (is_letter (plain b)) || ((shifted b == plain b - 32) && not (is_symbol b))

letter_key_lem : (b : ℕ) → b < 0x3b → letter_key b ≡ true
unfolding keymap is_symbol every_below
letter_key_lem b h = every_below_lem 0x3b letter_key b refl h

abbrev other_key : ℕ → Bool
other_key b = is_letter (plain b) || is_symbol b || (shifted b == plain b)

other_key_lem : (b : ℕ) → b < 0x3b → other_key b ≡ true
unfolding keymap is_symbol every_below
other_key_lem b h = every_below_lem 0x3b other_key b refl h

-- Shift and caps lock undo each other.
abbrev pub differ : Bool → Bool → Bool
differ a b = not (agree a b)

abbrev pub settled : Keys → Keys
settled s = record s { ext_scancode = false }

scan_key_plain :
    (s : Keys) (b : ℕ) (p q : ℕ)
    → s.ext_scancode ≡ false
    → 0 < b
    → b < 0x3b
    → get_elem? keymap b ≡ some (p, q)
    → ((if use_shift s b then q else p) == 0) ≡ false
    → scan_key s b ≡ ok (settled s, typed (if use_shift s b then q else p))
unfolding scan_key press_key use_shift
scan_key_plain s b p q e pos h k nz =
    let f₁ : (bit_and 0x80 b == 0) ≡ true = ground (arith, plain_code_lem b h) in
    let f₂ : (0xe0 == b) ≡ false = ground (arith, plain_code_lem b h) in
    let f₃ : bit_and b 0xff ≡ b = ground (arith, plain_code_lem b h) in
    simp (e, f₁, f₂, f₃, lt→ltb 0 b pos, lt→ltb b 0x3b h, k, nz)

keymap_read : (b : ℕ) → b < 0x3b → get_elem? keymap b ≡ some (plain b, shifted b)
unfolding keymap
keymap_read b h = get_elem?-eq-get_or keymap b (0, 0) h

use_shift_letter :
    (s : Keys) (b : ℕ)
    → is_symbol b ≡ false
    → use_shift s b ≡ differ s.shift_status s.caps_lock_status
unfolding use_shift
use_shift_letter s b e = ground arith

use_shift_symbol : (s : Keys) (b : ℕ) → is_symbol b ≡ true → use_shift s b ≡ s.shift_status
unfolding use_shift
use_shift_symbol s b e = ground arith

-- Without a pending prefix, a letter key types its letter, in upper case (32 below the lower-case
-- code) exactly when shift and caps lock differ.
pub scan_key_letter :
    (s : Keys) (b : ℕ)
    → s.ext_scancode ≡ false
    → 0 < b
    → b < 0x3b
    → is_letter (plain b) ≡ true
    → scan_key s b
      ≡ ok (
        settled s,
        typed (if differ s.shift_status s.caps_lock_status then plain b - 32 else plain b),
      )
scan_key_letter s b e pos h l =
    let up : shifted b ≡ plain b - 32 = ground (arith, letter_key_lem b h) in
    let no_symbol : is_symbol b ≡ false = ground (arith, letter_key_lem b h) in
    let nz : ((if use_shift s b then shifted b else plain b) == 0) ≡ false = ground arith in
    scan_key_plain s b (plain b) (shifted b) e pos h (keymap_read b h) nz
    ∙ simp (use_shift_letter s b no_symbol, up)

-- Without a pending prefix, any other key with a character on both levels follows shift alone,
-- whatever caps lock is.
pub scan_key_symbol :
    (s : Keys) (b : ℕ)
    → s.ext_scancode ≡ false
    → 0 < b
    → b < 0x3b
    → is_letter (plain b) ≡ false
    → 0 < plain b
    → 0 < shifted b
    → scan_key s b ≡ ok (settled s, typed (if s.shift_status then shifted b else plain b))
scan_key_symbol s b e pos h l hp hq =
    let nz : ((if use_shift s b then shifted b else plain b) == 0) ≡ false = ground arith in
    let same : (if use_shift s b then shifted b else plain b)
        ≡ (if s.shift_status then shifted b else plain b) =
      ground (arith, use_shift_symbol s b, other_key_lem b h) in
    scan_key_plain s b (plain b) (shifted b) e pos h (keymap_read b h) nz
    ∙ ap (λ c. ok (settled s, typed c)) same
