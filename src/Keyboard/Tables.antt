-- ===== src/Keyboard/Tables.antt =====
-- The tables and the state of device/keyboard.c.
use oslearn.Base.{ℕ, Bool, List, [], ◌∷◌}

abbrev pub esc : ℕ
esc = 0x1b

abbrev pub backspace : ℕ
backspace = 0x08

abbrev pub tab : ℕ
tab = 0x09

abbrev pub enter : ℕ
enter = 0x0d

abbrev pub char_invisible : ℕ
char_invisible = 0

abbrev pub shift_l_make : ℕ
shift_l_make = 0x2a

abbrev pub shift_r_make : ℕ
shift_r_make = 0x36

abbrev pub alt_l_make : ℕ
alt_l_make = 0x38

abbrev pub alt_r_make : ℕ
alt_r_make = 0xe038

abbrev pub ctrl_l_make : ℕ
ctrl_l_make = 0x1d

abbrev pub ctrl_r_make : ℕ
ctrl_r_make = 0xe01d

-- The characters of the keys 0x00 to 0x3a, plain and with shift.
unfoldable pub keymap : List (ℕ × ℕ)
keymap =
    (0, 0)
    ∷ (esc, esc)
    ∷ (b'1', b'!')
    ∷ (b'2', 0x40)
    ∷ (b'3', b'#')
    ∷ (b'4', b'$')
    ∷ (b'5', b'%')
    ∷ (b'6', b'^')
    ∷ (b'7', b'&')
    ∷ (b'8', b'*')
    ∷ (b'9', 0x28)
    ∷ (b'0', 0x29)
    ∷ (b'-', b'_')
    ∷ (b'=', b'+')
    ∷ (backspace, backspace)
    ∷ (tab, tab)
    ∷ (b'q', b'Q')
    ∷ (b'w', b'W')
    ∷ (b'e', b'E')
    ∷ (b'r', b'R')
    ∷ (b't', b'T')
    ∷ (b'y', b'Y')
    ∷ (b'u', b'U')
    ∷ (b'i', b'I')
    ∷ (b'o', b'O')
    ∷ (b'p', b'P')
    ∷ (b'[', 0x7b)
    ∷ (b']', 0x7d)
    ∷ (enter, enter)
    ∷ (char_invisible, char_invisible)
    ∷ (b'a', b'A')
    ∷ (b's', b'S')
    ∷ (b'd', b'D')
    ∷ (b'f', b'F')
    ∷ (b'g', b'G')
    ∷ (b'h', b'H')
    ∷ (b'j', b'J')
    ∷ (b'k', b'K')
    ∷ (b'l', b'L')
    ∷ (0x3b, b':')
    ∷ (0x27, 0x22)
    ∷ (b'`', b'~')
    ∷ (char_invisible, char_invisible)
    ∷ (0x5c, b'|')
    ∷ (b'z', b'Z')
    ∷ (b'x', b'X')
    ∷ (b'c', b'C')
    ∷ (b'v', b'V')
    ∷ (b'b', b'B')
    ∷ (b'n', b'N')
    ∷ (b'm', b'M')
    ∷ (0x2c, b'<')
    ∷ (0x2e, b'>')
    ∷ (b'/', b'?')
    ∷ (char_invisible, char_invisible)
    ∷ (b'*', b'*')
    ∷ (char_invisible, char_invisible)
    ∷ (0x20, 0x20)
    ∷ (char_invisible, char_invisible)
    ∷ []

pub record Keys : Type 0 where
  pub ctrl_status : Bool
  pub shift_status : Bool
  pub alt_status : Bool
  pub caps_lock_status : Bool
  pub ext_scancode : Bool
