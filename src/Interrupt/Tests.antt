-- ===== src/Interrupt/Tests.antt =====
-- Two controllers that behave as documented.
use oslearn.Base.{ℕ, ◌*◌, ◌/◌, refl, ◌==◌, if◌then◌else◌}
use oslearn.Interrupt.Pic.{Controller}

record Chip : Type 0 where
  first : ℕ
  masked : ℕ
  left : ℕ

abbrev take_word : ℕ → Chip → Chip
take_word x s =
    if s.left == 0
    then record s { masked = x }
    else if s.left == 3
    then record s { first = x / 8 * 8; left = 2 }
    else if s.left == 2
    then record s { left = 1 }
    else record s { left = 0 }

abbrev take_control : ℕ → Chip → Chip
take_control x s = if x == 0x11 then record { first = 0; masked = 0; left = 3 } else s

abbrev chip : Controller
chip = record {
  State = Chip;
  control = take_control;
  word = take_word;
  base = λ s. s.first;
  mask = λ s. s.masked;
  base_set = λ v c m b s. refl;
  mask_set = λ v c m b s. refl;
}

abbrev off : Chip
off = record { first = 8; masked = 255; left = 0 }
