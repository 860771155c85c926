-- ===== src/Timer/Tests.antt =====
-- Counters that behave as documented.
use oslearn.Base.{
  ℕ, ◌+◌, ◌*◌, ◌/◌, ◌%◌, ◌<◌, ◌≡◌, refl, Bool, true, false, ◌==◌, if◌then◌else◌, [], ok, arith,
}
use oslearn.Port.{Writes}
use oslearn.Interrupt.Handlers.{Handlers, exception_init}
use oslearn.Timer.{timer_init}
use oslearn.Timer.Rate.{Counters, run_counters, IsTimed, timer_init-IsTimed}

-- The value and the mode of each counter, and whether its low byte has come.
record Chip : Type 0 where
  values : ℕ → ℕ
  modes : ℕ → ℕ
  half : ℕ → Bool

abbrev take_control : ℕ → Chip → Chip
take_control x s = record {
  values = s.values;
  modes = λ n. if n == x / 64 then x % 16 / 2 else s.modes n;
  half = λ n. if n == x / 64 then false else s.half n;
}

abbrev take_value : ℕ → ℕ → Chip → Chip
take_value k x s = record {
  values = λ n. if n == k then (if s.half n then s.values n % 256 + x * 256 else x) else s.values n;
  modes = s.modes;
  half = λ n. if n == k then true else s.half n;
}

reload_take :
    (n m low high : ℕ) (s : Chip)
    → n < 3
    → m < 6
    → low < 256
    → (take_value n high (take_value n low (take_control (n * 64 + 3 * 16 + m * 2) s))).values n
      ≡ low + high * 256
reload_take n m low high s hn hm hl = ground arith

mode_take :
    (n m low high : ℕ) (s : Chip)
    → n < 3
    → m < 6
    → low < 256
    → (take_value n high (take_value n low (take_control (n * 64 + 3 * 16 + m * 2) s))).modes n ≡ m
mode_take n m low high s hn hm hl = ground arith

abbrev chip : Counters
chip = record {
  State = Chip;
  control = take_control;
  value = take_value;
  reload = λ s. s.values;
  mode = λ s. s.modes;
  reload_set = reload_take;
  mode_set = mode_take;
}

abbrev off : Chip
off = record { values = λ n. 0; modes = λ n. 0; half = λ n. false }

timer_init-IsTimed_example :
    (h' : Handlers) × (w' : Writes) × (timer_init 0xc0003000 (exception_init 0xc0001a00) []
      ≡ ok (h', w'))
    × IsTimed chip 0xc0003000 (exception_init 0xc0001a00) h' (run_counters chip w' off)
unfolding exception_init
timer_init-IsTimed_example =
    timer_init-IsTimed chip 0xc0003000 (exception_init 0xc0001a00) [] off refl
