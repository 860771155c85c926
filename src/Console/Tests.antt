-- ===== src/Console/Tests.antt =====
-- Task 1 of the sample kernel prints first.
use oslearn.Base.{◌≡◌, refl, [], ◌∷◌, ok, arith}
use oslearn.Sync.{returned}
use oslearn.Thread.Sample.{sample}
use oslearn.Console.{Console, console_put_str}
use oslearn.Console.Locked.{OtherReach, console_put_str_alone}

abbrev console : Console
console = record {
  lock = record {
    holder = 0;
    semaphore = record { value = 1; waiters = [] };
    holder_repeat_nr = 0;
  };
  screen = 62 ∷ [];
}

console_put_str_alone_example :
    (c' : Console) × (console_put_str (97 ∷ 98 ∷ []) console (sample 5)
      ≡ ok (returned c' (sample 5)))
    × (c'.screen ≡ 62 ∷ 97 ∷ 98 ∷ [])
    × ((d : Console) → OtherReach 1 c' d → d.screen ≡ 62 ∷ 97 ∷ 98 ∷ [])
console_put_str_alone_example =
    console_put_str_alone (97 ∷ 98 ∷ []) console (sample 5) refl refl refl (λ e. omega arith)
