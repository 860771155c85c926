-- ===== src/IoQueue/Tests.antt =====
-- The ring, empty, with one character, and full, on the small kernel state.
use oslearn.Base.{ℕ, ◌≡◌, ◌<◌, refl, List, [], ◌∷◌, arith, ok, replicate}
use oslearn.Thread.State.{Kernel}
use oslearn.Thread.Invariant.{IsKernel}
use oslearn.Thread.Sample.{sample, sample-IsKernel}
use oslearn.Sync.{lock_init}
use oslearn.Sync.Acquire.{lock_init-IsLock}
use oslearn.IoQueue.{IoQueue, consuming, done, waits_turn, ioq_getchar, ioq_putchar}
use oslearn.IoQueue.Ring.{IsRing, contents}
use oslearn.IoQueue.Bounded.{ioq_getchar_takes, ioq_putchar_appends}
use oslearn.IoQueue.Waiting.{Waits, ioq_getchar-Waits}

abbrev letters : List ℕ
letters = replicate 64 0x61

-- Task 3 is noted as the thread that waits on the given side.
abbrev ring : ℕ → ℕ → ℕ → ℕ → IoQueue
ring producer consumer head tail = record {
  lock = lock_init;
  producer = producer;
  consumer = consumer;
  buf = letters;
  head = head;
  tail = tail;
}

ring-IsRing : (p c h t : ℕ) → h < 64 → t < 64 → IsRing (ring p c h t)
ring-IsRing p c h t hh ht = record { size = refl; head_in = hh; tail_in = ht }

ioq_getchar_takes_example :
    (q' : IoQueue) × (k' : Kernel) × (ioq_getchar (ring 3 0 1 63) (sample 4) ≡ ok (done 0x61 q' k'))
    × IsRing q'
    × (contents q' ≡ 0x61 ∷ [])
    × (q'.producer ≡ 0)
    × IsKernel k'
    × (k'.running ≡ 1)
ioq_getchar_takes_example =
    ioq_getchar_takes (ring 3 0 1 63) (sample 4) 0x61 (0x61 ∷ [])
      (ring-IsRing 3 0 1 63 (omega arith) (omega arith)) (sample-IsKernel 4) refl (λ h. refl) refl

ioq_putchar_appends_example :
    (q' : IoQueue) × (k' : Kernel) × (ioq_putchar (ring 0 3 0 63) 0x62 (sample 4)
      ≡ ok (done tt q' k'))
    × IsRing q'
    × (contents q' ≡ 0x61 ∷ 0x62 ∷ [])
    × (q'.consumer ≡ 0)
    × IsKernel k'
    × (k'.running ≡ 1)
ioq_putchar_appends_example =
    ioq_putchar_appends (ring 0 3 0 63) 0x62 (sample 4)
      (ring-IsRing 0 3 0 63 (omega arith) (omega arith)) (sample-IsKernel 4) refl (λ h. refl)
      (omega arith)

ioq_getchar-Waits_example :
    (q' : IoQueue) × (k' : Kernel) × (ioq_getchar (ring 0 0 9 9) (sample 4) ≡ ok (waits_turn q' k'))
    × Waits consuming (ring 0 0 9 9) q' (sample 4) k' 2
ioq_getchar-Waits_example =
    ioq_getchar-Waits (ring 0 0 9 9) (sample 4) 2 []
      (ring-IsRing 0 0 9 9 (omega arith) (omega arith)) (sample-IsKernel 4) refl refl
      (lock_init-IsLock (sample 4)).0 (lock_init-IsLock (sample 4)).1 (omega arith) refl refl
