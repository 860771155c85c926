-- ===== src/Bitmap/Byte.antt =====
-- One byte of a bitmap: the masks of lib/kernel/bitmap.c, and what they do to each bit.
use oslearn.Base.{
  ℕ, ◌-◌, ◌/◌, ◌%◌, ◌^◌, ◌<◌, bit_and, bit_or, ◌≡◌, refl, Bool, true, false, not, ◌==◌,
  if◌then◌else◌, u8, ◌<<<◌, every_below, every_below_lem, every_below₂_lem, every_below₃_lem, agree,
  agree→eq,
}

-- `byte & (1 << k)`, as a condition
abbrev pub mask_test : ℕ → ℕ → Bool
mask_test byte k = not (bit_and byte (1 <<< k) == 0)

-- `byte |= 1 << k`
abbrev pub mask_set : ℕ → ℕ → ℕ
mask_set byte k = u8 (bit_or byte (1 <<< k))

-- `byte &= ~(1 << k)`, the complement taken in 32 bits
abbrev pub mask_clear : ℕ → ℕ → ℕ
mask_clear byte k = u8 (bit_and byte (2 ^ 32 - 1 - (1 <<< k)))

-- Bit `k` of a byte, by its binary digits.
unfoldable pub digit : ℕ → ℕ → Bool
digit byte k = byte / 2 ^ k % 2 == 1

test_table : every_below 256 (λ b. every_below 8 (λ k. agree (mask_test b k) (digit b k))) ≡ true
unfolding every_below digit
test_table = refl

pub mask_test-digit : (b k : ℕ) → b < 256 → k < 8 → mask_test b k ≡ digit b k
mask_test-digit b k hb hk = agree→eq _ _ (every_below₂_lem 256 8 _ b k test_table hb hk)

set_table :
    every_below 256 (λ b. every_below 8 (λ k.
      every_below 8 (λ j. agree (digit (mask_set b k) j) (if k == j then true else digit b j))))
    ≡ true
unfolding every_below digit
set_table = refl

pub digit-mask_set :
    (b k j : ℕ)
    → b < 256
    → k < 8
    → j < 8
    → digit (mask_set b k) j ≡ (if k == j then true else digit b j)
digit-mask_set b k j hb hk hj = agree→eq _ _ (every_below₃_lem 256 8 8 _ b k j set_table hb hk hj)

clear_table :
    every_below 256 (λ b. every_below 8 (λ k.
      every_below 8 (λ j. agree (digit (mask_clear b k) j) (if k == j then false else digit b j))))
    ≡ true
unfolding every_below digit
clear_table = refl

pub digit-mask_clear :
    (b k j : ℕ)
    → b < 256
    → k < 8
    → j < 8
    → digit (mask_clear b k) j ≡ (if k == j then false else digit b j)
digit-mask_clear b k j hb hk hj =
    agree→eq _ _ (every_below₃_lem 256 8 8 _ b k j clear_table hb hk hj)

full_table : every_below 8 (λ k. digit 255 k) ≡ true
unfolding every_below digit
full_table = refl

pub digit-full : (k : ℕ) → k < 8 → digit 255 k ≡ true
digit-full k h = every_below_lem 8 _ k full_table h
