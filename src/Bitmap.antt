-- ===== src/Bitmap.antt =====
-- lib/kernel/bitmap.c and bitmap.h: the bitmap that the memory pools allocate from.
-- `bits` is the memory from the pointer of that name on, as far as it can be read; the loops of
-- `bitmap_scan` look one place past the `btmp_bytes_len` bytes of the bitmap. The index -1 is `none`.
pub mod Byte
pub mod Bits
pub mod Scan
pub mod Free
pub mod FirstFit
pub mod Init
mod Tests
use oslearn.Base.{
  ℕ, zero, suc, ◌+◌, ◌-◌, ◌*◌, ◌/◌, ◌%◌, ◌^◌, bit_and, Bool, true, false, not, ◌&&◌, ◌||◌, Option,
  none, some, List, [], ◌∷◌, ◌++◌, get_elem?, set, replicate, ltb, ◌==◌, if◌then◌else◌, u8, u32,
  ◌<<<◌, Run, ok, fault, stuck, ◌>>=◌, ◌>>◌, assert, read,
}
use Byte.{mask_test, mask_set, mask_clear}

pub record Bitmap : Type 0 where
  pub btmp_bytes_len : ℕ
  pub bits : List ℕ

-- `memset(bits, 0, n)`
pub clear_bytes : ℕ → List ℕ → Run (List ℕ)
clear_bytes zero bs = ok bs
clear_bytes (suc n) [] = fault
clear_bytes (suc n) (b ∷ bs) = do rest ← clear_bytes n bs; ok (0 ∷ rest)

pub init : Bitmap → Run Bitmap
init btmp = do bs ← clear_bytes btmp.btmp_bytes_len btmp.bits; ok (record btmp { bits = bs })

pub scan_test : Bitmap → ℕ → Run Bool
scan_test btmp bit_idx = do
  byte ← read (get_elem? btmp.bits (bit_idx / 8))
  ok (mask_test byte (bit_idx % 8))

-- The first loop of `bitmap_scan`, over the bytes from `idx_byte` on.
pub skip_full : ℕ → List ℕ → ℕ → Run ℕ
skip_full len [] idx_byte = fault
skip_full len (b ∷ bs) idx_byte =
    let rest = skip_full len bs (idx_byte + 1) in
    if (0xff == b) && ltb idx_byte len then rest else ok idx_byte

-- The second loop, from `idx_bit` on; nine rounds are enough.
pub first_free : ℕ → ℕ → ℕ → Run ℕ
first_free zero byte idx_bit = stuck
first_free (suc f) byte idx_bit =
    let rest = first_free f byte (idx_bit + 1) in
    if not (bit_and (u8 (1 <<< idx_bit)) byte == 0) then rest else ok idx_bit

-- The last loop, with `bit_left` rounds to go.
pub scan_run : Bitmap → ℕ → ℕ → ℕ → ℕ → Run (Option ℕ)
scan_run btmp cnt zero next_bit count = ok none
scan_run btmp cnt (suc bit_left) next_bit count = do
  taken ← scan_test btmp next_bit
  let count' = if not taken then u32 (count + 1) else 0
  let rest = scan_run btmp cnt bit_left (u32 (next_bit + 1)) count'
  if cnt == count' then ok (some (u32 (next_bit + 2 ^ 32 - cnt + 1))) else rest

pub scan : Bitmap → ℕ → Run (Option ℕ)
scan btmp cnt = do
  let len = btmp.btmp_bytes_len
  idx_byte ← skip_full len btmp.bits 0
  assert (ltb idx_byte len)
  if idx_byte == len then ok none else do
    byte ← read (get_elem? btmp.bits idx_byte)
    idx_bit ← first_free 9 byte 0
    let start = u32 (u32 (idx_byte * 8) + idx_bit)
    if 1 == cnt
        then ok (some start)
        else scan_run btmp cnt (u32 (u32 (len * 8) + 2 ^ 32 - start)) (u32 (start + 1)) 1

-- A byte out of range is a fault; `value` is 0 or 1.
pub put : Bitmap → ℕ → ℕ → Run Bitmap
put btmp bit_idx value = do
  assert ((0 == value) || (1 == value))
  byte ← read (get_elem? btmp.bits (bit_idx / 8))
  let byte' =
      if not (value == 0) then mask_set byte (bit_idx % 8) else mask_clear byte (bit_idx % 8)
  ok (record btmp { bits = set btmp.bits (bit_idx / 8) byte' })
