-- ===== src/Str.antt =====
-- lib/string.c over a flat memory of bytes. A pointer is an address and NULL is 0; `char` is signed,
-- as it is for the compiler that the Makefile calls. A loop that looks for a terminator runs on
-- `fuel` rounds; one round more than the string is long is enough.
pub mod Memory
pub mod Strings
pub mod Compare
pub mod Search
pub mod Copy
mod Tests
use oslearn.Base.{
  ℕ, zero, suc, ◌+◌, ◌-◌, ◌%◌, Bool, true, false, not, ◌&&◌, ltb, ◌==◌, if◌then◌else◌, u32, ℤ, pos,
  negsuc, Run, ok, stuck, ◌>>=◌, ◌>>◌, assert,
}

abbrev pub Mem : Type 0
Mem = ℕ → ℕ

abbrev pub store : Mem → ℕ → ℕ → Mem
store m p v a = if p == a then v else m a

-- `ASSERT(p)`
abbrev pub non_null : ℕ → Run (Unit {0})
non_null p = assert (not (p == 0))

-- `a < b` of two values of type `char`
unfoldable pub char_lt : ℕ → ℕ → Bool
char_lt a b = ltb ((a + 128) % 256) ((b + 128) % 256)

-- `c == ch` of a `char` and a `uint8_t`: both are promoted to `int`
unfoldable pub char_is : ℕ → ℕ → Bool
char_is c ch = (c == ch) && ltb c 128

pub fill : ℕ → Mem → ℕ → ℕ → Mem
fill zero m p value = m
fill (suc size) m p value = fill size (store m p value) (p + 1) value

pub memset : Mem → ℕ → ℕ → ℕ → Run Mem
memset m dst value size = do non_null dst; ok (fill size m dst value)

pub copy : ℕ → Mem → ℕ → ℕ → Mem
copy zero m dst src = m
copy (suc size) m dst src = copy size (store m dst (m src)) (dst + 1) (src + 1)

pub memcpy : Mem → ℕ → ℕ → ℕ → Run Mem
memcpy m dst src size = do non_null dst; non_null src; ok (copy size m dst src)

pub compare_bytes : ℕ → Mem → ℕ → ℕ → ℤ
compare_bytes zero m a b = pos 0
compare_bytes (suc size) m a b =
    let rest = compare_bytes size m (a + 1) (b + 1) in
    if char_lt (m b) (m a) then pos 1 else if char_lt (m a) (m b) then negsuc 0 else rest

pub memcmp : Mem → ℕ → ℕ → ℕ → Run ℤ
memcmp m a b size = do non_null a; non_null b; ok (compare_bytes size m a b)

copy_chars : ℕ → Mem → ℕ → ℕ → Run Mem
copy_chars zero m dst src = stuck
copy_chars (suc f) m dst src =
    let rest = copy_chars f (store m dst (m src)) (dst + 1) (src + 1) in
    if m src == 0 then ok m else rest

-- The memory after the call, and the pointer that it returns.
pub strcpy : ℕ → Mem → ℕ → ℕ → Run (Mem × ℕ)
strcpy fuel m dst src = do m' ← copy_chars fuel m dst src; ok (m', dst)

strlen_from : ℕ → Mem → ℕ → ℕ → Run ℕ
strlen_from zero m str count = stuck
strlen_from (suc f) m str count =
    let rest = strlen_from f m (str + 1) (u32 (count + 1)) in if m str == 0 then ok count else rest

pub strlen : ℕ → Mem → ℕ → Run ℕ
strlen fuel m str = do non_null str; strlen_from fuel m str 0

strcmp_from : ℕ → Mem → ℕ → ℕ → Run ℤ
strcmp_from zero m a b = stuck
strcmp_from (suc f) m a b =
    let rest = strcmp_from f m (a + 1) (b + 1) in
    if not (m a == 0) && not (m b == 0)
    then (if char_lt (m b) (m a)
        then ok (pos 1)
        else if char_lt (m a) (m b)
        then ok (negsuc 0)
        else rest)
    else if not (m a == 0)
    then ok (pos 1)
    else if not (m b == 0)
    then ok (negsuc 0)
    else ok (pos 0)

pub strcmp : ℕ → Mem → ℕ → ℕ → Run ℤ
strcmp fuel m a b = do non_null a; non_null b; strcmp_from fuel m a b

strchr_from : ℕ → Mem → ℕ → ℕ → Run ℕ
strchr_from zero m str ch = stuck
strchr_from (suc f) m str ch =
    let rest = strchr_from f m (str + 1) ch in
    if m str == 0 then ok 0 else if char_is (m str) ch then ok str else rest

pub strchr : ℕ → Mem → ℕ → ℕ → Run ℕ
strchr fuel m str ch = do non_null str; strchr_from fuel m str ch

strrchr_from : ℕ → Mem → ℕ → ℕ → ℕ → Run ℕ
strrchr_from zero m str ch last_char = stuck
strrchr_from (suc f) m str ch last_char =
    let rest = strrchr_from f m (str + 1) ch (if char_is (m str) ch then str else last_char) in
    if m str == 0 then ok last_char else rest

pub strrchr : ℕ → Mem → ℕ → ℕ → Run ℕ
strrchr fuel m str ch = do non_null str; strrchr_from fuel m str ch 0

-- `while(*str++); --str;`: the address of the terminator
find_end : ℕ → Mem → ℕ → Run ℕ
find_end zero m str = stuck
find_end (suc f) m str = let rest = find_end f m (str + 1) in if m str == 0 then ok str else rest

-- `while((*str++ = *src++));`
copy_string : ℕ → Mem → ℕ → ℕ → Run Mem
copy_string zero m str src = stuck
copy_string (suc f) m str src =
    let m' = store m str (m src) in
    let rest = copy_string f m' (str + 1) (src + 1) in if m src == 0 then ok m' else rest

pub strcat : ℕ → Mem → ℕ → ℕ → Run (Mem × ℕ)
strcat fuel m dst src = do
  non_null dst
  non_null src
  str ← find_end fuel m dst
  m' ← copy_string fuel m str src
  ok (m', dst)

strchrs_from : ℕ → Mem → ℕ → ℕ → ℕ → Run ℕ
strchrs_from zero m p ch ch_cnt = stuck
strchrs_from (suc f) m p ch ch_cnt =
    let rest =
      strchrs_from f m (p + 1) ch (if char_is (m p) ch then u32 (ch_cnt + 1) else ch_cnt) in
    if m p == 0 then ok ch_cnt else rest

pub strchrs : ℕ → Mem → ℕ → ℕ → Run ℕ
strchrs fuel m str ch = do non_null str; strchrs_from fuel m str ch 0
