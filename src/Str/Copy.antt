-- ===== src/Str/Copy.antt =====
-- `strcpy` and `strcat`.
use oslearn.Base.{
  ℕ, zero, suc, ◌+◌, ◌-◌, ◌≤◌, ◌<◌, ◌≡◌, ap, ◌≢◌, ◌↔◌, ◌⊎◌, inl, ◌∙◌, sym, true, false, List, [],
  ◌∷◌, ◌++◌, arith, length, ◌==◌, ==_of_ne, if◌then◌else◌, ok,
}
use oslearn.Str.{Mem, store, copy, copy_chars, strcpy, find_end, copy_string, strcat}
use oslearn.Str.Memory.{within, copy_lem}
use oslearn.Str.Strings.{IsString, IsString-frame, IsString-end}

IsString-moved :
    (m m' : Mem) (s d : ℕ) (xs : List ℕ)
    → IsString m s xs
    → ((i : ℕ) → i < length xs → m' (d + i) ≡ m (s + i))
    → m' (d + length xs) ≡ 0
    → IsString m' d xs
IsString-moved m m' s d [] t e z = let q : d + 0 ≡ d = omega arith in rw q at z
IsString-moved m m' s d (x ∷ xs) (h, ne, t) e z = (
  ap m' (omega arith) ∙ e 0 (omega arith) ∙ ap m (omega arith) ∙ h,
  ne,
  IsString-moved m m' (s + 1) (d + 1) xs t
      (λ i l. ap m' (omega arith) ∙ e (suc i) (omega arith) ∙ ap m (omega arith))
      (ap m' (omega arith) ∙ z),
)

IsString-join :
    (m m' : Mem) (p : ℕ) (xs ys : List ℕ)
    → IsString m p xs
    → ((a : ℕ) → p ≤ a → a < p + length xs → m' a ≡ m a)
    → IsString m' (p + length xs) ys
    → IsString m' p (xs ++ ys)
IsString-join m m' p [] ys s same t = let q : p + 0 ≡ p = omega arith in rw q at t
IsString-join m m' p (x ∷ xs) ys (e, ne, s) same t =
    let q : p + suc (length xs) ≡ p + 1 + length xs = omega arith in
    (
      same p (omega arith) (omega arith) ∙ e,
      ne,
      IsString-join m m' (p + 1) xs ys s (λ a h k. same a (omega arith) (omega arith)) (rw q at t),
    )

-- The target of a copy does not start inside the string at `src`, its terminator included.
abbrev pub Clear : ℕ → ℕ → ℕ → Type 0
Clear n dst src = (dst ≤ src) ⊎ (src + n < dst)

store-IsString :
    (m : Mem) (d s v : ℕ) (xs : List ℕ)
    → Clear (suc (length xs)) d s
    → IsString m (s + 1) xs
    → IsString (store m d v) (s + 1) xs
store-IsString m d s v xs c = IsString-frame m (store m d v) (s + 1) xs λ a h k. ground arith

copy_chars-copy :
    (f : ℕ) (m : Mem) (d s : ℕ) (xs : List ℕ)
    → IsString m s xs
    → Clear (length xs) d s
    → length xs < f
    → copy_chars f m d s ≡ ok (copy (length xs) m d s)
unfolding copy_chars copy
copy_chars-copy zero m d s xs t c h = absurd (omega arith)
copy_chars-copy (suc f) m d s [] t c h = rw t
copy_chars-copy (suc f) m d s (x ∷ xs) (e, ne, t) c h =
    let ne' : (m s == 0) ≡ false = ==_of_ne (m s) 0 (rw e ne) in
    rw ne' (
      copy_chars-copy f (store m d (m s)) (d + 1) (s + 1) xs (store-IsString m d s (m s) xs c t)
        (ground arith) (omega arith))

-- Where the target does not start inside the string at `src`, and with more fuel than it is long,
-- `strcpy` copies its characters and changes no other byte, so that it leaves a string at `dst`
-- exactly when the byte behind the copy was 0 before: it writes no terminator.
pub strcpy_lem :
    (fuel : ℕ) (m : Mem) (dst src : ℕ) (xs : List ℕ)
    → IsString m src xs
    → Clear (length xs) dst src
    → length xs < fuel
    → (m' : Mem) × (strcpy fuel m dst src ≡ ok (m', dst))
      × ((a : ℕ) → m' a ≡ (if within dst (length xs) a then m (src + (a - dst)) else m a))
      × (IsString m' dst xs ↔ (m (dst + length xs) ≡ 0))
unfolding strcpy
strcpy_lem fuel m dst src xs s c h = (
  copy (length xs) m dst src,
  rw (copy_chars-copy fuel m dst src xs s c h),
  changed,
  (
    λ t. sym behind ∙ IsString-end _ dst xs t,
    λ z. IsString-moved m _ src dst xs s (λ i l. changed (dst + i) ∙ inside i l) (behind ∙ z),
  ),
)
  where
    changed :
        (a : ℕ)
        → copy (length xs) m dst src a
          ≡ (if within dst (length xs) a then m (src + (a - dst)) else m a)
    changed a = copy_lem (length xs) m dst src a (ground arith)

    behind : copy (length xs) m dst src (dst + length xs) ≡ m (dst + length xs)
    behind = ground (arith, changed (dst + length xs))

    inside :
        (i : ℕ)
        → i < length xs
        → (if within dst (length xs) (dst + i) then m (src + (dst + i - dst)) else m (dst + i))
          ≡ m (src + i)
    inside i l = ground arith

find_end-length :
    (f : ℕ) (m : Mem) (p : ℕ) (xs : List ℕ)
    → IsString m p xs
    → length xs < f
    → find_end f m p ≡ ok (p + length xs)
unfolding find_end
find_end-length zero m p xs s h = absurd (omega arith)
find_end-length (suc f) m p [] s h = rw s (ap ok (omega arith))
find_end-length (suc f) m p (x ∷ xs) (e, ne, s) h =
    rw (e, ==_of_ne x 0 ne) (find_end-length f m (p + 1) xs s (omega arith) ∙ ap ok (omega arith))

copy_string-copy :
    (f : ℕ) (m : Mem) (d s : ℕ) (xs : List ℕ)
    → IsString m s xs
    → Clear (length xs) d s
    → length xs < f
    → copy_string f m d s ≡ ok (copy (suc (length xs)) m d s)
unfolding copy_string copy
copy_string-copy zero m d s xs t c h = absurd (omega arith)
copy_string-copy (suc f) m d s [] t c h = let z : (m s == 0) ≡ true = ground arith in rw z
copy_string-copy (suc f) m d s (x ∷ xs) (e, ne, t) c h =
    let ne' : (m s == 0) ≡ false = ==_of_ne (m s) 0 (rw e ne) in
    rw ne' (
      copy_string-copy f (store m d (m s)) (d + 1) (s + 1) xs (store-IsString m d s (m s) xs c t)
        (ground arith) (omega arith))

-- With strings at `dst` and `src`, neither NULL, where the joined string and the one at `src` share
-- no byte, and with more fuel than each is long, `strcat` leaves at `dst` the two strings joined,
-- with a terminator, and changes no byte outside the part that it appends.
pub strcat-append :
    (fuel : ℕ) (m : Mem) (dst src : ℕ) (xs ys : List ℕ)
    → IsString m dst xs
    → IsString m src ys
    → dst ≢ 0
    → src ≢ 0
    → (dst + length xs + length ys < src) ⊎ (src + length ys < dst)
    → length xs < fuel
    → length ys < fuel
    → (m' : Mem) × (strcat fuel m dst src ≡ ok (m', dst))
      × IsString m' dst (xs ++ ys)
      × ((a : ℕ) → (a < dst + length xs) ⊎ (dst + length xs + length ys < a) → m' a ≡ m a)
unfolding strcat
strcat-append fuel m dst src xs ys s t hd hs apart hx hy = (
  m',
  rw (
    ==_of_ne dst 0 hd,
    ==_of_ne src 0 hs,
    find_end-length fuel m dst xs s hx,
    copy_string-copy fuel m end src ys t (ground arith) hy,
  ),
  IsString-join m m' dst xs ys s (λ a h k. outside a (inl k))
      (IsString-moved m m' src end ys t inside (last ∙ IsString-end m src ys t)),
  outside,
)
  where
    end : ℕ
    end = dst + length xs

    m' : Mem
    m' = copy (suc (length ys)) m end src

    changed : (a : ℕ) → m' a ≡ (if within end (suc (length ys)) a then m (src + (a - end)) else m a)
    changed a = copy_lem (suc (length ys)) m end src a (ground arith)

    outside : (a : ℕ) → (a < end) ⊎ (end + length ys < a) → m' a ≡ m a
    outside a h = ground (arith, changed a)

    inside : (i : ℕ) → i < length ys → m' (end + i) ≡ m (src + i)
    inside i h = ground (arith, changed (end + i))

    last : m' (end + length ys) ≡ m (src + length ys)
    last = ground (arith, changed (end + length ys))
