-- ===== src/Memory/Paging/Clear.antt =====
-- Clearing a page that stays in reach while it is cleared.
use oslearn.Base.{
  ℕ, zero, suc, ◌+◌, ◌*◌, ◌%◌, ◌<◌, ◌≤◌, ◌≡◌, refl, ap, ◌∙◌, Bool, ◌&&◌, some, leb, ltb, ◌==◌,
  if◌then◌else◌, ok, arith,
}
use oslearn.Machine.{Machine, walk, put_word}
use oslearn.Machine.Walk.{store_at}
use oslearn.Memory.Paging.{clear_words}

-- The words `i` to `i + n` of the frame `f`.
abbrev pub among : ℕ → ℕ → ℕ → ℕ → Bool
among f i n a = leb (f + i * 4) a && ltb a (f + (i + n) * 4) && (a % 4 == 0)

-- The page `a` shows the frame `f` in every machine with the property, which writing there keeps.
module _ (Good : Machine → Type 0) (a f : ℕ) (al : f % 4096 ≡ 0)
    (reach : (m : Machine) (j : ℕ) → Good m → j < 1024 → walk m (a + j * 4) ≡ some (f + j * 4))
    (keep : (m : Machine) (j : ℕ) → Good m → j < 1024 → Good (put_word (f + j * 4) 0 m)) where
  pub clear_words-among :
      (n i p : ℕ) (m : Machine)
      → Good m
      → i + n ≤ 1024
      → p ≡ a + i * 4
      → (m' : Machine) × (clear_words n p m ≡ ok m')
        × Good m'
        × (m'.cr3 ≡ m.cr3)
        × ((b : ℕ) → m'.words b ≡ (if among f i n b then 0 else m.words b))
  unfolding clear_words
  clear_words-among zero i p m g le q = (m, refl, g, refl, λ b. ground arith)
  clear_words-among (suc n) i p m g le q =
      let m₁ = put_word (f + i * 4) 0 m in
      let (m₂, r, g₂, c, w) =
        clear_words-among n (i + 1) (p + 4) m₁ (keep m i g (omega arith)) (omega arith)
          (omega arith) in
      (
        m₂,
        simp (store_at m p (f + i * 4) 0 (ap (walk m) q ∙ reach m i g (omega arith)), r),
        g₂,
        c,
        λ b. w b ∙ joined b,
      )
    where
      joined :
          (b : ℕ)
          → (if among f (i + 1) n b then 0 else (put_word (f + i * 4) 0 m).words b)
            ≡ (if among f i (suc n) b then 0 else m.words b)
      joined b = ground arith
