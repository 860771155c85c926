-- ===== src/Spawn/Frame.antt =====
-- `thread_create` writes its frame into the page of the thread.
use oslearn.Base.{ℕ, ◌+◌, ◌*◌, ◌<◌, ◌≡◌, refl, ap, sym, subst, some, ◌∙◌, List, [], ◌∷◌, ok, arith}
use oslearn.Machine.{Machine, walk, put_word}
use oslearn.Machine.Walk.{store_at}
use oslearn.Memory.Alloc.Page.{Keeps, Shows, Keeps-Shows, word_walk, put_word-Keeps, Keeps-trans}
use oslearn.Spawn.{store_fields}

-- The same words put into a frame.
abbrev pub put_fields : ℕ → List (ℕ × ℕ) → Machine → Machine
put_fields q [] m = m
put_fields q ((i, x) ∷ rest) m = put_fields q rest (put_word (q + i * 4) x m)

abbrev pub Fit : ℕ → List (ℕ × ℕ) → Type 0
Fit c [] = Unit
Fit c ((i, x) ∷ rest) = (c + i < 1024) × Fit c rest

pub store_fields-Shows :
    (fields : List (ℕ × ℕ)) (c p q : ℕ) (m : Machine) (a f : ℕ)
    → Shows m a f
    → p ≡ a + c * 4
    → q ≡ f + c * 4
    → Fit c fields
    → (store_fields p fields m ≡ ok (put_fields q fields m)) × Keeps m (put_fields q fields m)
unfolding store_fields
store_fields-Shows [] c p q m a f s e g fit = (refl, record { cr3 = refl; outside = λ b ne. refl })
store_fields-Shows ((i, x) ∷ rest) c p q m a f s e g (lt, fit) =
    let place : q + i * 4 ≡ f + (c + i) * 4 = omega arith in
    let reach : walk m (p + i * 4) ≡ some (q + i * 4) =
      ap (walk m) (omega arith) ∙ word_walk (c + i) s lt ∙ ap some (sym place) in
    let d₁ : Keeps m (put_word (q + i * 4) x m) =
      subst (λ b. Keeps m (put_word b x m)) (sym place) (put_word-Keeps (c + i) x s lt) in
    let (r, d) =
      store_fields-Shows rest c p q (put_word (q + i * 4) x m) a f (Keeps-Shows s d₁) e g fit in
    (simp (store_at m (p + i * 4) (q + i * 4) x reach, r), Keeps-trans s.tables d₁ d)
