-- ===== src/IoQueue/Ring.antt =====
-- The characters that the ring holds, oldest first.
use oslearn.Base.{
  ℕ, zero, suc, ◌+◌, ◌-◌, ◌%◌, ◌<◌, ◌≡◌, refl, ap, ap₂, List, [], ◌∷◌, ◌++◌, arith, length, get_or,
  set, get_or-set_self, get_or-set_ne,
}
use oslearn.IoQueue.{IoQueue, bufsize, ioqueue_init}

-- The indices lie in the buffer.
pub record IsRing (q : IoQueue) : Type 0 where
  pub size : length q.buf ≡ bufsize
  pub head_in : q.head < bufsize
  pub tail_in : q.tail < bufsize

-- `n` characters from index `t` on, going round.
abbrev pub items : List ℕ → ℕ → ℕ → List ℕ
items buf t zero = []
items buf t (suc n) = get_or buf t 0 ∷ items buf ((t + 1) % bufsize) n

abbrev pub fill_level : IoQueue → ℕ
fill_level q = (q.head + bufsize - q.tail) % bufsize

abbrev pub contents : IoQueue → List ℕ
contents q = items q.buf q.tail (fill_level q)

pub length-items : (buf : List ℕ) (t n : ℕ) → length (items buf t n) ≡ n
length-items buf t zero = refl
length-items buf t (suc n) = ap suc (length-items buf ((t + 1) % bufsize) n)

-- A new queue is well formed and empty.
pub ioqueue_init-IsRing :
    (buf : List ℕ)
    → length buf ≡ bufsize
    → IsRing (ioqueue_init buf) × (contents (ioqueue_init buf) ≡ [])
unfolding ioqueue_init
ioqueue_init-IsRing buf h =
    (record { size = h; head_in = omega arith; tail_in = omega arith }, refl)

pub items-set :
    (buf : List ℕ) (t n i b : ℕ)
    → length buf ≡ bufsize
    → t < bufsize
    → n < bufsize
    → i ≡ (t + n) % bufsize
    → items (set buf i b) t (suc n) ≡ items buf t n ++ b ∷ []
items-set buf t zero i b h ht hn e =
    let q : i ≡ t = omega arith in
    ap (λ x. x ∷ []) (subst-index q (get_or-set_self buf i b 0 (omega arith)))
  where
    subst-index : {i t : ℕ} → i ≡ t → get_or (set buf i b) i 0 ≡ b → get_or (set buf i b) t 0 ≡ b
    subst-index q r = cc
items-set buf t (suc n) i b h ht hn e =
    ap₂ ◌∷◌ (get_or-set_ne buf i t b 0 (omega arith))
      (items-set buf ((t + 1) % bufsize) n i b h (omega arith) (omega arith) (omega arith))

-- The level as a successor, when there is something to take.
pub items-suc :
    (buf : List ℕ) (t n : ℕ)
    → 0 < n
    → items buf t n ≡ get_or buf t 0 ∷ items buf ((t + 1) % bufsize) (n - 1)
items-suc buf t zero h = absurd (omega arith)
items-suc buf t (suc n) h = ap (λ m. get_or buf t 0 ∷ items buf ((t + 1) % bufsize) m) (omega arith)
