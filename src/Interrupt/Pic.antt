-- ===== src/Interrupt/Pic.antt =====
-- `pic_init` of kernel/interrupt.c: what it writes to the two interrupt controllers.
use oslearn.Base.{
  ℕ, ◌+◌, ◌*◌, ◌/◌, ◌%◌, ◌^◌, ◌<◌, ◌≡◌, refl, ap, ◌∙◌, Bool, true, ◌||◌, ◌==◌, if◌then◌else◌, [],
  ◌∷◌, arith, every_below, every_below_lem, agree, agree→eq,
}
use oslearn.Port.{Writes, outb}

abbrev pub pic_m_ctrl : ℕ
pic_m_ctrl = 0x20

abbrev pub pic_m_data : ℕ
pic_m_data = 0x21

abbrev pub pic_s_ctrl : ℕ
pic_s_ctrl = 0xa0

abbrev pub pic_s_data : ℕ
pic_s_data = 0xa1

-- The master's four words of initialization, the slave's four, and the masks.
unfoldable pub pic_init : Writes → Writes
pic_init w =
    let w = outb pic_m_ctrl 0x11 w in
    let w = outb pic_m_data 0x20 w in
    let w = outb pic_m_data 0x04 w in
    let w = outb pic_m_data 0x01 w in
    let w = outb pic_s_ctrl 0x11 w in
    let w = outb pic_s_data 0x28 w in
    let w = outb pic_s_data 0x02 w in
    let w = outb pic_s_data 0x01 w in let w = outb pic_m_data 0xf8 w in outb pic_s_data 0xbf w

-- An 8259A by its documented behaviour: a state, a write to either of its two ports, the vector of
-- its first line and the mask. `0x11` at the control port starts the initialization, which takes
-- three words at the data port and leaves all lines open; from then on a word there is the mask.
pub record Controller : Type 1 where
  pub State : Type 0
  pub control : ℕ → State → State
  pub word : ℕ → State → State
  pub base : State → ℕ
  pub mask : State → ℕ
  pub base_set :
      (vector cascade mode bits : ℕ) (s : State)
      → base (word bits (word mode (word cascade (word vector (control 0x11 s))))) ≡ vector / 8 * 8
  pub mask_set :
      (vector cascade mode bits : ℕ) (s : State)
      → mask (word bits (word mode (word cascade (word vector (control 0x11 s))))) ≡ bits

-- The two controllers on their ports; other ports are not theirs.
module _ (c : Controller) where
  unfoldable pub written : ℕ → ℕ → c.State × c.State → c.State × c.State
  written port x (master, slave) =
      if port == 0x20
      then (c.control x master, slave)
      else if port == 0x21
      then (c.word x master, slave)
      else if port == 0xa0
      then (master, c.control x slave)
      else if port == 0xa1
      then (master, c.word x slave)
      else (master, slave)

  pub run_writes : Writes → c.State × c.State → c.State × c.State
  run_writes [] s = s
  run_writes ((port, x) ∷ rest) s = run_writes rest (written port x s)

  -- Line `i` of the sixteen is open if its bit is clear in the mask of its controller.
  pub is_open : c.State × c.State → ℕ → Bool
  is_open (master, slave) i =
      if i / 8 == 0 then (c.mask master / 2 ^ i % 2 == 0) else (c.mask slave / 2 ^ (i % 8) % 2 == 0)

  pub vector_of : c.State × c.State → ℕ → ℕ
  vector_of (master, slave) i = if i / 8 == 0 then c.base master + i else c.base slave + i % 8

pub run_writes-outb :
    (c : Controller) (port x : ℕ) (w : Writes) (s : c.State × c.State)
    → run_writes c (outb port x w) s ≡ written c (port % 65536) (x % 256) (run_writes c w s)
unfolding run_writes outb
run_writes-outb c port x [] s = refl
run_writes-outb c port x ((p, y) ∷ rest) s = run_writes-outb c port x rest (written c p y s)

-- The states of the two controllers after `pic_init`.
abbrev master_after : (c : Controller) → c.State → c.State
master_after c s = c.word 0xf8 (c.word 1 (c.word 4 (c.word 0x20 (c.control 0x11 s))))

abbrev slave_after : (c : Controller) → c.State → c.State
slave_after c s = c.word 0xbf (c.word 1 (c.word 2 (c.word 0x28 (c.control 0x11 s))))

pic_init_states :
    (c : Controller) (w : Writes) (s : c.State × c.State)
    → run_writes c (pic_init w) s
      ≡ (master_after c (run_writes c w s).0, slave_after c (run_writes c w s).1)
unfolding pic_init written
pic_init_states c w s = simp (run_writes-outb)

line_table :
    every_below 16 (λ i.
      agree
        (if i / 8 == 0 then 0xf8 / 2 ^ i % 2 == 0 else 0xbf / 2 ^ (i % 8) % 2 == 0)
        ((i == 0) || (i == 1) || (i == 2) || (i == 14)))
    ≡ true
unfolding every_below
line_table = refl

lines_open :
    (i : ℕ)
    → i < 16
    → (if i / 8 == 0 then 0xf8 / 2 ^ i % 2 == 0 else 0xbf / 2 ^ (i % 8) % 2 == 0)
      ≡ ((i == 0) || (i == 1) || (i == 2) || (i == 14))
lines_open i lt = agree→eq _ _ (
    every_below_lem 16
      (λ i.
        agree (if i / 8 == 0 then 0xf8 / 2 ^ i % 2 == 0 else 0xbf / 2 ^ (i % 8) % 2 == 0)
          ((i == 0) || (i == 1) || (i == 2) || (i == 14)))
      i line_table lt)

pub pic_init-open :
    (c : Controller) (w : Writes) (s : c.State × c.State) (i : ℕ)
    → i < 16
    → let s' = run_writes c (pic_init w) s in
      (vector_of c s' i ≡ 0x20 + i)
      × (is_open c s' i ≡ ((i == 0) || (i == 1) || (i == 2) || (i == 14)))
unfolding is_open vector_of
pic_init-open c w s i lt =
    let e = pic_init_states c w s in
    (
      ap (λ t. vector_of c t i) e
          ∙ ground (
            arith,
            c.base_set 0x20 4 1 0xf8 (run_writes c w s).0,
            c.base_set 0x28 2 1 0xbf (run_writes c w s).1,
          ),
      ap (λ t. is_open c t i) e
          ∙ rw
              (
                c.mask_set 0x20 4 1 0xf8 (run_writes c w s).0,
                c.mask_set 0x28 2 1 0xbf (run_writes c w s).1,
              )
              (lines_open i lt),
    )
