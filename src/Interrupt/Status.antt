-- ===== src/Interrupt/Status.antt =====
-- `intr_get_status`, `intr_enable`, `intr_disable`, `intr_set_status` of kernel/interrupt.c.
use oslearn.Base.{◌≡◌, refl, Bool, true, false, if◌then◌else◌}

pub data IntrStatus : Type 0 where
  intr_off intr_on : IntrStatus

-- `status & INTR_ON`
abbrev pub is_on : IntrStatus → Bool
is_on intr_off = false
is_on intr_on = true

-- The old status, and the flag after the call.
unfoldable pub intr_enable : IntrStatus → IntrStatus × IntrStatus
intr_enable flag = if is_on flag then (intr_on, flag) else (intr_off, intr_on)

unfoldable pub intr_disable : IntrStatus → IntrStatus × IntrStatus
intr_disable flag = if is_on flag then (intr_on, intr_off) else (intr_off, flag)

unfoldable pub intr_set_status : IntrStatus → IntrStatus → IntrStatus × IntrStatus
unfolding intr_enable intr_disable
intr_set_status status flag = if is_on status then intr_enable flag else intr_disable flag

-- A section between `intr_disable` and `intr_set_status` of its result runs with interrupts off, and
-- leaves the flag as it was, whether or not interrupts were on.
pub intr_set_status-disable :
    (flag : IntrStatus)
    → let (old, off) = intr_disable flag in (off ≡ intr_off) × ((intr_set_status old off).1 ≡ flag)
unfolding intr_disable intr_set_status
intr_set_status-disable intr_off = (refl, refl)
intr_set_status-disable intr_on = (refl, refl)
