-- ===== src/Port.antt =====
-- lib/kernel/io.h: output to the ports, as the bytes that have been written, each with its port.
use oslearn.Base.{ℕ, List, [], ◌∷◌, ◌++◌, u8, u16}

abbrev pub Writes : Type 0
Writes = List (ℕ × ℕ)

unfoldable pub outb : ℕ → ℕ → Writes → Writes
outb port byte w = w ++ (u16 port, u8 byte) ∷ []
