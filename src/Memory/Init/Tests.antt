-- ===== src/Memory/Init/Tests.antt =====
-- `mem_pool_init` on 2 MB and 64 pages, with the sample machine.
use oslearn.Base.{ℕ, ◌≡◌, refl, ok, arith}
use oslearn.Memory.{Memory}
use oslearn.Memory.Alloc.Sample.{loaded, space}
use oslearn.Memory.Init.{mem_pool_init}
use oslearn.Memory.Init.Sample.{loaded-IsLoaded}
use oslearn.Memory.Init.Sound.{IsInitial, mem_pool_init-IsInitial}

abbrev low : ℕ → ℕ
low a = 1

abbrev all_mem : ℕ
all_mem = 0x240000

mem_pool_init-IsInitial_example :
    (m' : Memory) × (mem_pool_init low all_mem space.memory ≡ ok m')
    × IsInitial all_mem (record { memory = m'; machine = loaded })
mem_pool_init-IsInitial_example =
    mem_pool_init-IsInitial low all_mem space.memory loaded (omega arith) (omega arith)
      (λ a. omega arith) refl loaded-IsLoaded
