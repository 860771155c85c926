-- ===== src/Memory/Init/Sample.antt =====
-- The sample machine is as the loader leaves it.
use oslearn.Base.{arith}
use oslearn.Memory.Alloc.Sample.{loaded, loaded-HasTables}
use oslearn.Memory.Init.Sound.{IsLoaded}

pub loaded-IsLoaded : IsLoaded loaded
loaded-IsLoaded = record {
  tables = loaded-HasTables;
  directory = omega arith;
  low = λ u k. ground arith;
  unmapped = λ u k h. ground arith;
}
