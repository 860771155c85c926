-- ===== src/Memory/Tests.antt =====
-- A memory of 512 MB.
use oslearn.Base.{◌+◌, ◌≤◌, arith}
use oslearn.Memory.Layout.{divide, divide_loses}

divide_loses_example :
    (divide 0x20000000).kernel_free_pages + (divide 0x20000000).user_free_pages + 65536 ≤ 130560
divide_loses_example = divide_loses 0x20000000 (omega arith) (omega arith)
