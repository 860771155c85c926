-- ===== src/Main/Tests.antt =====
-- Task 1 of the sample kernel echoes a character.
use oslearn.Base.{[], replicate}
use oslearn.Thread.Sample.{sample}
use oslearn.Sync.{Lock}
use oslearn.Main.{Terminal}

abbrev open_lock : Lock
open_lock = record {
  holder = 0;
  semaphore = record { value = 1; waiters = [] };
  holder_repeat_nr = 0;
}

-- Two characters wait, round the end of the buffer, and task 3 sleeps until there is room.
abbrev terminal : Terminal
terminal = record {
  kbd_buf = record {
    lock = open_lock;
    producer = 3;
    consumer = 0;
    buf = replicate 64 0x61;
    head = 1;
    tail = 63;
  };
  console = record { lock = open_lock; screen = [] };
  kernel = sample 4;
}
