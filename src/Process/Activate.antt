-- ===== src/Process/Activate.antt =====
-- `process_activate` of a process whose directory `create_page_dir` has made, and of a thread.
use oslearn.Machine.{Machine}
