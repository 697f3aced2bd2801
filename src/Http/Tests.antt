-- ===== src/Http/Tests.antt =====
-- An upload of a file of six bytes, run.
use mzntapp_cpp.Base.{ℕ, ◌≡◌, true, List, [], ◌∷◌, codes, arith}
use mzntapp_cpp.Http.{UploadTask, opened, Call, queue_size, read_callback}
use mzntapp_cpp.Io.{Env, Returns}
use mzntapp_cpp.Http.Task.{
  TaskCall, starts_library, seeks, sets_read_data, performs, closes_file, opens_file, frees_handle,
  deletes_task, run_task, task_calls, options_of, run_task_lem,
}
use mzntapp_cpp.Http.Waits.{sends, Drains, sends-ends}

abbrev task : UploadTask
task = record {
  local_filename = codes "IF.CH_0";
  offset = 1;
  upload_size = 3;
  full_remote_path = codes "host/mz0/eph.IFCH_0";
  port = 1337;
}

abbrev file_bytes : List ℕ
file_bytes = 10 ∷ 11 ∷ 12 ∷ 13 ∷ 14 ∷ 15 ∷ []

-- The queue is long for two readings in a row at most.
abbrev draining : Env Call
draining [] queue_size = 300
draining (_ ∷ []) queue_size = 300
draining log queue_size = 10

draining-Drains : Drains 3 draining
draining-Drains log = (2, omega arith, omega arith)

sends-ends_example :
    Returns (sends 3 true (2 ∷ 2 ∷ 2 ∷ []) (opened task file_bytes) draining []) λ r l.
      (r.0 ≡ 11 ∷ 12 ∷ 13 ∷ [])
      × Returns (read_callback 3 true 1 2 r.1 draining l) (λ q _. q.0 ≡ [])
sends-ends_example =
    sends-ends 3 true task file_bytes (2 ∷ 2 ∷ 2 ∷ []) 2 draining [] (λ _. draining-Drains)
      (omega arith)
      ((omega arith, omega arith), ((omega arith, omega arith), ((omega arith, omega arith), tt)))
      (omega arith) (omega arith) (omega arith)

-- Everything succeeds but the transfer.
abbrev failing : Env TaskCall
failing log performs = 7
failing log starts_library = 0
failing log _ = 1

run_task_example : Returns (run_task task failing []) λ _ l.
    task_calls l
    ≡ deletes_task
      ∷ frees_handle
      ∷ closes_file
      ∷ performs
      ∷ sets_read_data
      ∷ seeks 1
      ∷ opens_file (codes "IF.CH_0")
      ∷ options_of task
run_task_example = run_task_lem task failing
