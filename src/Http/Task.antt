-- ===== src/Http/Task.antt =====
-- src/HTTPClient.cpp: UploadTask::Run, and the constructor and destructor of HTTPClient, over the calls
-- of libcurl and of the file.
use mzntapp_cpp.Base.{ℕ, ◌≡◌, Bool, true, ◌==◌, arith, if◌then◌else◌, List, [], ◌∷◌, Text}
use mzntapp_cpp.Io.{Io, Env, Log, Returns, log_of, pure, ask, tell, ◌>>=◌, ◌>>◌}
use mzntapp_cpp.Http.{UploadTask}

pub data TaskCall : Type 0 where
  -- `curl_global_init` and `curl_global_cleanup`
  starts_library : TaskCall
  ends_library : TaskCall
  -- `curl_easy_init`: nonzero for a handle
  makes_handle : TaskCall
  -- the options PORT, UPLOAD, PUT, URL, INFILESIZE_LARGE, READFUNCTION and READDATA
  sets_port : ℕ → TaskCall
  sets_upload : TaskCall
  sets_put : TaskCall
  sets_url : Text → TaskCall
  sets_size : ℕ → TaskCall
  sets_read_function : TaskCall
  sets_read_data : TaskCall
  -- the local file: nonzero if it is open
  opens_file : Text → TaskCall
  seeks : ℕ → TaskCall
  closes_file : TaskCall
  -- `curl_easy_perform`, which calls `read_callback`; 0 is CURLE_OK
  performs : TaskCall
  frees_handle : TaskCall
  -- `delete this`
  deletes_task : TaskCall

-- HTTPClient's constructor sets `m_initialized` whatever the library answers.
unfoldable pub new_client : Io TaskCall Bool
new_client = tell starts_library >> pure true

unfoldable pub delete_client : Io TaskCall (Unit {0})
delete_client = tell ends_library

-- The transfer of an open file.
abbrev pub send_file : UploadTask → Io TaskCall (Unit {0})
send_file t = do tell (seeks t.offset); tell sets_read_data; tell performs; tell closes_file

abbrev pub set_options : UploadTask → Io TaskCall (Unit {0})
set_options t = do
  tell (sets_port t.port)
  tell sets_upload
  tell sets_put
  tell (sets_url t.full_remote_path)
  tell (sets_size t.upload_size)
  tell sets_read_function

abbrev pub with_handle : UploadTask → Io TaskCall (Unit {0})
with_handle t = do
  set_options t
  file ← ask (opens_file t.local_filename)
  if file == 0 then pure tt else send_file t
  tell frees_handle

unfoldable pub run_task : UploadTask → Io TaskCall (Unit {0})
run_task t = do
  handle ← ask makes_handle
  if handle == 0 then pure tt else with_handle t
  tell deletes_task

abbrev pub task_calls : Log TaskCall → List TaskCall
task_calls [] = []
task_calls ((c, _) ∷ l) = c ∷ task_calls l

-- The options of every upload, the newest first.
abbrev pub options_of : UploadTask → List TaskCall
options_of t =
    sets_read_function
    ∷ sets_size t.upload_size
    ∷ sets_url t.full_remote_path
    ∷ sets_put
    ∷ sets_upload
    ∷ sets_port t.port
    ∷ makes_handle
    ∷ []

-- Whatever libcurl and the file system answer, Run returns and its task is deleted. A handle that was
-- made is freed; data is sent only from an open file, from the offset on and with all options set; and
-- that file is closed, also when the transfer fails.
pub run_task_lem :
    (t : UploadTask) (env : Env TaskCall)
    → let handle = env [] makes_handle in
      let file =
        env
          (log_of (set_options t env ((makes_handle, handle) ∷ [])))
          (opens_file t.local_filename) in
      Returns (run_task t env []) λ _ l. task_calls l ≡ (
        if handle == 0
        then deletes_task ∷ makes_handle ∷ []
        else if file == 0
        then deletes_task ∷ frees_handle ∷ opens_file t.local_filename ∷ options_of t
        else deletes_task
          ∷ frees_handle
          ∷ closes_file
          ∷ performs
          ∷ sets_read_data
          ∷ seeks t.offset
          ∷ opens_file t.local_filename
          ∷ options_of t)
unfolding run_task
run_task_lem t env = ground arith
