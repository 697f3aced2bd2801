-- ===== src/Http.antt =====
-- src/HTTPClient.cpp, src/HTTPClient.h and src/ThreadPool.h: uploads of a part of a file by a pool of
-- threads. libcurl calls `read_callback` for more bytes until it returns 0; the file is taken as it
-- is when the upload begins. A callback waits while more than half of the ring is queued.
mod Tests
pub mod Sends
pub mod Ends
pub mod Waits
pub mod Task
use mzntapp_cpp.Base.{
  ℕ, zero, suc, ◌+◌, ◌-◌, ◌*◌, ◌/◌, ◌%◌, ◌^◌, ◌≤◌, ◌<◌, ◌≡◌, refl, Bool, true, false, not, ◌&&◌,
  arith, ltb, ◌==◌, if◌then◌else◌, List, [], ◌∷◌, ◌++◌, Option, none, some, Text, length, take,
  drop, replicate,
}
use mzntapp_cpp.Io.{Io, Log, Env, Outcome, done, hung, poll, pure, ask, tell, hang, ◌>>=◌, ◌>>◌}
use mzntapp_cpp.Hardware.Calls.{ddr_q_size}

-- `upload_params`, with the bytes of the file after the read position and whether the stream is
-- still good: a read that meets the end of the file is the last one to return bytes.
pub record Params : Type 0 where
  pub upload_size : ℕ
  pub total : ℕ
  pub rest : List ℕ
  pub good : Bool

pub record UploadTask : Type 0 where
  pub local_filename : Text
  pub offset : ℕ
  pub upload_size : ℕ
  pub full_remote_path : Text
  pub port : ℕ

-- `UploadTask::Run` after the file is open: `seekg` to the offset.
unfoldable pub opened : UploadTask → List ℕ → Params
opened t file = record {
  upload_size = t.upload_size;
  total = 0;
  rest = drop t.offset file;
  good = true;
}

-- How much a call asks the file for.
unfoldable pub read_size : ℕ → ℕ → Params → ℕ
read_size size nitems p =
    let wanted = size * nitems % 2 ^ 32 in
    if ltb p.upload_size ((wanted + p.total) % 2 ^ 32)
    then (p.upload_size + 2 ^ 32 - p.total) % 2 ^ 32
    else wanted

-- `infile.read(buffer, n)` gives the bytes and the stream after them.
unfoldable pub read_file : ℕ → Params → List ℕ × Params
read_file n p =
    if p.good
    then (
      take n p.rest,
      record p {
        rest = drop n p.rest;
        total = (p.total + length (take n p.rest)) % 2 ^ 32;
        good = not (ltb (length p.rest) n);
      },
    )
    else ([], p)

-- The answer of the pool's queue of pointers, which another thread changes.
pub data Call : Type 0 where
  queue_size : Call

-- The bytes that the callback leaves in the buffer; it returns their number.
pub read_callback : ℕ → Bool → ℕ → ℕ → Params → Io Call (List ℕ × Params)
unfolding read_size read_file
read_callback fuel has_handle size nitems p =
    (if has_handle then poll fuel queue_size (λ n. not (ltb (ddr_q_size / 2) n)) else pure 0)
    >>= λ _. pure (read_file (read_size size nitems p) p)

-- ThreadPool.h: the busy flags of the workers, and the queue of tasks with its limit.
pub record ThreadPool : Type 0 where
  pub busy : List Bool
  pub tasks : List UploadTask
  pub max_tasks : ℕ

-- The pool of `size` workers holds `2 * size` tasks.
pub new_pool : ℕ → ThreadPool
new_pool size = record { busy = replicate size false; tasks = []; max_tasks = size * 2 }

-- The loop returns false at the first idle worker, and so does the statement after it.
unfoldable pub all_threads_occupied : List Bool → Bool
all_threads_occupied [] = false
all_threads_occupied (b ∷ bs) = let rest = all_threads_occupied bs in if not b then false else rest

-- `none`: the caller waits in `push` because the queue is full.
unfoldable pub add_task : UploadTask → ThreadPool → Option ThreadPool
add_task t p =
    if length p.tasks == p.max_tasks then none else some (record p { tasks = p.tasks ++ t ∷ [] })

pub data Uploaded : Type 0 where
  accepted : ThreadPool → Uploaded
  blocked : Uploaded
  refused : Uploaded

-- HTTPClient::upload; true for an accepted task, false for a refused one.
unfoldable pub upload : UploadTask → ThreadPool → Uploaded
unfolding all_threads_occupied add_task
upload t p =
    if not (all_threads_occupied p.busy)
    then elim (add_task t p) [ none ↦ blocked | some p' ↦ accepted p' ]
    else refused

-- What the pool is meant to know: that every worker is at work.
abbrev pub all_busy : List Bool → Bool
all_busy [] = true
all_busy (b ∷ bs) = b && all_busy bs

all_threads_occupied-false : (bs : List Bool) → all_threads_occupied bs ≡ false
unfolding all_threads_occupied
all_threads_occupied-false [] = refl
all_threads_occupied-false (b ∷ bs) = ground (arith, all_threads_occupied-false bs)

-- `upload` never refuses, also when every worker is at work: it queues the task at the end while
-- the queue has room, and else blocks its caller.
upload_lem :
    (t : UploadTask) (p : ThreadPool)
    → upload t p ≡ (
        if length p.tasks == p.max_tasks
        then blocked
        else accepted (record p { tasks = p.tasks ++ t ∷ [] }))
unfolding upload
upload_lem t p = ground (arith, all_threads_occupied-false p.busy)

-- PoolThread::Run over the pointers that it pops: each task is run, and the null pointer ends it.
pub worker_run : List (Option UploadTask) → List UploadTask
worker_run [] = []
worker_run (none ∷ rest) = []
worker_run (some t ∷ rest) = t ∷ worker_run rest
