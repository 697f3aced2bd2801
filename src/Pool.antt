-- ===== src/Pool.antt =====
-- src/ThreadPool.h: the workers of a pool, the thread that adds tasks, and the destructor, one step at
-- a time. The queue's `push` and `pop_front` are one step each.
pub mod Inv
pub mod Ends
pub mod Thread
mod Tests
use mzntapp_cpp.Base.Count.{update}
use mzntapp_cpp.Base.{
  ℕ, zero, suc, ◌+◌, ◌*◌, ◌≤◌, ◌<◌, ◌≡◌, ◌≢◌, List, [], ◌∷◌, ◌++◌, Option, none, some, length,
}

-- A worker waits in `pop_front`, runs a task (with `m_busy` set), or has left its loop.
pub data Worker : Type 0 where
  waiting : Worker
  working : ℕ → Worker
  ended : Worker

-- `queue` holds the pointers, `none` for NULL. `added` and `ran` are the tasks that were added and
-- those whose Run has returned, oldest first. `closing` counts the null pointers that the destructor
-- has pushed.
pub record Pool : Type 0 where
  pub queue : List (Option ℕ)
  pub workers : ℕ → Worker
  pub added : List ℕ
  pub ran : List ℕ
  pub closing : ℕ

-- The constructor.
abbrev pub new_pool : Pool
new_pool = record { queue = []; workers = λ _. waiting; added = []; ran = []; closing = 0 }

-- A pool of `n` workers, whose queue has room for `2 * n` pointers.
pub data Step (n : ℕ) (s : Pool) : Pool → Type 0 where
  -- AddTask, which nobody calls once the destructor runs
  adds :
      (t : ℕ)
      → s.closing ≡ 0
      → length s.queue ≢ n * 2
      → Step n s (record s { queue = s.queue ++ some t ∷ []; added = s.added ++ t ∷ [] })
  -- PoolThread::Run: a task is popped and run; a null pointer ends the loop.
  takes :
      (i : ℕ) {t : ℕ} {rest : List (Option ℕ)}
      → i < n
      → s.workers i ≡ waiting
      → s.queue ≡ some t ∷ rest
      → Step n s (record s { queue = rest; workers = update s.workers i (working t) })
  runs :
      (i : ℕ) {t : ℕ}
      → i < n
      → s.workers i ≡ working t
      → Step n s (record s { workers = update s.workers i waiting; ran = s.ran ++ t ∷ [] })
  ends :
      (i : ℕ) {rest : List (Option ℕ)}
      → i < n
      → s.workers i ≡ waiting
      → s.queue ≡ none ∷ rest
      → Step n s (record s { queue = rest; workers = update s.workers i ended })
  -- ~ThreadPool pushes a null pointer for each worker.
  closes :
      s.closing < n
      → length s.queue ≢ n * 2
      → Step n s (record s { queue = s.queue ++ none ∷ []; closing = s.closing + 1 })

pub data Reach (n : ℕ) : Pool → Type 0 where
  here : Reach n new_pool
  next : {s t : Pool} → Reach n s → Step n s t → Reach n t
