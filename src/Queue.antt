-- ===== src/Queue.antt =====
-- src/ThreadSafeQueue.cpp and .h: the bounded queue between threads, one access to the shared state
-- at a time. Each thread stands at a point of `push`, of `pop_front` or of `size`; a wait gives the lock up, and
-- a signal lets one waiting thread of its condition come back to the lock.
mod Tests
pub mod Inv
pub mod Wakeups
pub mod Atomic
use mzntapp_cpp.Base.Count.{update}
use mzntapp_cpp.Base.{
  ℕ, zero, suc, ◌+◌, ◌-◌, ◌≤◌, ◌<◌, ◌≡◌, ◌≢◌, refl, List, [], ◌∷◌, ◌++◌, Option, none, some, arith,
  length,
}

-- Where a thread stands. `outside` is a thread in no operation.
pub data Pc : Type 0 where
  outside : Pc
  -- push, with its value: before the lock, holding it before the test, waiting, holding it with
  -- room, and after the unlock before the signal
  push_lock : ℕ → Pc
  push_test : ℕ → Pc
  push_wait : ℕ → Pc
  push_put : ℕ → Pc
  push_signal : Pc
  -- pop_front, likewise
  pop_lock : Pc
  pop_test : Pc
  pop_wait : Pc
  pop_take : Pc
  pop_signal : Pc
  -- size: before the lock, holding it before the reading, and with the number it returns
  size_lock : Pc
  size_read : Pc
  sized : ℕ → Pc

-- `items` is the queue, oldest first. `locked` tells whether a thread holds the lock. `entered` and
-- `left` are the values that were pushed and popped so far, oldest first.
pub record Queue : Type 0 where
  pub items : List ℕ
  pub max_size : ℕ
  pub locked : ℕ
  pub entered : List ℕ
  pub left : List ℕ

-- What one thread does between two accesses to the shared state. The lock is 0 or 1.
pub data Move (q : Queue) : Pc → Queue → Pc → Type 0 where
  push_call : (v : ℕ) → Move q outside q (push_lock v)
  push_locks : {v : ℕ} → q.locked ≡ 0 → Move q (push_lock v) (record q { locked = 1 }) (push_test v)
  -- `while (size == m_maxSize) wait`
  push_full :
      {v : ℕ}
      → length q.items ≡ q.max_size
      → Move q (push_test v) (record q { locked = 0 }) (push_wait v)
  push_room : {v : ℕ} → length q.items ≢ q.max_size → Move q (push_test v) q (push_put v)
  push_puts :
      {v : ℕ}
      → Move q
          (push_put v)
          (record q { items = q.items ++ v ∷ []; locked = 0; entered = q.entered ++ v ∷ [] })
          push_signal
  pop_call : Move q outside q pop_lock
  pop_locks : q.locked ≡ 0 → Move q pop_lock (record q { locked = 1 }) pop_test
  -- `while (empty) wait`
  pop_empty : q.items ≡ [] → Move q pop_test (record q { locked = 0 }) pop_wait
  pop_some : q.items ≢ [] → Move q pop_test q pop_take
  pop_takes :
      {v : ℕ} {rest : List ℕ}
      → q.items ≡ v ∷ rest
      → Move q pop_take (record q { items = rest; locked = 0; left = q.left ++ v ∷ [] }) pop_signal
  size_call : Move q outside q size_lock
  size_locks : q.locked ≡ 0 → Move q size_lock (record q { locked = 1 }) size_read
  size_reads : Move q size_read (record q { locked = 0 }) (sized (length q.items))
  size_returns : {k : ℕ} → Move q (sized k) q outside

-- `n` threads; an index from `n` on names none.
pub record System : Type 0 where
  pub queue : Queue
  pub pc : ℕ → Pc

pub data Step (n : ℕ) (s : System) : System → Type 0 where
  moves :
      (i : ℕ) {q : Queue} {p : Pc}
      → i < n
      → Move s.queue (s.pc i) q p
      → Step n s (record { queue = q; pc = update s.pc i p })
  -- `pthread_cond_signal`: one thread that waits on the condition comes back to the lock, if any.
  wakes_pop :
      (i j : ℕ)
      → i < n
      → j < n
      → s.pc i ≡ push_signal
      → s.pc j ≡ pop_wait
      → Step n s (record s { pc = update (update s.pc i outside) j pop_lock })
  no_pop_waits :
      (i : ℕ)
      → i < n
      → s.pc i ≡ push_signal
      → ((j : ℕ) → j < n → s.pc j ≢ pop_wait)
      → Step n s (record s { pc = update s.pc i outside })
  wakes_push :
      (i j : ℕ) {v : ℕ}
      → i < n
      → j < n
      → s.pc i ≡ pop_signal
      → s.pc j ≡ push_wait v
      → Step n s (record s { pc = update (update s.pc i outside) j (push_lock v) })
  no_push_waits :
      (i : ℕ)
      → i < n
      → s.pc i ≡ pop_signal
      → ((j v : ℕ) → j < n → s.pc j ≢ push_wait v)
      → Step n s (record s { pc = update s.pc i outside })
  -- A wait may end with no signal.
  spurious_pop :
      (j : ℕ) → j < n → s.pc j ≡ pop_wait → Step n s (record s { pc = update s.pc j pop_lock })
  spurious_push :
      (j : ℕ) {v : ℕ}
      → j < n
      → s.pc j ≡ push_wait v
      → Step n s (record s { pc = update s.pc j (push_lock v) })

-- The constructor, and threads that have not called anything yet.
abbrev pub init : ℕ → System
init size = record {
  queue = record { items = []; max_size = size; locked = 0; entered = []; left = [] };
  pc = λ _. outside;
}

pub data Reach (n size : ℕ) : System → Type 0 where
  here : Reach n size (init size)
  next : {s t : System} → Reach n size s → Step n s t → Reach n size t
