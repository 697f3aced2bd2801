-- ===== src/Queue/Wakeups.antt =====
-- What the threads that share a queue may rely on.
use mzntapp_cpp.Base.Count.{count, le-count, add-le-count, count_pos}
use native.Mathlib.Decide.{dec_lt}
use mzntapp_cpp.Base.{ℕ, ◌+◌, ◌≤◌, ◌<◌, ◌≡◌, ◌≢◌, [], ◌++◌, arith, length}
use mzntapp_cpp.Queue.{Pc, pop_wait, push_wait, System, Reach}
use mzntapp_cpp.Queue.Inv.{
  holds, popping, pushing, push_signals, pop_signals, pop_waits, push_waits, Reach-Inv,
}

-- However the threads interleave, the values that were popped, followed by the queue, are the values
-- that were pushed, in order: none is lost, repeated or overtaken; and the queue holds at most its
-- size.
pub fifo_bounded :
    {n size : ℕ} {s : System}
    → Reach n size s
    → (s.queue.entered ≡ s.queue.left ++ s.queue.items) × (length s.queue.items ≤ size)
fifo_bounded r = let h = Reach-Inv r in (h.fifo, h.bound)

-- Two threads never hold the lock together.
mutual_exclusion :
    {n size : ℕ} {s : System} (i j : ℕ)
    → Reach n size s
    → i < n
    → j < n
    → holds (s.pc i) ≡ 1
    → holds (s.pc j) ≡ 1
    → i ≡ j
mutual_exclusion {n} {s = s} i j r li lj hi hj =
    let h = Reach-Inv r in
    elim (dec_lt i j) [
      | yes lt ↦ absurd (omega (arith, h.lock, h.one, add-le-count holds n s.pc i j lt lj))
      | no nlt ↦ elim (dec_lt j i) [
        | yes gt ↦ absurd (omega (arith, h.lock, h.one, add-le-count holds n s.pc j i gt li))
        | no ngt ↦ omega arith
      ]
    ]

either_pos :
    (v w : Pc → ℕ) (n : ℕ) (pc : ℕ → Pc)
    → 0 < count v n pc + count w n pc
    → (i : ℕ) × (i < n) × (0 < v (pc i) + w (pc i))
either_pos v w n pc h = elim (dec_lt 0 (count v n pc)) [
  | yes pos ↦ let (i, lt, q) = count_pos v n pc pos in (i, lt, omega (arith, q))
  | no others ↦ let (i, lt, q) = count_pos w n pc (omega arith) in (i, lt, omega (arith, q))
]

-- No wakeup of `pop_front` is lost, though `push` signals after it has given the lock back: while a
-- thread waits and the queue is not empty, some thread is on its way to pop, and will test the queue
-- again, or has pushed and is about to signal.
pub pop_wakeup :
    {n size : ℕ} {s : System} (j : ℕ)
    → Reach n size s
    → j < n
    → s.pc j ≡ pop_wait
    → s.queue.items ≢ []
    → (i : ℕ) × (i < n) × (0 < popping (s.pc i) + push_signals (s.pc i))
pop_wakeup {n} {s = s} j r lj e ne =
    let h = Reach-Inv r in
    let waits : 0 < count pop_waits n s.pc = grind (arith, le-count pop_waits n s.pc j lj) in
    let stock : 0 < length s.queue.items = ground arith in
    either_pos popping push_signals n s.pc (omega (arith, h.pops))

-- No wakeup of `push` is lost either: while a thread waits and the queue is not full, some thread is
-- on its way to push, and will test the queue again, or has popped and is about to signal.
pub push_wakeup :
    {n size : ℕ} {s : System} (j v : ℕ)
    → Reach n size s
    → j < n
    → s.pc j ≡ push_wait v
    → length s.queue.items < size
    → (i : ℕ) × (i < n) × (0 < pushing (s.pc i) + pop_signals (s.pc i))
push_wakeup {n} {s = s} j v r lj e room =
    let h = Reach-Inv r in
    let waits : 0 < count push_waits n s.pc = grind (arith, le-count push_waits n s.pc j lj) in
    either_pos pushing pop_signals n s.pc (omega (arith, h.pushes))
