-- ===== src/Hardware/Shutdown/Ends.antt =====
-- Stop comes to an end, and with it both threads.
use mzntapp_cpp.Base.{
  ℕ, ◌+◌, ◌*◌, ◌<◌, ◌≡◌, ◌≢◌, refl, arith, List, [], ◌∷◌, Option, none, some, length, length-append,
  ap, ◌⊎◌, inl, inr,
}
use mzntapp_cpp.Hardware.Shutdown.{
  HwPc, looking, transferring, hw_ended, WriterPc, waiting, writing, writer_ended, StopPc,
  not_called, checking, popping, joining_hw, pushing_null, joining_writer, returned, Threads, Step,
  interrupt, sees_stop, queues, fails, bus_busy, takes, writes, ends, calls, many, throws, few,
  joins_hw, pushes_null, joins_writer, Reach,
}
use mzntapp_cpp.Hardware.Shutdown.Inv.{
  Phase, before, plain, sent, closed, over, drained, Reach-Phase,
}

-- Stop has returned, and the threads have ended; nothing is queued, and each slot was written by
-- WriterThread or thrown away by Stop.
pub record IsOver (s : Threads) : Type 0 where
  pub stop_returned : s.stop ≡ returned
  pub hw_is_over : s.hw ≡ hw_ended
  pub writer_is_over : s.writer ≡ writer_ended
  pub nothing_left : s.queue ≡ []
  pub all_accounted : s.taken + s.thrown ≡ s.pushed

-- Stop saw 300 slots or more, WriterThread has popped them all, and no thread will queue another.
pub record IsRaced (s : Threads) : Type 0 where
  pub stop_pops : s.stop ≡ popping
  pub hw_gone : s.hw ≡ hw_ended
  pub writer_waits : s.writer ≡ waiting
  pub queue_empty : s.queue ≡ []

abbrev hw_work : HwPc → ℕ
hw_work looking = 1
hw_work transferring = 4
hw_work hw_ended = 0

abbrev writer_work : WriterPc → ℕ
writer_work waiting = 1
writer_work writing = 2
writer_work writer_ended = 0

abbrev stop_work : StopPc → ℕ
stop_work not_called = 8
stop_work checking = 7
stop_work popping = 6
stop_work joining_hw = 5
stop_work pushing_null = 4
stop_work joining_writer = 1
stop_work returned = 0

-- What is left to do once Stop is called.
abbrev pub left_to_do : Threads → ℕ
left_to_do s = 2 * length s.queue + hw_work s.hw + writer_work s.writer + stop_work s.stop

step_down : {s t : Threads} → s.stop ≢ not_called → Step s t → left_to_do t < left_to_do s
step_down called (interrupt a b) = absurd (called a)
step_down called (sees_stop a b) = omega (arith, ap hw_work b)
step_down {s} called (queues k a b) =
    omega (arith, ap hw_work a, length-append s.queue (some k ∷ []))
step_down called (fails a b) = omega (arith, ap hw_work a)
step_down called (bus_busy a) = omega (arith, ap hw_work a)
step_down called (takes a b) = omega (arith, ap writer_work a, ap length b)
step_down called (writes a) = omega (arith, ap writer_work a)
step_down called (ends a b) = omega (arith, ap writer_work a, ap length b)
step_down called (calls a) = absurd (called a)
step_down called (many a b) = omega (arith, ap stop_work a)
step_down called (throws a b) = omega (arith, ap stop_work a, ap length b)
step_down called (few a b) = omega (arith, ap stop_work a)
step_down called (joins_hw a b) = omega (arith, ap stop_work a)
step_down {s} called (pushes_null a b) =
    omega (arith, ap stop_work a, length-append s.queue (none ∷ []))
step_down called (joins_writer a b) = omega (arith, ap stop_work a)

-- Some thread can go on.
abbrev pub CanStep : Threads → Type 0
CanStep s = (t : Threads) × Step s t

-- A writer at the queue takes what stands first.
pops_head :
    {s : Threads} → s.writer ≡ waiting → (q : List (Option ℕ)) → s.queue ≡ q → q ≢ [] → CanStep s
pops_head idle [] e h = absurd (h refl)
pops_head idle (none ∷ q) e h = (_, ends idle e)
pops_head idle (some k ∷ q) e h = (_, takes idle e)

-- With HWThread at an end, nothing queued and the writer waiting, Stop goes on, or waits for ever.
stop_alone :
    {s : Threads} (p : StopPc)
    → s.stop ≡ p
    → p ≢ not_called
    → p ≢ joining_writer
    → p ≢ returned
    → s.hw ≡ hw_ended
    → s.writer ≡ waiting
    → s.queue ≡ []
    → IsRaced s ⊎ CanStep s
stop_alone not_called e c j r h w q = absurd (c refl)
stop_alone checking e c j r h w q = inr (_, few e (omega (arith, ap length q)))
stop_alone popping e c j r h w q =
    inl (record { stop_pops = e; hw_gone = h; writer_waits = w; queue_empty = q })
stop_alone joining_hw e c j r h w q = inr (_, joins_hw e h)
stop_alone pushing_null e c j r h w q =
    inr (_, pushes_null e (λ full. omega (arith, ap length q, full)))
stop_alone joining_writer e c j r h w q = absurd (j refl)
stop_alone returned e c j r h w q = absurd (r refl)

-- With nothing queued and the writer waiting.
at_empty :
    {s : Threads} (hw : HwPc)
    → s.hw ≡ hw
    → s.stop ≢ not_called
    → s.stop ≢ joining_writer
    → s.stop ≢ returned
    → s.writer ≡ waiting
    → s.queue ≡ []
    → IsRaced s ⊎ CanStep s
at_empty looking e c j r w q = inr (_, sees_stop c e)
at_empty transferring e c j r w q = inr (_, queues 0 e (λ full. omega (arith, ap length q, full)))
at_empty {s} hw_ended e c j r w q = stop_alone s.stop refl c j r e w q

goes_on :
    {s : Threads}
    → s.stop ≢ not_called
    → Phase s
    → (w : WriterPc) → s.writer ≡ w
    → IsOver s ⊎ (IsRaced s ⊎ CanStep s)
goes_on c phase writing e = inr (inr (_, writes e))
goes_on c (before (plain ks q w j r h n)) writer_ended e = absurd (w e)
goes_on c (sent (closed ks q w j h n)) writer_ended e = absurd (w e)
goes_on c (over (drained q w (inl j) h n)) writer_ended e = inr (inr (_, joins_writer j w))
goes_on c (over (drained q w (inr j) h n)) writer_ended e = inl (record {
  stop_returned = j;
  hw_is_over = h;
  writer_is_over = w;
  nothing_left = q;
  all_accounted = n;
})
goes_on {s} c (before (plain [] q w j r h n)) waiting e = inr (at_empty s.hw refl c j r e q)
goes_on c (before (plain (k ∷ ks) q w j r h n)) waiting e = inr (inr (_, takes e q))
goes_on c (sent (closed [] q w j h n)) waiting e = inr (inr (_, ends e q))
goes_on c (sent (closed (k ∷ ks) q w j h n)) waiting e = inr (inr (_, takes e q))
goes_on c (over (drained q w j h n)) waiting e = absurd (cc (w, e))

-- Once Stop has been called, no step of Stop, HWThread or WriterThread leaves as much to do as before
-- it. Some thread can step until Stop has returned with both threads at an end, nothing queued and each
-- slot written or thrown away; the one other state in which none can is that Stop pops from an empty
-- queue after HWThread has ended.
pub stop_ends :
    {s : Threads}
    → Reach s
    → s.stop ≢ not_called
    → ((t : Threads) → Step s t → left_to_do t < left_to_do s)
      × (IsOver s ⊎ (IsRaced s ⊎ CanStep s))
stop_ends {s} r called =
    (λ t step. step_down called step, goes_on called (Reach-Phase r) s.writer refl)
