-- ===== src/Hardware/Tests/Rings.antt =====
-- HWThread and its ring, run.
use mzntapp_cpp.Base.{
  ℕ, ◌≡◌, ◌≢◌, refl, ◌==◌, if◌then◌else◌, [], ◌∷◌, none, some, length, All, arith, ◌<◌, inl, ltb,
  lt→ltb, le→ltb, false,
}
use mzntapp_cpp.Io.{Env, Returns, Ensures, log_of, poll}
use mzntapp_cpp.Hardware.Calls.{
  Call, loads, intc, cdma, pushes_of, ddr_q_size, opens, queue_size, stop_signal,
}
use mzntapp_cpp.Hardware.Dma.Ledger.{IsWithin, hw_thread-IsWithin}
use mzntapp_cpp.Hardware.Dma.{
  Target, hw_thread, sr_offset, wait_interrupt, acknowledge, reset_dma, start_transfer,
  finish_transfer, program_dma, run_transfer, enable_dma, transfer, serve, after_interrupt,
  hw_round, hw_loop,
}
use mzntapp_cpp.Hardware.Dma.Order.{slots, Checked, hw_thread-Checked}
use mzntapp_cpp.Hardware.Dma.Lively.{status_reads, IsLively}
use mzntapp_cpp.Hardware.Dma.Lively.Ends.{hw_thread-Returns}
use mzntapp_cpp.Hardware.Dma.Refines.{
  Follows, begins, reads, transfers, queues, plain, hw_thread_refines,
}
use mzntapp_cpp.Hardware.Ring.{Ring, Step, Reach, start, here, next, empty}
use mzntapp_cpp.Hardware.Ring.Safety.{filling-safe, length-window}
use mzntapp_cpp.Hardware.Ring.Overrun.{filled, filled-Reach, overrun}

-- The first interrupt is always up, and every transfer completes.
abbrev lively : Env Call
lively log (opens f) = 0
lively log (loads intc r) = 1
lively log (loads cdma r) = if r == sr_offset then 0x1002 else 0
lively log _ = 0

abbrev pub target : Target
target = record { ddr_base = 1000; paddr = 0x08000000 }

hw_thread_example :
    (n : ℕ) × (pushes_of (log_of (hw_thread 3 target lively [])) ≡ slots 1000 n)
    × Checked target (log_of (hw_thread 3 target lively []))
hw_thread_example = hw_thread-Checked 3 target lively

-- The run queues the first slot and moves on to the next.
hw_thread_run : pushes_of (log_of (hw_thread 3 target lively [])) ≡ 263144 ∷ 1000 ∷ []
unfolding hw_thread hw_loop hw_round wait_interrupt after_interrupt acknowledge serve transfer
    reset_dma enable_dma run_transfer start_transfer program_dma finish_transfer poll
hw_thread_run = refl

abbrev first_filling : Ring
first_filling = record empty { filling = some 0 }

filling-safe_example :
    All (λ q. q ≢ 0) first_filling.queue × (length first_filling.queue < ddr_q_size)
filling-safe_example = filling-safe 0 (next here (start (omega arith) refl)) refl

-- The queue holds the first 494 slots.
overrun_example :
    (s t : Ring) × Step (filled 494) s
    × Step s t
    × (k : ℕ) × (t.filling ≡ some k)
    × (t.held ≡ some k)
overrun_example = overrun (filled-Reach 494 (omega arith)) (length-window 0 494) refl refl

-- Nobody pops, and the size of the queue is the number of pushes.
abbrev pub counting : Env Call
counting log (opens f) = 0
counting log queue_size = length (pushes_of log)
counting log (loads intc r) = 1
counting log (loads cdma r) = if r == sr_offset then 0x1002 else 0
counting log _ = 0

abbrev one_slot : Ring
one_slot = record { queue = 0 ∷ []; pushed = 1; filling = none; held = none; discarding = false }

one_slot-Follows : Follows (log_of (hw_thread 2 target counting [])) one_slot
unfolding hw_thread hw_loop hw_round wait_interrupt after_interrupt acknowledge serve transfer
    reset_dma enable_dma run_transfer start_transfer program_dma finish_transfer poll
one_slot-Follows = plain _ _ refl (
    queues 1000 0 (
      plain _ _ refl (
        transfers 262144 0 (
          plain _ _ refl (
            plain _ _ refl (
              reads (
                plain _ _ refl (
                  plain _ _ refl (
                    plain _ _ refl (
                      plain _ _ refl (
                        plain _ _ refl (
                          plain _ _ refl (
                            plain _ _ refl (
                              plain _ _ refl (
                                plain _ _ refl (
                                  plain _ _ refl
                                    (plain _ _ refl (plain _ _ refl (begins)))))))))))))))))))

hw_thread_refines_example :
    Reach one_slot × (pushes_of (log_of (hw_thread 2 target counting [])) ≡ slots 1000 1)
hw_thread_refines_example = hw_thread_refines 2 target counting one_slot one_slot-Follows

-- The writer keeps the queue short; two interrupts come, and the stop signal is set at the fourth read.
abbrev two_slots : Env Call
two_slots log (opens f) = 0
two_slots log queue_size = 1
two_slots log (loads intc r) = if ltb (status_reads log) 2 then 1 else 0
two_slots log (loads cdma r) = if r == sr_offset then 0x1002 else 0
two_slots log stop_signal = if ltb (status_reads log) 4 then 0 else 1
two_slots log _ = 0

two_slots-IsLively : IsLively 2 4 two_slots
two_slots-IsLively = record {
  priority = λ log. refl;
  full = λ log few. inl (rw (lt→ltb _ 2 few) refl);
  quiet = λ log many. rw (le→ltb _ 2 many) refl;
  reset = λ log. refl;
  idle = λ log. refl;
  complete = λ log. refl;
  room = λ log e. absurd (omega (arith, e));
  stop = λ log. refl;
}

hw_thread-Returns_example :
    Returns
      (hw_thread 6 target two_slots [])
      λ st l. (pushes_of l ≡ slots 1000 2) × (st.queue_index ≡ 2) × (st.loop_cnt ≡ 2)
hw_thread-Returns_example =
    hw_thread-Returns 6 2 4 target two_slots (omega arith) two_slots-IsLively (omega arith)

hw_thread-IsWithin_example : Ensures (IsWithin 2) (λ _. IsWithin 2) (hw_thread 3 target lively [])
hw_thread-IsWithin_example = hw_thread-IsWithin 3 target lively
