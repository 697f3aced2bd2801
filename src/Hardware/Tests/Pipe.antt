-- ===== src/Hardware/Tests/Pipe.antt =====
-- A block on its way from the ring to a file.
use native.Mathlib.Decide.{ℕ_discrete}
use mzntapp_cpp.Base.Count.{update}
use mzntapp_cpp.Base.{ℕ, ◌≡◌, refl, arith, true, [], ◌∷◌, ◌++◌, codes, length}
use mzntapp_cpp.Io.{log_of, poll}
use mzntapp_cpp.Queue.{
  Pc, Queue, System, Reach, init, here, next, moves, push_lock, push_test, push_put, push_signal,
  pop_lock, pop_test, pop_take, pop_signal, push_call, push_locks, push_room, push_puts, pop_call,
  pop_locks, pop_some, pop_takes,
}
use mzntapp_cpp.Hardware.Calls.{pushes_of}
use mzntapp_cpp.Hardware.Dma.{
  hw_thread, wait_interrupt, acknowledge, reset_dma, start_transfer, finish_transfer, program_dma,
  run_transfer, enable_dma, transfer, serve, after_interrupt, hw_round, hw_loop,
}
use mzntapp_cpp.Hardware.Writer.{Config, run, start}
use mzntapp_cpp.Hardware.Writer.Sizes.{live}
use mzntapp_cpp.Hardware.Writer.Content.{channel, pieces_of, written_after}
use mzntapp_cpp.Hardware.Pipeline.{ring_order, oldest_first, paired, pipeline}
use mzntapp_cpp.Hardware.Tests.Rings.{counting, target}

abbrev at : System → ℕ → Queue → Pc → System
at s i q p = record { queue = q; pc = update s.pc i p }

abbrev held : System → Queue
held s = record s.queue { locked = 1 }

-- Thread 0 pushes the first slot.
abbrev put : System
put =
    let s1 = at (init 494) 0 (init 494).queue (push_lock 1000) in
    let s2 = at s1 0 (held s1) (push_test 1000) in
    let s3 = at s2 0 s2.queue (push_put 1000) in
    at s3 0 (record s3.queue { items = 1000 ∷ []; locked = 0; entered = 1000 ∷ [] }) push_signal

-- Thread 1 pops it.
abbrev got : System
got =
    let s1 = at put 1 put.queue pop_lock in
    let s2 = at s1 1 (held s1) pop_test in
    let s3 = at s2 1 s2.queue pop_take in
    at s3 1 (record s3.queue { items = []; locked = 0; left = 1000 ∷ [] }) pop_signal

got-Reach : Reach 2 494 got
unfolding ℕ_discrete
got-Reach =
    let r1 = next here (moves 0 (omega arith) (push_call 1000)) in
    let r2 = next r1 (moves 0 (omega arith) (push_locks refl)) in
    let r3 = next r2 (moves 0 (omega arith) (push_room (omega arith))) in
    let r4 = next r3 (moves 0 (omega arith) push_puts) in
    let r5 = next r4 (moves 1 (omega arith) pop_call) in
    let r6 = next r5 (moves 1 (omega arith) (pop_locks refl)) in
    let r7 = next r6 (moves 1 (omega arith) (pop_some (λ e. absurd (cc e)))) in
    next r7 (moves 1 (omega arith) (pop_takes refl))

got_pushed : got.queue.entered ≡ oldest_first (pushes_of (log_of (hw_thread 2 target counting [])))
unfolding hw_thread hw_loop hw_round wait_interrupt after_interrupt acknowledge serve transfer
    reset_dma enable_dma run_transfer start_transfer program_dma finish_transfer poll
got_pushed = refl

abbrev split_config : Config
split_config = record { base_name = codes "IF"; split = true; num_out_files = 4; ddr_base = 1000 }

pipeline_example :
    let w = run split_config (live (paired (true ∷ []) got.queue.left)) (start split_config) in
    let popped = ring_order 1000 0 (length got.queue.left) in
    (got.queue.left ≡ popped)
    × (channel 4 3 (w.files ++ w.closed)
        ≡ pieces_of true 3 (written_after [] (paired (true ∷ []) popped)))
pipeline_example =
    pipeline 2 target counting split_config (true ∷ []) 3 got-Reach got_pushed (omega arith)
