-- ===== src/Hardware/Dma/Lively.antt =====
-- HWThread beside an FPGA that answers: the thread makes a round for each buffer.
pub mod Ends
use mzntapp_cpp.Base.{
  ℕ, zero, suc, ◌+◌, ◌*◌, ◌%◌, ◌^◌, ◌≤◌, ◌<◌, ◌≡◌, ◌≢◌, ◌⊎◌, refl, true, false, not, arith, ltb,
  lt→ltb, le→ltb, ◌==◌, bit, [], ◌∷◌, List, if◌then◌else◌, ap,
}
use mathlib.Core.Path.{subst₂}
use Prim.Native.Nat.{bit_or}
use mzntapp_cpp.Io.{Io, Log, Env, poll, Returns, Returns-bind}
use mzntapp_cpp.Hardware.Calls.{
  intc, cdma, Call, loads, stores, sleeps, stop_signal, sets_priority, queue_size, pushes_of,
  buffer_bytesize, ddr_q_size, opens,
}
use mzntapp_cpp.Hardware.Dma.{
  Target, HwState, Next, again, stopped, initial, wait_interrupt, acknowledge, reset_dma,
  finish_transfer, start_transfer, program_dma, run_transfer, enable_dma, transfer, serve,
  after_interrupt, hw_round, after_round, hw_loop, hw_thread, isr_offset, cr_offset, sr_offset,
}
use mzntapp_cpp.Hardware.Dma.Order.{slots}

-- How often the interrupt status was read.
abbrev pub status_reads : Log Call → ℕ
status_reads [] = 0
status_reads ((loads intc r, _) ∷ l) = suc (status_reads l)
status_reads ((opens f, _) ∷ l) = status_reads l
status_reads (_ ∷ l) = status_reads l

-- The thread gets its priority; the first `n` reads of the status find one of the two buffers full, and
-- the later ones find none; the DMA engine is always out of its reset, idle and done; the queue has
-- room; and the stop signal is set once the status was read `last` times.
pub record IsLively (n last : ℕ) (env : Env Call) : Type 0 where
  pub priority : (log : Log Call) → env log sets_priority ≡ 0
  pub full :
      (log : Log Call)
      → status_reads log < n
      → (env log (loads intc isr_offset) % 4 ≡ 1) ⊎ (env log (loads intc isr_offset) % 4 ≡ 2)
  pub quiet : (log : Log Call) → n ≤ status_reads log → env log (loads intc isr_offset) % 4 ≡ 0
  pub reset : (log : Log Call) → bit 2 (env log (loads cdma cr_offset)) ≡ false
  pub idle : (log : Log Call) → bit 1 (env log (loads cdma sr_offset)) ≡ true
  pub complete : (log : Log Call) → bit 12 (env log (loads cdma sr_offset)) ≡ true
  pub room : (log : Log Call) → env log queue_size ≢ ddr_q_size
  pub stop : (log : Log Call) → env log stop_signal ≡ (if ltb (status_reads log) last then 0 else 1)

module _ (n last : ℕ) (later : n < last) (env : Env Call) (lively : IsLively n last env)
    (ps : List ℕ) (reads : ℕ) where
  -- The queued slots are still `ps`, and the status was read `reads` times.
  At : Log Call → Type 0
  At l = (pushes_of l ≡ ps) × (status_reads l ≡ reads)

  Quiet : {A : Type 0} → (A → Type 0) → A → Log Call → Type 0
  Quiet P a l = At l × P a

  pub goes_on :
      (log : Log Call) → reads < last → status_reads log ≡ reads → (env log stop_signal == 0) ≡ true
  goes_on log h e =
      let more : ltb (status_reads log) last ≡ true = lt→ltb _ last (omega (arith, h, e)) in
      rw (lively.stop log, more) refl

  pub stops :
      (log : Log Call)
      → last ≤ reads
      → status_reads log ≡ reads
      → (env log stop_signal == 0) ≡ false
  stops log h e =
      let none : ltb (status_reads log) last ≡ false = le→ltb _ last (omega (arith, h, e)) in
      rw (lively.stop log, none) refl

  IsOne : ℕ → Type 0
  IsOne reg = (reg % 4 ≡ 1) ⊎ (reg % 4 ≡ 2)

  wait_interrupt-Returns :
      (fuel : ℕ) (log : Log Call)
      → reads ≤ n
      → pushes_of log ≡ ps
      → suc (status_reads log) ≡ reads
      → Returns (wait_interrupt (suc fuel) env log) (Quiet IsOne)
  unfolding wait_interrupt Quiet At IsOne
  wait_interrupt-Returns fuel log h e r =
      let l1 : Log Call = (loads intc 0, env log (loads intc 0)) ∷ log in
      let l2 : Log Call = (sleeps 10, env l1 (sleeps 10)) ∷ l1 in
      ground
        (arith, goes_on l2 (omega (arith, h, later)) r, lively.full log (omega (arith, h, r)), e, r)

  -- Only the buffer is chosen anew.
  IsSame : HwState → HwState → Type 0
  IsSame st st' = (st'.queue_index ≡ st.queue_index) × (st'.loop_cnt ≡ st.loop_cnt)

  acknowledge-Returns :
      (reg : ℕ) (st : HwState) (log : Log Call)
      → At log
      → Returns (acknowledge reg st env log) (Quiet (IsSame st))
  unfolding acknowledge Quiet At IsSame
  acknowledge-Returns reg st log e = ground (arith, e)

  reset_dma-Returns :
      (fuel : ℕ) (log : Log Call)
      → At log
      → Returns (reset_dma (suc fuel) env log) (Quiet (λ _. Unit))
  unfolding reset_dma Quiet At
  reset_dma-Returns fuel log e =
      let c = stores cdma 0 4 in ground (arith, lively.reset ((c, env log c) ∷ log), e)

  poll_room-Returns :
      (fuel : ℕ) (log : Log Call)
      → At log
      → Returns
          (poll (suc fuel) queue_size (λ m. not (m == ddr_q_size)) env log)
          (Quiet (λ _. Unit))
  unfolding poll Quiet At
  poll_room-Returns fuel log e = ground (arith, lively.room log, e)

  program_dma-Returns :
      (fuel : ℕ) (t : Target) (st : HwState) (log : Log Call)
      → At log
      → Returns (program_dma (suc fuel) t st env log) (Quiet (λ reg. bit 12 reg ≡ true))
  unfolding program_dma poll Quiet At
  program_dma-Returns fuel t st log e = rw (lively.idle _) (e, lively.complete _)

  module _ (t : Target) (fuel : ℕ) where
    -- The round has queued its slot and moved on to the next.
    pub Advances : ℕ → ℕ → Next → Log Call → Type 0
    Advances index cnt (stopped s) l = ⊥
    Advances index cnt (again s) l =
        (pushes_of l ≡ (t.ddr_base + index * buffer_bytesize) ∷ ps)
        × (status_reads l ≡ reads)
        × (s.queue_index ≡ (index + 1) % ddr_q_size)
        × (s.loop_cnt ≡ (cnt + 1) % 2 ^ 32)

    run_transfer-Returns :
        (st : HwState) (log : Log Call)
        → At log
        → Returns (run_transfer (suc fuel) t st env log) (Advances st.queue_index st.loop_cnt)
    unfolding run_transfer start_transfer finish_transfer Quiet At Advances
    run_transfer-Returns st log e =
        Returns-bind (Quiet (λ reg. bit 12 reg ≡ true)) (Advances st.queue_index st.loop_cnt)
          (start_transfer (suc fuel) t st) (finish_transfer t st) env log
          (Returns-bind (Quiet (λ _. Unit)) (Quiet (λ reg. bit 12 reg ≡ true))
            (poll (suc fuel) queue_size (λ m. not (m == ddr_q_size)))
            (λ _. program_dma (suc fuel) t st) env log (poll_room-Returns fuel log e)
            (λ _ l (same, _). program_dma-Returns fuel t st l same))
          (λ reg l (same, h). rw h (
            ap (λ qs. (t.ddr_base + st.queue_index * buffer_bytesize) ∷ qs) same.0,
            same.1,
            refl,
            refl,
          ))

    enable_dma-Returns :
        (st : HwState) (log : Log Call)
        → At log
        → Returns (enable_dma (suc fuel) t st env log) (Advances st.queue_index st.loop_cnt)
    unfolding enable_dma At
    enable_dma-Returns st log e =
        let l1 : Log Call = (loads cdma 0, env log (loads cdma 0)) ∷ log in
        let c2 = stores cdma 0 (bit_or (env log (loads cdma 0)) 0x7000) in
        let l2 : Log Call = (c2, env l1 c2) ∷ l1 in
        let l3 : Log Call = (loads cdma 4, env l2 (loads cdma 4)) ∷ l2 in
        rw (lively.idle l2) (run_transfer-Returns st l3 e)

    -- A round with one full buffer.
    serve-Returns :
        (reg : ℕ) (st : HwState) (log : Log Call)
        → (reg % 4 == 3) ≡ false
        → At log
        → Returns (serve (suc fuel) t reg st env log) (Advances st.queue_index st.loop_cnt)
    unfolding serve transfer Quiet
    serve-Returns reg st log one e = rw one (
        Returns-bind (Quiet (λ _. Unit)) (Advances st.queue_index st.loop_cnt)
          (reset_dma (suc fuel)) (λ _. enable_dma (suc fuel) t st) env log
          (reset_dma-Returns fuel log e) (λ _ l (same, _). enable_dma-Returns st l same))

    pub hw_round-Returns :
        (st : HwState) (log : Log Call)
        → reads ≤ n
        → pushes_of log ≡ ps
        → suc (status_reads log) ≡ reads
        → Returns (hw_round (suc fuel) t st env log) (Advances st.queue_index st.loop_cnt)
    unfolding hw_round after_interrupt Quiet At IsSame IsOne Advances
    hw_round-Returns st log few e r =
        Returns-bind (Quiet IsOne) (Advances st.queue_index st.loop_cnt) (wait_interrupt (suc fuel))
          (after_interrupt (suc fuel) t st) env log (wait_interrupt-Returns fuel log few e r)
          (λ reg l (same, one). rw (goes_on l (omega (arith, few, later)) same.1) (
            Returns-bind (Quiet (IsSame st)) (Advances st.queue_index st.loop_cnt)
              (acknowledge reg st) (serve (suc fuel) t reg) env _
              (acknowledge-Returns reg st _ same)
              (λ st' l' (same', kept).
                subst₂
                  (λ index cnt. Returns (serve (suc fuel) t reg st' env l') (Advances index cnt))
                  kept.0 kept.1 (serve-Returns reg st' l' (ground (arith, one)) same'))))
