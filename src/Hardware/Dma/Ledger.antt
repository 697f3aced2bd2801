-- ===== src/Hardware/Dma/Ledger.antt =====
-- What becomes of each interrupt that HWThread of src/HardwareManager.cpp acknowledges.
use Prim.Native.Nat.{bit_or}
use mzntapp_cpp.Base.{
  ℕ, zero, suc, ◌+◌, ◌%◌, ◌≤◌, ◌≡◌, sym, subst, Bool, true, false, not, if◌then◌else◌, arith, ◌==◌,
  [], ◌∷◌,
}
use mzntapp_cpp.Io.{Io, Log, Env, poll, Ensures, Ensures-bind}
use mzntapp_cpp.Hardware.Calls.{
  intc, cdma, Call, loads, stores, sleeps, stop_signal, queue_size, pushes, counts_error, opens,
  ddr_q_size, sets_priority,
}
use mzntapp_cpp.Hardware.Dma.{
  Target, HwState, Next, again, stopped, initial, wait_interrupt, acknowledge, doubled, reset_dma,
  finish_transfer, start_transfer, program_dma, run_transfer, enable_dma, transfer, serve,
  after_interrupt, hw_round, after_round, hw_loop, hw_thread,
}

-- The interrupts that were acknowledged for one buffer: 1 is the first, 2 the second, 3 is both.
abbrev pub noticed : Log Call → ℕ
noticed [] = 0
noticed ((stores intc r v, _) ∷ l) = if v == 3 then noticed l else suc (noticed l)
noticed (_ ∷ l) = noticed l

-- How often both buffers were full at once, which the code acknowledges for the two together as well.
abbrev pub doubles : Log Call → ℕ
doubles [] = 0
doubles ((stores intc r v, _) ∷ l) = if v == 3 then suc (doubles l) else doubles l
doubles (_ ∷ l) = doubles l

-- What they come to: a slot that is queued, or an error that is counted.
abbrev pub settled : Log Call → ℕ
settled [] = 0
settled ((pushes p, _) ∷ l) = suc (settled l)
settled ((counts_error, _) ∷ l) = suc (settled l)
settled ((opens f, _) ∷ l) = settled l
settled (_ ∷ l) = settled l

-- Of the interrupts, a double one counted once, all but `k` at most are settled.
abbrev pub IsWithin : ℕ → Log Call → Type 0
IsWithin k l = noticed l ≤ settled l + doubles l + k

module _ (k : ℕ) (small : k ≤ 2) where
  wait_interrupt-IsWithin :
      (fuel : ℕ) (env : Env Call) (log : Log Call)
      → IsWithin k log
      → Ensures (IsWithin 2) (λ _ l. IsWithin k l) (wait_interrupt fuel env log)
  unfolding wait_interrupt
  wait_interrupt-IsWithin zero env log h = omega (arith, h, small)
  wait_interrupt-IsWithin (suc fuel) env log h =
      let l1 : Log Call = (loads intc 0, env log (loads intc 0)) ∷ log in
      let l2 : Log Call = (sleeps 10, env l1 (sleeps 10)) ∷ l1 in
      let l3 : Log Call = (stop_signal, env l2 stop_signal) ∷ l2 in
      ground (arith, wait_interrupt-IsWithin fuel env l3 h)

  reset_dma-IsWithin :
      (fuel : ℕ) (env : Env Call) (log : Log Call)
      → IsWithin k log
      → Ensures (IsWithin 2) (λ _ l. IsWithin k l) (reset_dma fuel env log)
  unfolding reset_dma
  reset_dma-IsWithin zero env log h = omega (arith, h, small)
  reset_dma-IsWithin (suc fuel) env log h =
      let c1 = stores cdma 0 4 in
      let l1 : Log Call = (c1, env log c1) ∷ log in
      let l2 : Log Call = (loads cdma 0, env l1 (loads cdma 0)) ∷ l1 in
      ground (arith, reset_dma-IsWithin fuel env l2 h)

  poll-IsWithin :
      (fuel : ℕ) (c : Call) (ready : ℕ → Bool) (env : Env Call) (log : Log Call)
      → ((n : ℕ) (l : Log Call) → IsWithin k l → IsWithin k ((c, n) ∷ l))
      → IsWithin k log
      → Ensures (IsWithin 2) (λ _ l. IsWithin k l) (poll fuel c ready env log)
  unfolding poll
  poll-IsWithin zero c ready env log keep h = omega (arith, h, small)
  poll-IsWithin (suc fuel) c ready env log keep h =
      let h1 = keep (env log c) log h in
      ground (arith, h1, poll-IsWithin fuel c ready env ((c, env log c) ∷ log) keep h1)

-- What a round leaves: one interrupt more is open once both were up together at the start.
abbrev open_in : HwState → ℕ
open_in st = if st.first_interrupt then 0 else 1

abbrev Kept : Next → Log Call → Type 0
Kept (again s) l = IsWithin (open_in s) l
Kept (stopped s) l = IsWithin 2 l

module _ (t : Target) (st : HwState) where
  finish_transfer-Kept :
      (reg : ℕ) (env : Env Call) (log : Log Call)
      → IsWithin (suc (open_in st)) log
      → Ensures (IsWithin 2) Kept (finish_transfer t st reg env log)
  unfolding finish_transfer
  finish_transfer-Kept reg env log h = ground (arith, h)

  run_transfer-Kept :
      (fuel : ℕ) (env : Env Call) (log : Log Call)
      → IsWithin (suc (open_in st)) log
      → Ensures (IsWithin 2) Kept (run_transfer fuel t st env log)
  unfolding run_transfer start_transfer program_dma
  run_transfer-Kept fuel env log h =
      let k = suc (open_in st) in
      let small : k ≤ 2 = ground arith in
      Ensures-bind (IsWithin 2) (λ _ l. IsWithin k l) Kept (start_transfer fuel t st)
        (finish_transfer t st) env log
        (Ensures-bind (IsWithin 2) (λ _ l. IsWithin k l) (λ _ l. IsWithin k l)
          (poll fuel queue_size (λ n. not (n == ddr_q_size))) (λ _. program_dma fuel t st) env log
          (poll-IsWithin k small fuel queue_size _ env log (λ n l e. e) h)
          (λ _ l e. poll-IsWithin k small fuel (loads cdma 4) _ env _ (λ n l e. e) e))
        (λ reg l e. finish_transfer-Kept reg env l e)

  doubled-Kept :
      (env : Env Call) (log : Log Call)
      → IsWithin (2 + open_in st) log
      → Ensures (IsWithin 2) Kept (doubled st env log)
  unfolding doubled
  doubled-Kept env log h = ground (arith, h)

  enable_dma-Kept :
      (fuel : ℕ) (env : Env Call) (log : Log Call)
      → IsWithin (suc (open_in st)) log
      → Ensures (IsWithin 2) Kept (enable_dma fuel t st env log)
  unfolding enable_dma
  enable_dma-Kept fuel env log h =
      let l1 : Log Call = (loads cdma 0, env log (loads cdma 0)) ∷ log in
      let c2 = stores cdma 0 (bit_or (env log (loads cdma 0)) 0x7000) in
      let l2 : Log Call = (c2, env l1 c2) ∷ l1 in
      let l3 : Log Call = (loads cdma 4, env l2 (loads cdma 4)) ∷ l2 in
      ground (arith, h, run_transfer-Kept fuel env l3 h)

  transfer-Kept :
      (fuel : ℕ) (env : Env Call) (log : Log Call)
      → IsWithin (suc (open_in st)) log
      → Ensures (IsWithin 2) Kept (transfer fuel t st env log)
  unfolding transfer
  transfer-Kept fuel env log h =
      Ensures-bind (IsWithin 2) (λ _ l. IsWithin (suc (open_in st)) l) Kept (reset_dma fuel)
        (λ _. enable_dma fuel t st) env log
        (reset_dma-IsWithin (suc (open_in st)) (ground arith) fuel env log h)
        (λ _ l. enable_dma-Kept fuel env l)

  serve-Kept :
      (fuel reg : ℕ) (env : Env Call) (log : Log Call)
      → IsWithin ((if reg % 4 == 3 then 2 else 1) + open_in st) log
      → Ensures (IsWithin 2) Kept (serve fuel t reg st env log)
  unfolding serve
  serve-Kept fuel reg env log h = both (reg % 4 == 3) h
    where
      both :
          (b : Bool)
          → IsWithin ((if b then 2 else 1) + open_in st) log
          → Ensures (IsWithin 2) Kept ((if b then doubled st else transfer fuel t st) env log)
      both true h = doubled-Kept env log h
      both false h = transfer-Kept fuel env log (omega (arith, h))

-- Each buffer that is full is acknowledged once.
acknowledge-IsWithin :
    (k reg : ℕ) (st : HwState) (env : Env Call) (log : Log Call)
    → IsWithin k log
    → Ensures
        (IsWithin 2)
        (λ s l. (open_in s ≡ open_in st) × IsWithin ((if reg % 4 == 3 then 2 else 1) + k) l)
        (acknowledge reg st env log)
unfolding acknowledge
acknowledge-IsWithin k reg st env log h = ground (arith, h)

module _ (t : Target) where
  after_interrupt-Kept :
      (fuel reg : ℕ) (st : HwState) (env : Env Call) (log : Log Call)
      → IsWithin (open_in st) log
      → Ensures (IsWithin 2) Kept (after_interrupt fuel t st reg env log)
  unfolding after_interrupt
  after_interrupt-Kept fuel reg st env log h =
      let l1 : Log Call = (stop_signal, env log stop_signal) ∷ log in
      ground (
        arith,
        h,
        Ensures-bind (IsWithin 2)
            (λ s l.
              (open_in s ≡ open_in st) × IsWithin ((if reg % 4 == 3 then 2 else 1) + open_in st) l)
            Kept (acknowledge reg st) (serve fuel t reg) env l1
            (acknowledge-IsWithin (open_in st) reg st env l1 h) (λ s l e. acknowledged s l e.0 e.1),
      )
    where
      acknowledged :
          (s : HwState) (l : Log Call)
          → open_in s ≡ open_in st
          → IsWithin ((if reg % 4 == 3 then 2 else 1) + open_in st) l
          → Ensures (IsWithin 2) Kept (serve fuel t reg s env l)
      acknowledged s l same e =
          serve-Kept t s fuel reg env l
            (subst (λ n. IsWithin ((if reg % 4 == 3 then 2 else 1) + n) l) (sym same) e)

  hw_round-Kept :
      (fuel : ℕ) (st : HwState) (env : Env Call) (log : Log Call)
      → IsWithin (open_in st) log
      → Ensures (IsWithin 2) Kept (hw_round fuel t st env log)
  unfolding hw_round
  hw_round-Kept fuel st env log h =
      Ensures-bind (IsWithin 2) (λ _ l. IsWithin (open_in st) l) Kept (wait_interrupt fuel)
        (after_interrupt fuel t st) env log
        (wait_interrupt-IsWithin (open_in st) (ground arith) fuel env log h)
        (λ reg l. after_interrupt-Kept fuel reg st env l)

  after_round-IsWithin :
      (loop : HwState → Io Call HwState) (next : Next) (env : Env Call) (log : Log Call)
      → ((s : HwState)
          → IsWithin (open_in s) log
          → Ensures (IsWithin 2) (λ _ l. IsWithin 2 l) (loop s env log))
      → Kept next log
      → Ensures (IsWithin 2) (λ _ l. IsWithin 2 l) (after_round loop next env log)
  after_round-IsWithin loop (again s) env log goes h = goes s h
  after_round-IsWithin loop (stopped s) env log goes h = h

  hw_loop-IsWithin :
      (fuel : ℕ) (st : HwState) (env : Env Call) (log : Log Call)
      → IsWithin (open_in st) log
      → Ensures (IsWithin 2) (λ _ l. IsWithin 2 l) (hw_loop fuel t st env log)
  unfolding hw_loop
  hw_loop-IsWithin zero st env log h = ground (arith, h)
  hw_loop-IsWithin (suc fuel) st env log h =
      let l1 : Log Call = (stop_signal, env log stop_signal) ∷ log in
      ground (
        arith,
        h,
        Ensures-bind (IsWithin 2) Kept (λ _ l. IsWithin 2 l) (hw_round fuel t st)
            (after_round (hw_loop fuel t)) env l1 (hw_round-Kept fuel st env l1 h)
            (λ next l e.
              after_round-IsWithin (hw_loop fuel t) next env l (λ s. hw_loop-IsWithin fuel s env l)
                e),
      )

-- Wherever HWThread waits, and when it ends, whatever the FPGA, the DMA engine and the other threads
-- do: the buffers that it has acknowledged one by one are at most two more than the slots that it has
-- queued, the errors that it has counted, and the times at which both buffers were full at once, added
-- up. So of the interrupts, each such pair counted once, all but two at most have led to a queued slot
-- or to a counted error. (The two are the first pair, which is not counted as an error, and the buffer in
-- transfer, or the one that is lost where the thread ends because the engine is busy.)
pub hw_thread-IsWithin :
    (fuel : ℕ) (t : Target) (env : Env Call)
    → Ensures (IsWithin 2) (λ _. IsWithin 2) (hw_thread fuel t env [])
unfolding hw_thread
hw_thread-IsWithin fuel t env =
    let l1 : Log Call = (sets_priority, env [] sets_priority) ∷ [] in
    ground (arith, hw_loop-IsWithin t fuel initial env l1 (omega arith))
