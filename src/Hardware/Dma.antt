-- ===== src/Hardware/Dma.antt =====
-- HardwareManager.cpp: HWThread, which moves each full FPGA buffer by DMA into a slot of the DDR ring
-- and queues the slot for the writer.
pub mod Rounds
pub mod Order
pub mod Refines
pub mod Lively
pub mod Ledger
use Prim.Native.Nat.{bit_or}
use mzntapp_cpp.Base.{
  ℕ, zero, suc, ◌+◌, ◌*◌, ◌%◌, ◌^◌, ◌≡◌, refl, Bool, true, false, not, arith, ◌==◌, if◌then◌else◌,
  bit, List, [], ◌∷◌, ◌++◌,
}
use mzntapp_cpp.Io.{Io, Log, Env, done, hung, pure, hang, ask, tell, poll, ◌>>=◌, ◌>>◌}
use mzntapp_cpp.Hardware.Calls.{
  intc, cdma, Call, loads, stores, sleeps, sets_priority, stop_signal, queue_size, pushes,
  counts_error, buffer_bytesize, ddr_q_size, bram_base_address,
}

-- `m_ddrBaseOff` and `m_paddr_dmaTarget`.
pub record Target : Type 0 where
  pub ddr_base : ℕ
  pub paddr : ℕ

-- The locals that live across the rounds of the loop.
pub record HwState : Type 0 where
  pub first_interrupt : Bool
  pub buffer_num : ℕ
  pub queue_index : ℕ
  pub loop_cnt : ℕ

-- `again`: the next round, also by `continue`; `stopped`: `break`.
pub data Next : Type 0 where
  again : HwState → Next
  stopped : HwState → Next

abbrev pub isr_offset : ℕ
isr_offset = 0x0

abbrev pub iar_offset : ℕ
iar_offset = 0xC

abbrev pub cr_offset : ℕ
cr_offset = 0x0

abbrev pub sr_offset : ℕ
sr_offset = 0x4

abbrev pub srcaddr_offset : ℕ
srcaddr_offset = 0x18

abbrev pub dstaddr_offset : ℕ
dstaddr_offset = 0x20

abbrev pub btt_offset : ℕ
btt_offset = 0x28

-- The busy poll of the interrupt status, left also when the stop signal is seen.
unfoldable pub wait_interrupt : ℕ → Io Call ℕ
wait_interrupt zero = hang
wait_interrupt (suc fuel) = do
  reg ← ask (loads intc isr_offset)
  tell (sleeps 10)
  stop ← ask stop_signal
  if not (stop == 0) then pure reg else if reg % 4 == 0 then wait_interrupt fuel else pure reg

-- Chooses the buffer, the second one if both interrupts are up, and acknowledges.
unfoldable pub acknowledge : ℕ → HwState → Io Call HwState
acknowledge reg st = do
  st1 ←
      (if bit 0 reg
        then (do tell (stores intc iar_offset 1); pure (record st { buffer_num = 0 }))
        else pure st)
  if bit 1 reg
      then (do tell (stores intc iar_offset 2); pure (record st1 { buffer_num = 1 }))
      else pure st1

-- Both interrupts at once: expected the first time, counted as an error from then on.
unfoldable pub doubled : HwState → Io Call Next
doubled st = do
  tell (stores intc iar_offset 3)
  if st.first_interrupt
      then pure (again (record st { first_interrupt = false }))
      else do tell counts_error; pure (again st)

-- `do { CR = RESET; } while (CR & RESET);`
unfoldable pub reset_dma : ℕ → Io Call (Unit {0})
reset_dma zero = hang
reset_dma (suc fuel) = do
  tell (stores cdma cr_offset 4)
  reg ← ask (loads cdma cr_offset)
  if bit 2 reg then reset_dma fuel else pure tt

-- The transfer's status: an error drops the buffer, all else queues it and moves to the next slot.
unfoldable pub finish_transfer : Target → HwState → ℕ → Io Call Next
finish_transfer t st reg =
    let fail : Io Call Next = (do tell counts_error; pure (again st)) in
    let push : Io Call Next = (do
      tell (pushes (t.ddr_base + st.queue_index * buffer_bytesize))
      pure (
          again (record st {
            queue_index = (st.queue_index + 1) % ddr_q_size;
            loop_cnt = (st.loop_cnt + 1) % 2 ^ 32;
          }))) in
    if bit 12 reg then push else if bit 13 reg then fail else if bit 14 reg then fail else push

-- Programs the three DMA registers, the last of which starts the transfer, and waits for the engine
-- to go idle.
unfoldable pub program_dma : ℕ → Target → HwState → Io Call ℕ
program_dma fuel t st = do
  tell (stores cdma srcaddr_offset ((bram_base_address + st.buffer_num * buffer_bytesize) % 2 ^ 32))
  tell (stores cdma dstaddr_offset ((t.paddr + st.queue_index * buffer_bytesize) % 2 ^ 32))
  tell (stores cdma btt_offset buffer_bytesize)
  poll fuel (loads cdma sr_offset) (bit 1)

-- Waits until the queue has room before it touches the slot.
unfoldable pub start_transfer : ℕ → Target → HwState → Io Call ℕ
start_transfer fuel t st =
    poll fuel queue_size (λ n. not (n == ddr_q_size)) >>= λ size. program_dma fuel t st

unfoldable pub run_transfer : ℕ → Target → HwState → Io Call Next
run_transfer fuel t st = start_transfer fuel t st >>= finish_transfer t st

-- Enables the engine's interrupts; an engine that is not idle ends the thread.
unfoldable pub enable_dma : ℕ → Target → HwState → Io Call Next
enable_dma fuel t st = do
  cr ← ask (loads cdma cr_offset)
  tell (stores cdma cr_offset (bit_or cr 0x7000))
  sr ← ask (loads cdma sr_offset)
  if bit 1 sr then run_transfer fuel t st else pure (stopped st)

unfoldable pub transfer : ℕ → Target → HwState → Io Call Next
transfer fuel t st = reset_dma fuel >>= λ _. enable_dma fuel t st

unfoldable pub serve : ℕ → Target → ℕ → HwState → Io Call Next
serve fuel t reg st = if reg % 4 == 3 then doubled st else transfer fuel t st

-- The second test of the stop signal, after the busy poll.
unfoldable pub after_interrupt : ℕ → Target → HwState → ℕ → Io Call Next
after_interrupt fuel t st reg = do
  stop ← ask stop_signal
  if not (stop == 0) then pure (stopped st) else acknowledge reg st >>= serve fuel t reg

unfoldable pub hw_round : ℕ → Target → HwState → Io Call Next
hw_round fuel t st = wait_interrupt fuel >>= after_interrupt fuel t st

-- What follows a round, given the rest of the loop.
abbrev pub after_round : (HwState → Io Call HwState) → Next → Io Call HwState
after_round loop (again st) = loop st
after_round loop (stopped st) = pure st

unfoldable pub hw_loop : ℕ → Target → HwState → Io Call HwState
hw_loop zero t st = hang
hw_loop (suc fuel) t st = do
  stop ← ask stop_signal
  if not (stop == 0) then pure st else hw_round fuel t st >>= after_round (hw_loop fuel t)

abbrev pub initial : HwState
initial = record { first_interrupt = true; buffer_num = 0; queue_index = 0; loop_cnt = 0 }

-- The thread ends at once where it gets no real-time priority.
unfoldable pub hw_thread : ℕ → Target → Io Call HwState
hw_thread fuel t = do
  res ← ask sets_priority
  if res == 0 then hw_loop fuel t initial else pure initial
