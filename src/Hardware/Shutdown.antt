-- ===== src/Hardware/Shutdown.antt =====
-- HardwareManager.cpp, Stop beside HWThread and WriterThread, which both got their priority: one step
-- of one of them at a time. The queue's `push`, `pop_front` and `size` are one step each.
pub mod Inv
pub mod Ends
pub mod Race
use mzntapp_cpp.Base.{ℕ, ◌+◌, ◌≤◌, ◌<◌, ◌≡◌, ◌≢◌, List, [], ◌∷◌, ◌++◌, Option, none, some, length}
use mzntapp_cpp.Hardware.Calls.{ddr_q_size}

-- HWThread waits for an interrupt, where it looks at `m_stopSignal`, or moves a block, or has ended.
pub data HwPc : Type 0 where
  looking : HwPc
  transferring : HwPc
  hw_ended : HwPc

-- WriterThread is in `pop_front`, or writes a block, or has ended.
pub data WriterPc : Type 0 where
  waiting : WriterPc
  writing : WriterPc
  writer_ended : WriterPc

-- Where Stop is: `popping` after it has seen 300 or more slots.
pub data StopPc : Type 0 where
  not_called : StopPc
  checking : StopPc
  popping : StopPc
  joining_hw : StopPc
  pushing_null : StopPc
  joining_writer : StopPc
  returned : StopPc

-- `queue` holds the pointers, `none` for NULL. `pushed`, `taken` and `thrown` count the slots that
-- HWThread has queued, that WriterThread has popped, and that Stop has popped.
pub record Threads : Type 0 where
  pub queue : List (Option ℕ)
  pub hw : HwPc
  pub writer : WriterPc
  pub stop : StopPc
  pub pushed : ℕ
  pub taken : ℕ
  pub thrown : ℕ

abbrev pub all_started : Threads
all_started = record {
  queue = [];
  hw = looking;
  writer = waiting;
  stop = not_called;
  pushed = 0;
  taken = 0;
  thrown = 0;
}

pub data Step (s : Threads) : Threads → Type 0 where
  -- HWThread sees an interrupt before Stop was called, and the stop signal after.
  interrupt : s.stop ≡ not_called → s.hw ≡ looking → Step s (record s { hw = transferring })
  sees_stop : s.stop ≢ not_called → s.hw ≡ looking → Step s (record s { hw = hw_ended })
  -- With room in the queue it moves the block and queues the slot, or the transfer ends in an error;
  -- with a busy bus the thread ends. No other thread pushes in the meantime, so the room is still
  -- there when the slot is queued.
  queues :
      (k : ℕ)
      → s.hw ≡ transferring
      → length s.queue ≢ ddr_q_size
      → Step s (record s { queue = s.queue ++ some k ∷ []; hw = looking; pushed = s.pushed + 1 })
  fails : s.hw ≡ transferring → length s.queue ≢ ddr_q_size → Step s (record s { hw = looking })
  bus_busy : s.hw ≡ transferring → Step s (record s { hw = hw_ended })
  -- WriterThread pops a slot and writes it, or pops the null pointer.
  takes :
      {k : ℕ} {rest : List (Option ℕ)}
      → s.writer ≡ waiting
      → s.queue ≡ some k ∷ rest
      → Step s (record s { queue = rest; writer = writing; taken = s.taken + 1 })
  writes : s.writer ≡ writing → Step s (record s { writer = waiting })
  ends :
      {rest : List (Option ℕ)}
      → s.writer ≡ waiting
      → s.queue ≡ none ∷ rest
      → Step s (record s { queue = rest; writer = writer_ended })
  -- Stop sets the signal, and throws slots away while it sees 300 or more.
  calls : s.stop ≡ not_called → Step s (record s { stop = checking })
  many : s.stop ≡ checking → 300 ≤ length s.queue → Step s (record s { stop = popping })
  throws :
      {x : Option ℕ} {rest : List (Option ℕ)}
      → s.stop ≡ popping
      → s.queue ≡ x ∷ rest
      → Step s (record s { queue = rest; stop = checking; thrown = s.thrown + 1 })
  few : s.stop ≡ checking → length s.queue < 300 → Step s (record s { stop = joining_hw })
  -- It joins HWThread, pushes the null pointer and joins WriterThread.
  joins_hw : s.stop ≡ joining_hw → s.hw ≡ hw_ended → Step s (record s { stop = pushing_null })
  pushes_null :
      s.stop ≡ pushing_null
      → length s.queue ≢ ddr_q_size
      → Step s (record s { queue = s.queue ++ none ∷ []; stop = joining_writer })
  joins_writer :
      s.stop ≡ joining_writer → s.writer ≡ writer_ended → Step s (record s { stop = returned })

pub data Reach : Threads → Type 0 where
  here : Reach all_started
  next : {s t : Threads} → Reach s → Step s t → Reach t
