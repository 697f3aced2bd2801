-- ===== src/Hardware/Ring.antt =====
-- The DDR ring as HWThread, WriterThread and Stop share it, one step of one of them at a time: the
-- queue of slots, the slot that the DMA engine fills and the slot that the writer reads.
pub mod Safety
pub mod Overrun
use mzntapp_cpp.Base.{
  ℕ, zero, suc, ◌+◌, ◌-◌, ◌%◌, ◌≤◌, ◌<◌, ◌≡◌, ◌≢◌, refl, List, [], ◌∷◌, ◌++◌, Option, none, some,
  arith, length, Bool, true, false,
}
use mzntapp_cpp.Hardware.Calls.{ddr_q_size}

-- `pushed` counts the slots that were queued so far; `pushed % 494` is `queueIndex`. `discarding`: Stop
-- has found 300 slots or more and is about to pop one.
pub record Ring : Type 0 where
  pub queue : List ℕ
  pub pushed : ℕ
  pub filling : Option ℕ
  pub held : Option ℕ
  pub discarding : Bool

pub data Step (r : Ring) : Ring → Type 0 where
  -- HWThread has seen a queue that is not full, and starts the transfer.
  start :
      length r.queue ≢ ddr_q_size
      → r.filling ≡ none
      → Step r (record r { filling = some (r.pushed % ddr_q_size) })
  -- The transfer ends well and the slot is queued, or it ends in an error and is dropped.
  queued :
      {k : ℕ}
      → r.filling ≡ some k
      → Step r (record r { queue = r.queue ++ k ∷ []; pushed = r.pushed + 1; filling = none })
  dropped : {k : ℕ} → r.filling ≡ some k → Step r (record r { filling = none })
  -- WriterThread pops a slot, and later has written it out.
  take :
      {k : ℕ} {rest : List ℕ}
      → r.queue ≡ k ∷ rest
      → r.held ≡ none
      → Step r (record r { queue = rest; held = some k })
  written : Step r (record r { held = none })
  -- Stop tests the size, and then throws a slot away; in between the others may have popped.
  finds_many : 300 ≤ length r.queue → Step r (record r { discarding = true })
  discard :
      {k : ℕ} {rest : List ℕ}
      → r.discarding ≡ true
      → r.queue ≡ k ∷ rest
      → Step r (record r { queue = rest; discarding = false })

abbrev pub empty : Ring
empty = record { queue = []; pushed = 0; filling = none; held = none; discarding = false }

pub data Reach : Ring → Type 0 where
  here : Reach empty
  next : {r s : Ring} → Reach r → Step r s → Reach s

-- The `n` slots from the `s`-th on, oldest first.
unfoldable pub window : ℕ → ℕ → List ℕ
window s zero = []
window s (suc n) = (s % ddr_q_size) ∷ window (s + 1) n
