-- ===== src/Hardware/Life/Serves.antt =====
-- HardwareManager.cpp: InitializeHardware succeeds where everything that it asks for is there.
use mzntapp_cpp.Base.{◌≡◌, Option, some}
use mzntapp_cpp.Io.{Io, Log}
use mzntapp_cpp.Hardware.Calls.{Call}

-- Something was found.
abbrev Found : {A : Type 0} → Option A → Log Call → Type 0
Found {A} r l = (a : A) × (r ≡ some a)
