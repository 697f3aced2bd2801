-- ===== src/Hardware/Tests/Stops.antt =====
-- Stop is called while one slot is queued and another is being moved.
use mzntapp_cpp.Base.{◌<◌, refl, arith, ◌∷◌, [], some, ◌⊎◌}
use mzntapp_cpp.Hardware.Shutdown.{
  transferring, checking, Threads, all_started, Step, interrupt, queues, calls, Reach, here, next,
}
use mzntapp_cpp.Hardware.Shutdown.Ends.{IsOver, IsRaced, CanStep, left_to_do, stop_ends}

abbrev stopping : Threads
stopping = record all_started {
  queue = some 0 ∷ [];
  pushed = 1;
  hw = transferring;
  stop = checking;
}

stopping-Reach : Reach stopping
stopping-Reach =
    next
      (next
        (next (next here (interrupt refl refl)) (queues 0 refl (λ e. absurd (omega (arith, e)))))
        (interrupt refl refl))
      (calls refl)

stop_ends_example :
    ((t : Threads) → Step stopping t → left_to_do t < left_to_do stopping)
    × (IsOver stopping ⊎ (IsRaced stopping ⊎ CanStep stopping))
stop_ends_example = stop_ends stopping-Reach (λ e. cc e)
