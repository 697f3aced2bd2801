-- ===== src/Main/Loop.antt =====
-- The main loop and the end of the program.
use mzntapp_cpp.Base.{ℕ, ◌≤◌, ◌≡◌, ◌≢◌, Bool, false, List, none, length, All}
use mzntapp_cpp.Main.{endless, Round, Ending, still_running, Result}

module _ {T : Type 0} (after : T → T → Bool) (runtime : T) where
  -- The loop has ended, within the first `i` calls of Update, all in time.
  record Ended (i : ℕ) (x : List T × Ending) : Type 0 where
    pub ending : x.1 ≢ still_running
    pub few : length x.0 ≤ i
    pub early : All (λ e. after e runtime ≡ false) x.0

  -- There is an exit code; Update was called at most `i` times, always in time.
  abbrev pub IsOver : ℕ → Result T → Type 0
  IsOver i x =
      (x.code ≢ none) × (length x.updates ≤ i) × All (λ e. after e runtime ≡ false) x.updates

  -- Each call of Update comes back.
  abbrev pub ComeBack : List (Round T) → Type 0
  ComeBack = All (λ r. r.update ≢ endless)
