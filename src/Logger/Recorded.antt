-- ===== src/Logger/Recorded.antt =====
-- The callback beside WriterThread: the positions that it reads are those that the writer reaches.
use mzntapp_cpp.Base.{ℕ, ◌≤◌, ◌≡◌, Bool, arith, List, [], sym, subst}
use mzntapp_cpp.Base.{Text}
use mzntapp_cpp.Io.{Env, Log, Ensures}
use mzntapp_cpp.Hardware.Writer.{Config, run, start, curr_file_offset, max_single_file_size}
use mzntapp_cpp.Hardware.Writer.Sizes.{live, run-start-Inv}
use mzntapp_cpp.Logger.{Call, Logger, file_offset}
use mzntapp_cpp.Logger.Callback.{mqtt_callback}
use mzntapp_cpp.Logger.Keeps.{Inside}
use mzntapp_cpp.Logger.Bounds.{IsSized, mqtt_callback-Inside}

-- Whenever the callback asks for the position, the writer has done some rounds.
abbrev pub IsRecorded : Config → (Log Call → List (Bool × ℕ)) → Env Call → Type 0
IsRecorded c rounds env =
    (log : Log Call)
    → env log file_offset ≡ curr_file_offset (run c (live (rounds log)) (start c)).bytes_written

offset-le :
    (c : Config) (rs : List (Bool × ℕ))
    → curr_file_offset (run c (live rs) (start c)).bytes_written ≤ max_single_file_size
unfolding curr_file_offset
offset-le c rs = let (_, _, _, small) = run-start-Inv c rs in omega (arith, small)

-- With sizes as in `IsSized`, whatever message arrives while WriterThread records, through any pauses
-- and file breaks: every part of a recorded file that is uploaded lies below the size at which the
-- writer starts a new file.
pub mqtt_callback-run :
    (fuel : ℕ) (g : Logger) (c : Config) (rounds : Log Call → List (Bool × ℕ)) (payload : Text)
    (env : Env Call)
    → IsSized g
    → IsRecorded c rounds env
    → Ensures Inside (λ _. Inside) (mqtt_callback fuel g payload env [])
mqtt_callback-run fuel g c rounds payload env sized recorded =
    mqtt_callback-Inside fuel g sized payload env
      (λ log. subst (λ k. k ≤ max_single_file_size) (sym (recorded log)) (offset-le c (rounds log)))
