-- ===== src/Logger/Tests/Pace.antt =====
-- Requests beside a writer that records a block between any two calls, and beside one that pauses.
use mzntapp_cpp.Base.{
  ℕ, suc, ◌<◌, ◌≡◌, refl, ap, Bool, true, List, [], ◌∷◌, ◌++◌, All, codes, length, arith,
}
use mzntapp_cpp.Io.{Env, Log, Returns}
use mzntapp_cpp.Hardware.Writer.{max_file_size, run, start, curr_file_offset}
use mzntapp_cpp.Hardware.Writer.Sizes.{live, run-start-Inv}
use mzntapp_cpp.Hardware.Writer.Paces.{IsOn, blocks_after, offset-run}
use mzntapp_cpp.Hardware.Writer.Pauses.{offs}
use mzntapp_cpp.Logger.{Call, file_offset, file_breaks}
use mzntapp_cpp.Logger.Callback.{remote_directory, mqtt_callback}
use mzntapp_cpp.Logger.Events.{EventAnswered}
use mzntapp_cpp.Logger.Paced.{IsPaced, update, mqtt_callback-EventPaced}
use mzntapp_cpp.Logger.Paused.{Hangs, mqtt_callback-Paused}
use mzntapp_cpp.Logger.Tests.{
  logger, writer, rounds, beside, update_tokens, event_tokens, one_number, twelve_number,
}

rounds-length : (log : Log Call) → length (rounds log) ≡ suc (length log)
rounds-length [] = refl
rounds-length (x ∷ log) = ap suc (rounds-length log)

rounds-IsOn : (log : Log Call) → All IsOn (rounds log)
rounds-IsOn [] = (refl, tt)
rounds-IsOn (x ∷ log) = (refl, rounds-IsOn log)

beside-IsPaced : IsPaced 1 writer rounds beside
beside-IsPaced = record {
  recorded = λ log. refl;
  on = rounds-IsOn;
  grows = λ x log. omega arith;
  slow = λ x log. omega arith;
  lively = λ k log h. omega (arith, rounds-length log, h);
}

mqtt_callback-EventPaced_example :
    Returns (mqtt_callback 9694 logger (codes "event-start-1-12") beside []) (λ _.
      EventAnswered logger
        (codes "1")
        (codes "12")
        1
        (beside ((file_breaks, 1) ∷ []) file_offset)
        beside)
mqtt_callback-EventPaced_example =
    mqtt_callback-EventPaced 9693 1 logger writer rounds (codes "event-start-1-12") (codes "1")
      (codes "12") [] 1 12 beside event_tokens one_number twelve_number (λ x log. omega arith)
      beside-IsPaced (omega arith) (omega arith)

-- After one block writing is off, and a block is dropped between any two calls.
abbrev dropped : Log Call → List ℕ
dropped [] = []
dropped (_ ∷ log) = 262144 ∷ dropped log

abbrev once : List (Bool × ℕ)
once = (true, 0) ∷ []

abbrev paused : Env Call
paused log file_offset =
    curr_file_offset (run writer (live (once ++ offs (dropped log))) (start writer)).bytes_written
paused log _ = 1

once-offset : curr_file_offset (run writer (live once) (start writer)).bytes_written ≡ 65536
unfolding blocks_after
once-offset = offset-run writer once (refl, tt)

once-unfilled : (run writer (live once) (start writer)).bytes_written < max_file_size
unfolding curr_file_offset
once-unfilled =
    let (_, _, _, small) = run-start-Inv writer once in omega (arith, once-offset, small)

mqtt_callback-Paused_example : Hangs (mqtt_callback 100 logger (codes "update-2-17") paused [])
mqtt_callback-Paused_example =
    mqtt_callback-Paused 100 logger writer once dropped (codes "update-2-17") (codes "2")
      (remote_directory logger ++ codes "update" ++ codes "17") logger.num_update_bytes paused
      (update update_tokens) (record { recorded = λ log. refl; unfilled = once-unfilled })
      (omega (arith, once-offset))
