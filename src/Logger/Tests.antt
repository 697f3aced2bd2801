-- ===== src/Logger/Tests.antt =====
-- Messages and samples, run.
mod Pace
mod Levels
use Prim.Native.Nat.{min}
use mzntapp_cpp.Base.{
  ℕ, ◌*◌, ◌%◌, ◌^◌, ◌≡◌, ◌≤◌, ◌-◌, refl, Bool, Option, true, List, [], ◌∷◌, ◌++◌, codes, arith,
  take, drop, length, map, ltb, to_string,
}
use mzntapp_cpp.Base.Int.{pos}
use mzntapp_cpp.Io.{Env, Log, Ensures, pure}
use mzntapp_cpp.Hardware.Spi.{AgcLogData}
use mzntapp_cpp.Logger.{Call, Logger, new_logger, tokens, stoi, file_offset, uploads}
use mzntapp_cpp.Logger.Plan.{event_plan, event_plan_lem}
use mzntapp_cpp.Logger.Callback.{mqtt_callback}
use mzntapp_cpp.Logger.Keeps.{Inside}
use mzntapp_cpp.Logger.Bounds.{mqtt_callback-Inside}
use mzntapp_cpp.Hardware.Writer.{Config, run, start, curr_file_offset}
use mzntapp_cpp.Hardware.Writer.Sizes.{live}
use mzntapp_cpp.Logger.Recorded.{mqtt_callback-run}
use mzntapp_cpp.Logger.Update.{Updater, Given, record_size, updates, updates-bytes}
use mzntapp_cpp.Logger.Start.{
  StartCall, initializes_hardware, starts_hardware, sets_handles, starts_mqtt, subscribes,
  publishes, asks_http, truncates_agc, reads_time, reads_agc, start_logger, start_logger_lem,
}
use mzntapp_cpp.Io.{Returns}

abbrev pub logger : Logger
logger = record {
  node_name = codes "mz0";
  if_filename = codes "IF";
  agc_filename = codes "AGC";
  http_host = codes "host";
  http_port = 1337;
  mqtt_host = codes "tcp://host:5554";
  num_pre_bytes = 42991616;
  num_update_bytes = 42991616;
  num_post_bytes = 10747904;
  eph_size = 120000000;
}

-- The constructor rounds the default sizes down to whole buffers.
new_logger_run :
    new_logger
      (codes "mz0")
      (codes "IF")
      (codes "AGC")
      43000000
      43000000
      11000000
      (codes "host")
      1337
      (codes "host")
      5554
    ≡ logger
unfolding new_logger to_string
new_logger_run = refl

-- The second scenario, with less than `post` bytes missing.
event_plan_example :
    event_plan 100 30 1000 20 2
    ≡ record { offset1 = 0; size1 = 50; two = true; offset2 = 920; size2 = 50 }
event_plan_example =
    event_plan_lem 100 30 1000 20 2 (omega arith) (omega arith) (omega arith) (omega arith)

-- The position grows with the log.
abbrev recording : Env Call
recording log file_offset = min (100000000 * length log) 1000000000
recording log (uploads r f p o s h) = 1
recording log _ = 2

recording-length : (log : Log Call) → recording log file_offset ≤ 1270218752
recording-length log = omega arith

mqtt_callback-Inside_example :
    Ensures Inside (λ _. Inside) (mqtt_callback 5 logger (codes "update-2-17") recording [])
mqtt_callback-Inside_example =
    mqtt_callback-Inside 5 logger (omega arith, omega arith, omega arith, omega arith)
      (codes "update-2-17") recording recording-length

-- The writer, and how far it is while the log grows: a block for each entry.
abbrev pub writer : Config
writer = record { base_name = codes "IF"; split = true; num_out_files = 4; ddr_base = 0 }

abbrev pub rounds : Log Call → List (Bool × ℕ)
rounds [] = (true, 0) ∷ []
rounds (_ ∷ log) = (true, 262144) ∷ rounds log

abbrev pub beside : Env Call
beside log file_offset =
    curr_file_offset (run writer (live (rounds log)) (start writer)).bytes_written
beside log _ = 1

pub update_tokens : tokens (codes "update-2-17") ≡ codes "update" ∷ codes "2" ∷ codes "17" ∷ []
unfolding tokens
update_tokens = refl

pub event_tokens :
    tokens (codes "event-start-1-12") ≡ codes "event" ∷ codes "start" ∷ codes "1" ∷ codes "12" ∷ []
unfolding tokens
event_tokens = refl

pub one_number : stoi (codes "1") ≡ pure 1
unfolding stoi
one_number = refl

pub twelve_number : stoi (codes "12") ≡ pure 12
unfolding stoi
twelve_number = refl

abbrev entry : ℕ → AgcLogData
entry agc = record {
  ms_truncated = 1000;
  chnm = Option.none;
  status = 0;
  upper_t = 0;
  lower_t = 0;
  rf_agc = 0;
  if_agc = agc;
}

abbrev entries_of : List AgcLogData
entries_of = entry 1 ∷ entry 2 ∷ entry 3 ∷ entry 4 ∷ []

abbrev pub met : Given
met = record { errors1 = 0; errors2 = 0; opened = true; entries = entries_of }

abbrev pub updater : Updater ℕ
updater = record {
  last_time = 0;
  num_last_errors = 0;
  agc_last = 1 ∷ 2 ∷ 3 ∷ 20 ∷ [];
  bytes_written_agc = 0;
  agc_log = [];
}

-- Two samples at seconds 1 and 2.
updates_example :
    let u =
      updates ℕ
        (codes "mz0")
        (pos 5)
        (λ a b. a - b)
        (λ a b. ltb 0 a)
        1
        ((1, met) ∷ (2, met) ∷ [])
        updater in
    u.bytes_written_agc ≡ (record_size * length u.agc_log) % 2 ^ 32
updates_example =
    updates-bytes ℕ (codes "mz0") (pos 5) (λ a b. a - b) (λ a b. ltb 0 a) 1
      ((1, met) ∷ (2, met) ∷ []) updater refl
