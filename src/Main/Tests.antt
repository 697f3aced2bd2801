-- ===== src/Main/Tests.antt =====
-- Options and rounds of src/main.cc, run.
use mzntapp_cpp.Base.{ℕ, ◌<◌, ◌^◌, arith, List, [], ◌∷◌, Text, codes}
use mzntapp_cpp.Main.{defaults, parse_options, set_option, controller}
use mzntapp_cpp.Hardware.Writer.{Config, run, start, curr_file_offset}
use mzntapp_cpp.Hardware.Writer.Sizes.{live}
use mzntapp_cpp.Io.{Env, Log, Ensures}
use mzntapp_cpp.Logger.{Call, file_offset}
use mzntapp_cpp.Logger.Callback.{mqtt_callback}
use mzntapp_cpp.Logger.Keeps.{Inside}
use mzntapp_cpp.Base.{Bool, true, false, refl}
use mzntapp_cpp.Main.{Round, returned}
use mzntapp_cpp.Main.Sizes.{mqtt_callback-controller}

-- `-a -h host`
abbrev given : List (ℕ × Text)
given = (b'a', []) ∷ (b'h', codes "host") ∷ []

given-small : (parse_options ℕ (λ s. 0) given (defaults 3600)).update_byte_size < 2 ^ 29
unfolding set_option defaults
given-small = omega arith

-- The writer, and how far it is while the log grows: a block for each entry.
abbrev writer : Config
writer = record { base_name = codes "IF"; split = true; num_out_files = 4; ddr_base = 0 }

abbrev written : Log Call → List (Bool × ℕ)
written [] = (true, 0) ∷ []
written (_ ∷ log) = (true, 262144) ∷ written log

abbrev beside : Env Call
beside log file_offset =
    curr_file_offset (run writer (live (written log)) (start writer)).bytes_written
beside log _ = 1

mqtt_callback-controller_example :
    Ensures Inside
      (λ _. Inside)
      (mqtt_callback 5
        (controller (parse_options ℕ (λ s. 0) given (defaults 3600)))
        (codes "update-2-17")
        beside
        [])
mqtt_callback-controller_example =
    mqtt_callback-controller ℕ (λ s. 0) given 3600 5 writer written (codes "update-2-17") beside
      given-small (λ log. refl)

-- Times in seconds; the third is past the runtime, and Start succeeds.
abbrev rounds : List (Round ℕ)
rounds =
    record { elapsed = 1; stop = false; update = returned true }
    ∷ record { elapsed = 2; stop = false; update = returned true }
    ∷ record { elapsed = 9; stop = false; update = returned true }
    ∷ []
