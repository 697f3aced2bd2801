-- ===== src/Hardware/Tests/Chips.antt =====
-- The settings of the FPGA, and GetAGCData, run.
use mzntapp_cpp.Base.{◌≡◌, refl, true, false, List, [], ◌++◌, some, length, All}
use mzntapp_cpp.Io.{Env, Returns}
use mzntapp_cpp.Hardware.Calls.{Call, opens, maps, stores_of}
use mzntapp_cpp.Hardware.Fpga.{Settings}
use mzntapp_cpp.Hardware.Spi.{AgcLogData, get_agc_data}
use mzntapp_cpp.Hardware.Spi.Channels.{IsByteSized, channels_stores, get_agc_data-Returns}

-- Every call is answered by 0: the SPI driver is idle, and the queue is empty.
abbrev quiet : Env Call
quiet log c = 0

-- Files open and pages map.
abbrev mapped : Env Call
mapped log (opens f) = 5
mapped log (maps n a) = 4096
mapped log _ = 0

abbrev settings : Settings
settings = record {
  counter_on = false;
  resampling_on = true;
  write_split = true;
  requantize = false;
  resamp_threshold = 0x2000;
}

get_agc_data_example : Returns (get_agc_data 1 true quiet []) λ r l.
    (stores_of l ≡ channels_stores 4 0 ++ [])
    × ((ds : List AgcLogData) × (r ≡ some ds) × (length ds ≡ 4) × All IsByteSized ds)
get_agc_data_example = get_agc_data-Returns 0 true quiet [] (λ log. refl)
