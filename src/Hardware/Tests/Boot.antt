-- ===== src/Hardware/Tests/Boot.antt =====
-- An initialisation in which all pages are there.
use mzntapp_cpp.Base.{◌≡◌, false, [], arith}
use mzntapp_cpp.Io.{Ensures}
use mzntapp_cpp.Hardware.Fpga.{Settings}
use mzntapp_cpp.Hardware.Life.{initialize_hardware}
use mzntapp_cpp.Hardware.Life.Maps.{HasPages}
use mzntapp_cpp.Hardware.Life.Init.{Initialized, initialize_hardware-Ensures}
use mzntapp_cpp.Hardware.Life.Quiet.{intc_stores}
use mzntapp_cpp.Hardware.Tests.Config.{serving, given}

serving-HasPages : HasPages serving
serving-HasPages = record {
  nonzero = λ log n p e. absurd (omega (arith, e));
  bounded = λ log n p. omega arith;
}

abbrev settings : Settings
settings = record {
  counter_on = false;
  resampling_on = false;
  write_split = false;
  requantize = false;
  resamp_threshold = 32767;
}

initialize_hardware-Ensures_example :
    Ensures
      (λ l. intc_stores l ≡ [])
      (Initialized serving [] settings)
      (initialize_hardware 1 given settings serving [])
initialize_hardware-Ensures_example =
    initialize_hardware-Ensures 1 given settings serving [] serving-HasPages
