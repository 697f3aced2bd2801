-- ===== src/Hardware/Manager.antt =====
-- src/HardwareManager.cpp and .h: the members that the constructor sets and the accessors change, and
-- what the parts of the class find in them.
use mzntapp_cpp.Base.{
  ℕ, suc, ◌<◌, ◌≡◌, refl, Bool, true, false, ltb, if◌then◌else◌, List, [], ◌∷◌, ◌++◌, Text, codes,
  ◌∙◌,
}
use mzntapp_cpp.Hardware.Fpga.{Settings}
use mzntapp_cpp.Hardware.Writer.{Config, run, start}
use mzntapp_cpp.Hardware.Writer.Sizes.{live}
use mzntapp_cpp.Hardware.Writer.Content.{channel, pieces_of, written_after, channel-run}

-- The pointers are `Life.Pointers`, and what WriterThread changes is `Writer`.
pub record Members : Type 0 where
  pub counter_on : Bool
  pub resampling_on : Bool
  pub resamp_threshold : ℕ
  pub initialized : Bool
  pub agc_file_name : Text
  pub if_base_name : Text
  pub stop_signal : Bool
  pub break_file_signal : Bool
  pub num_errors : ℕ
  pub write_on : Bool
  pub requantize : Bool
  pub use_cwrite : Bool
  pub num_out_files : ℕ
  pub write_split : Bool
  pub conf_filename : Text

-- `if(m_writeOn)`: the number of files does not look at the mode of writing.
abbrev pub out_files : Bool → ℕ
out_files write_on = if write_on then 4 else 1

unfoldable pub new_hardware : Text → Text → Bool → Bool → Bool → ℕ → Members
new_hardware if_out conf counter resampling split threshold = record {
  counter_on = counter;
  resampling_on = resampling;
  resamp_threshold = threshold;
  initialized = false;
  agc_file_name = codes "/mnt/AGC.bin";
  if_base_name = if_out;
  stop_signal = false;
  break_file_signal = false;
  num_errors = 0;
  write_on = true;
  requantize = false;
  use_cwrite = true;
  num_out_files = out_files true;
  write_split = split;
  conf_filename = conf;
}

-- The errors are counted up from 0.
abbrev pub get_error_state : Members → Bool
get_error_state m = ltb 0 m.num_errors

abbrev pub reset_num_errors : Members → Members
reset_num_errors m = record m { num_errors = 0 }

abbrev pub request_if_write_break : Members → Members
request_if_write_break m = record m { break_file_signal = true }

abbrev pub set_write : Bool → Members → Bool × Members
set_write value m = (true, record m { write_on = value })

-- What ConfigureFPGASettings and WriterThread read.
abbrev pub settings_of : Members → Settings
settings_of m = record {
  counter_on = m.counter_on;
  resampling_on = m.resampling_on;
  write_split = m.write_split;
  requantize = m.requantize;
  resamp_threshold = m.resamp_threshold;
}

abbrev pub config_of : ℕ → Members → Config
config_of ddr_base m = record {
  base_name = m.if_base_name;
  split = m.write_split;
  num_out_files = m.num_out_files;
  ddr_base = ddr_base;
}

module _ (if_out conf : Text) (counter resampling : Bool) (threshold base : ℕ)
    (rs : List (Bool × ℕ)) where
  -- A manager that is made for one file opens three more, and writes nothing to them.
  new_hardware-unsplit :
      (i : ℕ)
      → suc i < 4
      → let c = config_of base (new_hardware if_out conf counter resampling false threshold) in
        let w = run c (live rs) (start c) in channel 4 (suc i) (w.files ++ w.closed) ≡ []
  unfolding new_hardware
  new_hardware-unsplit i lt =
      channel-run (config_of base (new_hardware if_out conf counter resampling false threshold)) rs
        (suc i) lt
      ∙ nothing (written_after [] rs)
    where
      nothing : (ps : List ℕ) → pieces_of false (suc i) ps ≡ []
      nothing [] = refl
      nothing (p ∷ ps) = nothing ps
