-- ===== src/Main.antt =====
-- src/main.cc: the options and the main loop. `getopt` gives the options with their arguments in
-- order; the time values are `double`s, which stay parameters with `strtod` and their comparison.
pub mod Sizes
pub mod Loop
mod Tests
use mzntapp_cpp.Base.{
  ℕ, zero, suc, ◌+◌, ◌-◌, ◌*◌, ◌/◌, ◌%◌, ◌^◌, ◌≡◌, Bool, true, false, ◌==◌, ◌||◌, ◌&&◌,
  if◌then◌else◌, List, [], ◌∷◌, Option, none, some, Text, codes,
}
use mzntapp_cpp.Hardware.Conf.{scan_digits, skip_spaces, skip_prefix}
use mzntapp_cpp.Io.{failed}
use mzntapp_cpp.Logger.{Logger, new_logger}

-- The locals of `main`, with their defaults.
pub record Options (T : Type 0) : Type 0 where
  pub if_file : Text
  pub agc_file : Text
  pub config_file : Text
  pub node_name : Text
  pub resamp_threshold : ℕ
  pub runtime : T
  pub counter : Bool
  pub resampling : Bool
  pub upload_refactory : ℕ
  pub http_host : Text
  pub mqtt_host : Text
  pub http_port : ℕ
  pub mqtt_port : ℕ
  pub agc_threshold : ℕ
  pub update_byte_size : ℕ
  pub num_pre_bytes : ℕ
  pub split_write : Bool
  pub num_post_bytes : ℕ

unfoldable pub defaults : {T : Type 0} → T → Options T
defaults runtime = record {
  if_file = codes "/mnt/IF.bin";
  agc_file = codes "/mnt/AGC";
  config_file = codes "/etc/ConfigSet10.txt";
  node_name = codes "mz0";
  resamp_threshold = 0x2000;
  runtime = runtime;
  counter = false;
  resampling = true;
  upload_refactory = 120;
  http_host = codes "gnssfast.colorado.edu";
  mqtt_host = codes "gnssfast.colorado.edu";
  http_port = 1337;
  mqtt_port = 5554;
  agc_threshold = 5;
  update_byte_size = 43000000;
  num_pre_bytes = 43000000;
  split_write = false;
  num_post_bytes = 11000000;
}

-- The digits after a sign, modulo 2 ^ 32.
signed_digits : ℕ → Text → ℕ
signed_digits base [] = 0
signed_digits base (c ∷ cs) =
    if c == b'-'
    then (2 ^ 32 - scan_digits base (2 ^ 31) 0 (skip_prefix base cs)) % 2 ^ 32
    else if c == b'+'
    then scan_digits base (2 ^ 31 - 1) 0 (skip_prefix base cs)
    else scan_digits base (2 ^ 31 - 1) 0 (skip_prefix base (c ∷ cs))

-- `strtol` with a `long` of 32 bits, and `atoi`.
unfoldable pub strtol : ℕ → Text → ℕ
unfolding signed_digits skip_spaces
strtol base s = signed_digits base (skip_spaces s)

abbrev pub atoi : Text → ℕ
atoi s = strtol 10 s

-- Base 0: a prefix tells the base.
abbrev number_base : Text → ℕ
number_base [] = 10
number_base (z ∷ []) = if z == b'0' then 8 else 10
number_base (z ∷ x ∷ cs) = if z == b'0' then (if x == b'x' || x == b'X' then 16 else 8) else 10

abbrev unsigned_base : Text → ℕ
unsigned_base [] = 10
unsigned_base (c ∷ cs) = if c == b'-' || c == b'+' then number_base cs else number_base (c ∷ cs)

unfoldable pub strtol_any : Text → ℕ
unfolding skip_spaces
strtol_any s = strtol (unsigned_base (skip_spaces s)) s

module _ (T : Type 0) (strtod : Text → T) where
  -- The cases of the switch. The product of `-u` is taken modulo 2 ^ 32.
  unfoldable pub set_option : ℕ → Text → Options T → Options T
  set_option c arg o =
      if c == b'o'
      then record o { if_file = arg }
      else if c == b's'
      then record o { runtime = strtod arg }
      else if c == b'c'
      then record o { config_file = arg }
      else if c == b't'
      then record o { resamp_threshold = strtol_any arg }
      else if c == b'a'
      then record o { counter = true }
      else if c == b'n'
      then record o { resampling = false }
      else if c == b'h'
      then record o { http_host = arg }
      else if c == b'q'
      then record o { agc_file = arg }
      else if c == b'i'
      then record o { agc_threshold = atoi arg }
      else if c == b'e'
      then record o { upload_refactory = atoi arg }
      else if c == b'N'
      then record o { node_name = arg }
      else if c == b'u'
      then record o { update_byte_size = atoi arg * 1000000 % 2 ^ 32 }
      else if c == b'm'
      then record o { mqtt_host = arg }
      else if c == b'p'
      then record o { http_port = atoi arg }
      else if c == b'P'
      then record o { mqtt_port = atoi arg }
      else if c == b'S'
      then record o { split_write = true }
      else o

  abbrev pub parse_options : List (ℕ × Text) → Options T → Options T
  parse_options [] o = o
  parse_options ((c, arg) ∷ os) o = parse_options os (set_option c arg o)

-- The controller that the options make.
abbrev pub controller : {T : Type 0} → Options T → Logger
controller o =
    new_logger o.node_name o.if_file o.agc_file o.update_byte_size o.num_pre_bytes o.num_post_bytes
      o.http_host o.http_port o.mqtt_host o.mqtt_port

-- What becomes of a call of Start, Update or Stop: it returns, throws, or never comes back.
pub data Called : Type 0 where
  returned : Bool → Called
  thrown : Called
  endless : Called

-- A round of the main loop: its elapsed time, what GetStopCond answers, and the call of Update.
pub record Round (T : Type 0) : Type 0 where
  pub elapsed : T
  pub stop : Bool
  pub update : Called

-- How the loop ends; the rounds that are given may also end before it does, and a call of Update may
-- never come back.
pub data Ending : Type 0 where
  left_loop : Ending
  threw : Ending
  still_running : Ending

-- The rounds after the test of the clock and of GetStopCond, with what follows them.
abbrev pub after_update : {T : Type 0} → Round T → List T × Ending → List T × Ending
after_update r later = elim r.update [
  | returned ok ↦ (r.elapsed ∷ later.0, later.1)
  | thrown ↦ (r.elapsed ∷ [], threw)
  | endless ↦ (r.elapsed ∷ [], still_running)
]

-- The exit code once the program has ended, the times of the calls of Update, and whether Stop was called.
pub record Result (T : Type 0) : Type 0 where
  pub code : Option ℕ
  pub updates : List T
  pub stop_called : Bool

module _ {T : Type 0} (after : T → T → Bool) where
  unfoldable pub main_loop : T → List (Round T) → List T × Ending
  main_loop runtime [] = ([], still_running)
  main_loop runtime (r ∷ rounds) =
      let later = main_loop runtime rounds in
      if after r.elapsed runtime
      then ([], left_loop)
      else if r.stop
      then ([], left_loop)
      else after_update r later

  -- What follows the loop, given the call of Stop. An exception is caught, and the program ends with 0.
  abbrev pub after_loop : Called → List T × Ending → Result T
  after_loop thrown (updates, left_loop) = record {
    code = some 0;
    updates = updates;
    stop_called = true;
  }
  after_loop (returned true) (updates, left_loop) = record {
    code = some 0;
    updates = updates;
    stop_called = true;
  }
  after_loop (returned false) (updates, left_loop) = record {
    code = some failed;
    updates = updates;
    stop_called = true;
  }
  after_loop endless (updates, left_loop) = record {
    code = none;
    updates = updates;
    stop_called = true;
  }
  after_loop stop (updates, threw) = record {
    code = some 0;
    updates = updates;
    stop_called = false;
  }
  after_loop stop (updates, still_running) = record {
    code = none;
    updates = updates;
    stop_called = false;
  }

  -- `main` from the call of Start on.
  unfoldable pub main_run : T → Called → List (Round T) → Called → Result T
  unfolding main_loop
  main_run runtime thrown rounds stop = record { code = some 0; updates = []; stop_called = false }
  main_run runtime endless rounds stop = record { code = none; updates = []; stop_called = false }
  main_run runtime (returned false) rounds stop = record {
    code = some failed;
    updates = [];
    stop_called = false;
  }
  main_run runtime (returned true) rounds stop = after_loop stop (main_loop runtime rounds)
