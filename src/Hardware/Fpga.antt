-- ===== src/Hardware/Fpga.antt =====
-- HardwareManager.cpp: ConfigureFPGASettings, the mode register of the sampling logic.
use mzntapp_cpp.Base.{
  ℕ, ◌+◌, ◌*◌, ◌≡◌, Bool, true, false, not, ◌&&◌, ◌||◌, some, ◌∷◌, arith, ◌==◌, if◌then◌else◌,
}
use mzntapp_cpp.Io.{Io, Log, Env, done, failed, pure, ask, tell, ◌>>=◌, ◌>>◌, Returns, log_of}
use mzntapp_cpp.Hardware.Calls.{
  dev_mem, gpio, Call, opens, maps, unmaps, closes, stores, map_size, gpio_base_address, stores_of,
  value_at,
}
use mzntapp_cpp.Hardware.Mapping.{page_of}

-- The members of HardwareManager that the configuration reads.
pub record Settings : Type 0 where
  pub counter_on : Bool
  pub resampling_on : Bool
  pub write_split : Bool
  pub requantize : Bool
  pub resamp_threshold : ℕ

-- Register offsets are in 32-bit words: register 2 stands 8 bytes from the start of the block.
abbrev pub reg1_offset : ℕ
reg1_offset = 4 * 0x0

abbrev pub reg2_offset : ℕ
reg2_offset = 4 * 0x2

-- The writes to the two registers, by the nested tests of the source.
unfoldable pub program_mode : Settings → Io Call (Unit {0})
program_mode s = do
  tell (stores gpio reg1_offset s.resamp_threshold)
  if s.counter_on
      then (if s.resampling_on
          then tell (stores gpio reg2_offset 0x02)
          else tell (stores gpio reg2_offset 0x03))
      else if s.resampling_on
      then (if not s.write_split
          then tell (stores gpio reg2_offset 0x00)
          else if s.requantize
          then tell (stores gpio reg2_offset 0x18)
          else tell (stores gpio reg2_offset 0x10))
      else if not s.write_split
      then (do
        tell (stores gpio reg2_offset 0x01)
        tell (stores gpio reg1_offset s.resamp_threshold))
      else do tell (stores gpio reg2_offset 0x11); tell (stores gpio reg1_offset s.resamp_threshold)

unfoldable pub configure_fpga : Settings → Io Call Bool
configure_fpga s = do
  fd ← ask (opens dev_mem)
  if fd == failed then pure false else do
    base ← ask (maps map_size (page_of map_size gpio_base_address))
    if base == failed then pure false else do
      program_mode s
      result ← ask (unmaps base map_size)
      if result == failed then pure false else do tell (closes fd); pure true

-- The word of the settings, bit by bit: bit 0 is set where resampling is off, bit 1 where the counter
-- is on, bit 4 where the channels are split and the counter is off, and bit 3 where in addition
-- resampling and requantisation are on. The words are those of the code; the comments beside the two
-- words with the counter on give bit 0 the other meaning.
abbrev pub flag : Bool → ℕ
flag true = 1
flag false = 0

abbrev pub mode_word : Settings → ℕ
mode_word s =
    flag (not s.resampling_on)
    + 2 * flag s.counter_on
    + 16 * flag (not s.counter_on && s.write_split)
    + 8 * flag (not s.counter_on && s.write_split && s.resampling_on && s.requantize)

abbrev pub programmed : Settings → Env Call → Log Call → Log Call
programmed s env log = log_of (program_mode s env log)

pub program_mode_lem :
    (s : Settings) (env : Env Call) (log : Log Call)
    → (program_mode s env log ≡ done tt (programmed s env log))
      × (value_at gpio reg1_offset (stores_of (programmed s env log)) ≡ some s.resamp_threshold)
      × (value_at gpio reg2_offset (stores_of (programmed s env log)) ≡ some (mode_word s))
unfolding program_mode value_at
program_mode_lem s env log = ground arith

pub configure_fpga_lem :
    (s : Settings) (env : Env Call) (log : Log Call)
    → let fd = env log (opens dev_mem) in
      let base = env ((opens dev_mem, fd) ∷ log) (maps map_size gpio_base_address) in
      let absent = (fd == failed) || (base == failed) in
      let l3 =
        programmed s env ((maps map_size gpio_base_address, base) ∷ (opens dev_mem, fd) ∷ log) in
      Returns (configure_fpga s env log) λ ok l.
        (ok ≡ (not absent && not (env l3 (unmaps base map_size) == failed)))
        × (value_at gpio reg1_offset (stores_of l) ≡ (
            if absent then value_at gpio reg1_offset (stores_of log) else some s.resamp_threshold))
        × (value_at gpio reg2_offset (stores_of l)
            ≡ (if absent then value_at gpio reg2_offset (stores_of log) else some (mode_word s)))
unfolding configure_fpga
configure_fpga_lem s env log =
    let fd = env log (opens dev_mem) in
    let map = maps map_size (page_of map_size gpio_base_address) in
    let l1 : Log Call = (opens dev_mem, fd) ∷ log in
    let l2 : Log Call = (map, env l1 map) ∷ l1 in ground (arith, program_mode_lem s env l2)
