-- ===== src/Hardware/Spi.antt =====
-- HardwareManager.cpp: GetAGCData, and the SPI commands that it shares with ConfigureNT1065.
pub mod Channels
use mzntapp_cpp.Base.{
  ℕ, zero, suc, ◌+◌, ◌*◌, ◌%◌, ◌^◌, ◌≡◌, refl, Bool, true, false, not, arith, bit, if◌then◌else◌,
  List, [], ◌∷◌, Option, none, some, get_or,
}
use mzntapp_cpp.Io.{Io, Log, Env, pure, ask, tell, poll, ◌>>=◌, ◌>>◌}
use mzntapp_cpp.Hardware.Calls.{
  spi_driver, spi_write, spi_read, Call, loads, stores, sleeps, reads_clock,
}

-- `chnm` is never set.
pub record AgcLogData : Type 0 where
  pub ms_truncated : ℕ
  pub chnm : Option ℕ
  pub status : ℕ
  pub upper_t : ℕ
  pub lower_t : ℕ
  pub rf_agc : ℕ
  pub if_agc : ℕ

-- `while (*m_spiBase & 0x8) ;`
unfoldable pub wait_idle : ℕ → Io Call ℕ
wait_idle fuel = poll fuel (loads spi_driver 0) (λ v. not (bit 3 v))

-- Waits, then pulses an instruction: 2 writes the registers to the chip, 4 reads them.
unfoldable pub spi_command : ℕ → ℕ → ℕ → Io Call (Unit {0})
spi_command fuel instruction us = wait_idle fuel >>= λ _. do
  tell (stores spi_driver 0 instruction)
  tell (sleeps us)
  tell (stores spi_driver 0 0)

-- The low bytes of `n` words of the read buffer, from word `i` on.
unfoldable pub read_words : ℕ → ℕ → Io Call (List ℕ)
read_words zero i = pure []
read_words (suc n) i = do
  v ← ask (loads spi_read (4 * i))
  rest ← read_words n (i + 1)
  pure ((v % 2 ^ 8) ∷ rest)

-- Register 5 starts one temperature measurement and selects the channel:
-- `((channel << 4) | (0x0 << 1) | (0x1 << 0)) | (0x05 << 8)`.
abbrev pub select_word : ℕ → ℕ
select_word channel = channel * 16 + 1 + 5 * 256

abbrev pub agc_entry : ℕ → List ℕ → AgcLogData
agc_entry ms regs = record {
  ms_truncated = ms % 2 ^ 64;
  chnm = none;
  status = get_or regs 5 0;
  upper_t = get_or regs 7 0;
  lower_t = get_or regs 8 0;
  rf_agc = get_or regs 9 0;
  if_agc = get_or regs 10 0 % 2 ^ 5;
}

unfoldable pub read_entry : Io Call AgcLogData
unfolding read_words
read_entry = do regs ← read_words 11 0; ms ← ask reads_clock; pure (agc_entry ms regs)

unfoldable pub select_channel : ℕ → Io Call (Unit {0})
select_channel channel = tell (stores spi_write (4 * 5) (select_word channel))

pub finish_channel : ℕ → Io Call AgcLogData
finish_channel fuel = wait_idle fuel >>= λ _. read_entry

pub pulse_read : ℕ → Io Call AgcLogData
pulse_read fuel = spi_command fuel 4 10 >>= λ _. finish_channel fuel

pub read_channel : ℕ → ℕ → Io Call AgcLogData
read_channel fuel channel =
    select_channel channel >>= λ _. spi_command fuel 2 10 >>= λ _. pulse_read fuel

-- `n` channels from `channel` on.
pub read_channels : ℕ → ℕ → ℕ → Io Call (List AgcLogData)
read_channels fuel zero channel = pure []
read_channels fuel (suc n) channel = read_channel fuel channel >>= λ entry.
    read_channels fuel n (channel + 1) >>= λ rest. pure (entry ∷ rest)

-- `none` where the hardware is not initialised and the code returns false.
pub get_agc_data : ℕ → Bool → Io Call (Option (List AgcLogData))
get_agc_data fuel initialized =
    if initialized then (read_channels fuel 4 0 >>= λ entries. pure (some entries)) else pure none
