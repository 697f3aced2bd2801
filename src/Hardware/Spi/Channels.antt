-- ===== src/Hardware/Spi/Channels.antt =====
-- What GetAGCData asks of the chip and what it returns, while the SPI driver is found idle.
use mzntapp_cpp.Base.{
  ℕ, zero, suc, ◌+◌, ◌^◌, ◌<◌, ◌≡◌, refl, Bool, true, false, arith, bit, if◌then◌else◌, List, [],
  ◌∷◌, ◌++◌, none, some, length, All, append_assoc, ap, sym, ◌∙◌,
}
use mzntapp_cpp.Io.{Log, Env, pure, poll, ◌>>=◌, Returns, Returns-bind}
use mzntapp_cpp.Hardware.Calls.{Block, spi_driver, spi_write, Call, loads, stores, stores_of}
use mzntapp_cpp.Hardware.Spi.{
  AgcLogData, wait_idle, spi_command, select_word, read_entry, select_channel, finish_channel,
  pulse_read, read_channel, read_channels, get_agc_data,
}

abbrev pub IsIdle : Env Call → Type 0
IsIdle env = (log : Log Call) → bit 3 (env log (loads spi_driver 0)) ≡ false

-- A register write, and the instruction pulses after it, the newest first.
abbrev pub channel_stores : ℕ → List (Block × ℕ × ℕ)
channel_stores channel =
    (spi_driver, 0, 0)
    ∷ (spi_driver, 0, 4)
    ∷ (spi_driver, 0, 0)
    ∷ (spi_driver, 0, 2)
    ∷ (spi_write, 20, select_word channel)
    ∷ []

abbrev pub channels_stores : ℕ → ℕ → List (Block × ℕ × ℕ)
channels_stores zero channel = []
channels_stores (suc n) channel = channels_stores n (channel + 1) ++ channel_stores channel

-- Every field fits its byte, and the IF value its five bits.
pub record IsByteSized (d : AgcLogData) : Type 0 where
  pub status : d.status < 2 ^ 8
  pub upper_t : d.upper_t < 2 ^ 8
  pub lower_t : d.lower_t < 2 ^ 8
  pub rf_agc : d.rf_agc < 2 ^ 8
  pub if_agc : d.if_agc < 2 ^ 5
  pub ms_truncated : d.ms_truncated < 2 ^ 64

module _ (env : Env Call) (idle : IsIdle env) (fuel : ℕ) where
  Adds : {A : Type 0} → List (Block × ℕ × ℕ) → Log Call → A → Log Call → Type 0
  Adds added log a l = stores_of l ≡ added ++ stores_of log

  wait_idle-Returns : (log : Log Call) → Returns (wait_idle (suc fuel) env log) (Adds [] log)
  unfolding wait_idle poll Adds
  wait_idle-Returns log = ground (arith, idle log)

  spi_command-Returns :
      (instruction us : ℕ) (log : Log Call)
      → Returns
          (spi_command (suc fuel) instruction us env log)
          (Adds ((spi_driver, 0, 0) ∷ (spi_driver, 0, instruction) ∷ []) log)
  unfolding spi_command wait_idle poll Adds
  spi_command-Returns instruction us log = ground (arith, idle log)

  read_entry-Returns :
      (log : Log Call)
      → Returns (read_entry env log) (λ d l. IsByteSized d × (stores_of l ≡ stores_of log))
  unfolding read_entry
  read_entry-Returns log = (omega arith, refl)

  read_channel-Returns :
      (channel : ℕ) (log : Log Call)
      → Returns
          (read_channel (suc fuel) channel env log)
          (λ d l. IsByteSized d × (stores_of l ≡ channel_stores channel ++ stores_of log))
  unfolding read_entry read_channel pulse_read finish_channel select_channel Adds
  read_channel-Returns channel log =
      let Q : AgcLogData → Log Call → Type 0 =
        λ d l. IsByteSized d × (stores_of l ≡ channel_stores channel ++ stores_of log) in
      let c0 = stores spi_write 20 (select_word channel) in
      let l0 : Log Call = (c0, env log c0) ∷ log in
      Returns-bind (Adds ((spi_driver, 0, 0) ∷ (spi_driver, 0, 2) ∷ []) l0) Q
        (spi_command (suc fuel) 2 10) (λ _. pulse_read (suc fuel)) env l0
        (spi_command-Returns 2 10 l0)
        λ _ l1 h1.
          Returns-bind (Adds ((spi_driver, 0, 0) ∷ (spi_driver, 0, 4) ∷ []) l1) Q
            (spi_command (suc fuel) 4 10) (λ _. finish_channel (suc fuel)) env l1
            (spi_command-Returns 4 10 l1)
            λ _ l2 h2.
              Returns-bind (Adds [] l2) Q (wait_idle (suc fuel)) (λ _. read_entry) env l2
                (wait_idle-Returns l2)
                λ _ l3 h3.
                  (omega arith, h3 ∙ h2 ∙ ap (λ k. (spi_driver, 0, 0) ∷ (spi_driver, 0, 4) ∷ k) h1)

  read_channels-Returns :
      (n channel : ℕ) (log : Log Call)
      → Returns (read_channels (suc fuel) n channel env log) (λ ds l.
        (length ds ≡ n)
        × All IsByteSized ds
        × (stores_of l ≡ channels_stores n channel ++ stores_of log))
  unfolding read_channels
  read_channels-Returns zero channel log = (refl, tt, refl)
  read_channels-Returns (suc n) channel log =
      let Q : List AgcLogData → Log Call → Type 0 = λ ds l.
        (length ds ≡ suc n)
        × All IsByteSized ds
        × (stores_of l ≡ channels_stores (suc n) channel ++ stores_of log) in
      Returns-bind _ Q (read_channel (suc fuel) channel)
        (λ entry. read_channels (suc fuel) n (channel + 1) >>= λ rest. pure (entry ∷ rest)) env log
        (read_channel-Returns channel log)
        λ d l1 h1.
          Returns-bind _ Q (read_channels (suc fuel) n (channel + 1)) (λ rest. pure (d ∷ rest)) env
            l1 (read_channels-Returns n (channel + 1) l1)
            λ ds l2 h2. (
              ap suc h2.0,
              (h1.0, h2.1),
              h2.2
                  ∙ ap (◌++◌ (channels_stores n (channel + 1))) h1.1
                  ∙ sym (append_assoc (channels_stores n (channel + 1)) _ _),
            )

-- While the SPI driver is found idle, `get_agc_data` returns four entries whose fields fit their
-- bytes; for the channels 0 to 3 in order it selects the channel, then pulses a write and a read.
-- Uninitialised hardware is not touched.
pub get_agc_data-Returns :
    (fuel : ℕ) (initialized : Bool) (env : Env Call) (log : Log Call)
    → IsIdle env
    → Returns (get_agc_data (suc fuel) initialized env log) λ r l.
      (stores_of l ≡ (if initialized then channels_stores 4 0 else []) ++ stores_of log)
      × (if initialized
          then ((ds : List AgcLogData) × (r ≡ some ds) × (length ds ≡ 4) × All IsByteSized ds)
          else r ≡ none)
unfolding get_agc_data
get_agc_data-Returns fuel false env log idle = (refl, refl)
get_agc_data-Returns fuel true env log idle =
    Returns-bind _ _ (read_channels (suc fuel) 4 0) (λ entries. pure (some entries)) env log
      (read_channels-Returns env idle fuel 4 0 log) λ ds l h. (h.2, (ds, refl, h.0, h.1))
