-- ===== src/Hardware/Life.antt =====
-- HardwareManager.cpp: InitializeHardware, Start, Stop and the destructor.
pub mod Ends
pub mod Quiet
pub mod Maps
pub mod Init
pub mod Serves
use mzntapp_cpp.Base.{
  ℕ, zero, suc, ◌-◌, ◌*◌, ◌^◌, ◌≡◌, ◌≢◌, refl, Bool, true, false, arith, ◌==◌, ltb, bit,
  if◌then◌else◌, List, [], ◌∷◌, ◌++◌, Option, none, some,
}
use mzntapp_cpp.Io.{Io, Log, Env, pure, hang, ask, tell, ◌>>=◌, ◌>>◌, Silent, Ensures}
use mzntapp_cpp.Hardware.Calls.{
  cdma, Call, loads, stores, sleeps, queue_size, pops, pushes, reads_clock, starts_thread,
  joins_thread, sets_stop_signal, opens, map_size, buffer_bytesize, ddr_q_size, intc_base_address,
  cdma_base_address, spi_driver_base_address, spi_write_base_address, spi_read_base_address,
}
use mzntapp_cpp.Hardware.Mapping.{mmap_ddr, mmap_dma_buffer, enable_interrupts}
use mzntapp_cpp.Hardware.Fpga.{Settings, configure_fpga}
use mzntapp_cpp.Hardware.Nt1065.{Given, configure_nt1065}

-- The pointer members; 0 is NULL. `m_ddrBase` is set by the constructor and never again.
pub record Pointers : Type 0 where
  pub ddr_base : ℕ
  pub ddr_base_off : ℕ
  pub cdma_base : ℕ
  pub cdma_base_off : ℕ
  pub intr_base : ℕ
  pub intr_base_off : ℕ
  pub spi_base : ℕ
  pub spi_read : ℕ
  pub spi_write : ℕ
  pub paddr_dma_target : ℕ

abbrev pub no_pointers : Pointers
no_pointers = record {
  ddr_base = 0;
  ddr_base_off = 0;
  cdma_base = 0;
  cdma_base_off = 0;
  intr_base = 0;
  intr_base_off = 0;
  spi_base = 0;
  spi_read = 0;
  spi_write = 0;
  paddr_dma_target = 0;
}

-- A mapping that fails makes the initialisation return false.
unfoldable pub mapped_or_stop :
    {A : Type 0} → Option A → (A → Io Call (Option Pointers)) → Io Call (Option Pointers)
mapped_or_stop none k = pure none
mapped_or_stop (some m) k = k m

-- Scatter-gather mode is turned off where it is on.
unfoldable pub simple_mode : Io Call (Unit {0})
simple_mode = do
  reg ← ask (loads cdma 0)
  if bit 3 reg then tell (stores cdma 0 (reg - 2 ^ 3)) else pure tt

unfoldable pub map_buffers : Pointers → Io Call (Option Pointers)
map_buffers p = mmap_ddr map_size spi_write_base_address false >>= λ w. mapped_or_stop w λ write.
    mmap_ddr map_size spi_driver_base_address false >>= λ d. mapped_or_stop d λ driver.
      mmap_ddr map_size spi_read_base_address false >>= λ r. mapped_or_stop r λ read.
        mmap_dma_buffer (ddr_q_size * buffer_bytesize) >>= λ b. mapped_or_stop b λ (v, phys). pure (
          some (record p {
            spi_write = write.address;
            spi_base = driver.address;
            spi_read = read.address;
            ddr_base_off = v;
            paddr_dma_target = phys;
          }))

unfoldable pub map_peripherals : Io Call (Option Pointers)
map_peripherals = mmap_ddr map_size intc_base_address true >>= λ i. mapped_or_stop i λ intr.
    mmap_ddr map_size cdma_base_address true >>= λ c. mapped_or_stop c λ engine.
      simple_mode >>= λ _. map_buffers (record no_pointers {
        intr_base = intr.page_start;
        intr_base_off = intr.address;
        cdma_base = engine.page_start;
        cdma_base_off = engine.address;
      })

unfoldable pub configure_all : ℕ → Given → Settings → Io Call Bool
configure_all fuel g s =
    configure_nt1065 fuel g >>= λ ok. if ok then configure_fpga s else pure false

unfoldable pub prepare : ℕ → Given → Settings → Io Call (Option Pointers)
prepare fuel g s = configure_all fuel g s >>= λ ok. if ok then map_peripherals else pure none

abbrev pub if_enabled : Pointers → Bool → Option Pointers
if_enabled p ok = if ok then some p else none

unfoldable pub finish : Option Pointers → Io Call (Option Pointers)
finish none = pure none
finish (some p) = enable_interrupts >>= λ ok. pure (if_enabled p ok)

-- `some` where `m_initialized` is set and the code returns true.
unfoldable pub initialize_hardware : ℕ → Given → Settings → Io Call (Option Pointers)
initialize_hardware fuel g s = prepare fuel g s >>= finish

-- Thread 0 is the writer, thread 1 the DMA thread.
unfoldable pub start : Io Call Bool
start = do
  tell reads_clock
  tell (starts_thread 0)
  tell (sleeps 1000000)
  tell (starts_thread 1)
  pure true

-- `while (m_dataQueue.size() >= 300) m_dataQueue.pop_front();`
unfoldable pub drain : ℕ → Io Call (Unit {0})
drain zero = hang
drain (suc fuel) = do n ← ask queue_size; if ltb n 300 then pure tt else do tell pops; drain fuel

unfoldable pub join_threads : Io Call Bool
join_threads = do tell (joins_thread 1); tell (pushes 0); tell (joins_thread 0); pure true

unfoldable pub drain_and_join : ℕ → Io Call Bool
drain_and_join fuel = drain fuel >>= λ _. join_threads

unfoldable pub stop : ℕ → Io Call Bool
stop fuel = tell sets_stop_signal >> drain_and_join fuel

-- The addresses that the destructor hands to `munmap`, in order.
unfoldable pub released : Pointers → List ℕ
released p =
    (if p.ddr_base_off == 0 then [] else p.ddr_base_off ∷ [])
    ++ (if p.cdma_base == 0 then [] else p.ddr_base ∷ [])
    ++ (if p.intr_base == 0 then [] else p.ddr_base ∷ [])
    ++ (if p.spi_base == 0 then [] else p.spi_base ∷ [])
    ++ (if p.spi_read == 0 then [] else p.spi_read ∷ [])
    ++ (if p.spi_write == 0 then [] else p.spi_write ∷ [])

-- The calls that order the end of the threads, the newest first.
abbrev pub thread_calls : Log Call → List Call
thread_calls [] = []
thread_calls ((joins_thread n, _) ∷ l) = joins_thread n ∷ thread_calls l
thread_calls ((pushes p, _) ∷ l) = pushes p ∷ thread_calls l
thread_calls ((sets_stop_signal, _) ∷ l) = sets_stop_signal ∷ thread_calls l
thread_calls ((opens _, _) ∷ l) = thread_calls l
thread_calls (_ ∷ l) = thread_calls l

drain-Silent : (fuel : ℕ) → Silent thread_calls (drain fuel)
unfolding drain
drain-Silent zero env log = refl
drain-Silent (suc fuel) env log =
    let l1 : Log Call = (queue_size, env log queue_size) ∷ log in
    ground (arith, drain-Silent fuel env ((pops, env l1 pops) ∷ l1))

-- Stop first sets the stop signal, then joins the DMA thread, only then sends the null pointer that
-- ends the writer, and joins it last; slots are thrown away in between, and nothing else is sent.
pub stop_order :
    (fuel : ℕ) (env : Env Call) (log : Log Call)
    → Ensures
        (λ l. thread_calls l ≡ sets_stop_signal ∷ thread_calls log)
        (λ ok l.
          thread_calls l
          ≡ joins_thread 0 ∷ pushes 0 ∷ joins_thread 1 ∷ sets_stop_signal ∷ thread_calls log)
        (stop fuel env log)
unfolding stop drain_and_join join_threads
stop_order fuel env log =
    let l1 : Log Call = (sets_stop_signal, env log sets_stop_signal) ∷ log in
    ground (arith, drain-Silent fuel env l1)

-- With every mapping there and `m_ddrBase` null, the destructor gives back the ring and the SPI
-- pages; but for the DMA engine and the interrupt controller it hands the null pointer to `munmap`,
-- so those two pages are not given back.
pub released_pages :
    (p : Pointers)
    → p.ddr_base ≡ 0
    → p.ddr_base_off ≢ 0
    → p.cdma_base ≢ 0
    → p.intr_base ≢ 0
    → p.spi_base ≢ 0
    → p.spi_read ≢ 0
    → p.spi_write ≢ 0
    → released p ≡ p.ddr_base_off ∷ 0 ∷ 0 ∷ p.spi_base ∷ p.spi_read ∷ p.spi_write ∷ []
unfolding released
released_pages p null d c i b r w = ground arith
