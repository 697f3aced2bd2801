-- ===== src/Hardware/Calls.antt =====
-- What HardwareManager calls outside itself: files of the operating system, registers of the FPGA
-- blocks, and the state that its threads share. `unsigned long` has 32 bits on the target, as the
-- register offsets show. A register is named by its block and its byte offset in the mapped page.
use mzntapp_cpp.Base.{ℕ, List, [], ◌∷◌, Option, none, some, Text, ◌==◌, ◌&&◌, if◌then◌else◌}
use mzntapp_cpp.Io.{Log}

-- system_defines.h
abbrev pub buffer_bytesize : ℕ
buffer_bytesize = 262144

abbrev pub channel_buf_size : ℕ
channel_buf_size = 65536

abbrev pub ddr_q_size : ℕ
ddr_q_size = 494

abbrev pub map_size : ℕ
map_size = 4096

abbrev pub bram_base_address : ℕ
bram_base_address = 0xc0000000

abbrev pub intc_base_address : ℕ
intc_base_address = 0x41800000

abbrev pub cdma_base_address : ℕ
cdma_base_address = 0x4E200000

abbrev pub gpio_base_address : ℕ
gpio_base_address = 0x41200000

abbrev pub spi_write_base_address : ℕ
spi_write_base_address = 0x40010000

abbrev pub spi_read_base_address : ℕ
spi_read_base_address = 0x40000000

abbrev pub spi_driver_base_address : ℕ
spi_driver_base_address = 0x43C00000

-- The files that the code opens: /dev/mem, /dev/udmabuf0 and, under /sys/class/udmabuf/udmabuf0,
-- phys_addr, sync_offset, sync_size, sync_direction and sync_for_cpu.
pub data DeviceFile : Type 0 where
  dev_mem udmabuf0 phys_addr sync_offset sync_size sync_direction sync_for_cpu : DeviceFile

pub data Block : Type 0 where
  intc cdma gpio spi_driver spi_write spi_read : Block

pub data Call : Type 0 where
  opens : DeviceFile → Call
  -- length and offset of `mmap`; the answer is the address
  maps : ℕ → ℕ → Call
  unmaps : ℕ → ℕ → Call
  closes : ℕ → Call
  -- `write` of a text to an attribute file
  puts : ℕ → Text → Call
  -- `read` and `sscanf "%x"`: the answer is what the target holds afterwards
  scans : ℕ → Call
  loads : Block → ℕ → Call
  stores : Block → ℕ → ℕ → Call
  sleeps : ℕ → Call
  -- `pthread_setschedparam`
  sets_priority : Call
  -- a read of `m_stopSignal`, nonzero for true
  stop_signal : Call
  -- `m_dataQueue.size()`, `push` and `pop_front`
  queue_size : Call
  pushes : ℕ → Call
  pops : Call
  -- `m_numErrors++`
  counts_error : Call
  -- milliseconds since the epoch
  reads_clock : Call
  starts_thread : ℕ → Call
  joins_thread : ℕ → Call
  sets_stop_signal : Call

-- The register writes of a log, the newest first.
abbrev pub stores_of : Log Call → List (Block × ℕ × ℕ)
stores_of [] = []
stores_of ((stores b r v, _) ∷ l) = (b, r, v) ∷ stores_of l
stores_of ((opens _, _) ∷ l) = stores_of l
stores_of (_ ∷ l) = stores_of l

-- The pointers pushed into the data queue, the newest first.
abbrev pub pushes_of : Log Call → List ℕ
pushes_of [] = []
pushes_of ((pushes p, _) ∷ l) = p ∷ pushes_of l
pushes_of ((opens _, _) ∷ l) = pushes_of l
pushes_of (_ ∷ l) = pushes_of l

block_code : Block → ℕ
block_code intc = 0
block_code cdma = 1
block_code gpio = 2
block_code spi_driver = 3
block_code spi_write = 4
block_code spi_read = 5

-- What was last written to a register.
unfoldable pub value_at : Block → ℕ → List (Block × ℕ × ℕ) → Option ℕ
unfolding block_code
value_at b r [] = none
value_at b r ((b', r', v) ∷ l) =
    if (block_code b == block_code b') && (r == r') then some v else value_at b r l
