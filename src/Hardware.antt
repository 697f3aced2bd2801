-- ===== src/Hardware.antt =====
-- src/HardwareManager.cpp and .h: the FPGA peripherals, the DMA thread and the writer thread.
mod Tests
pub mod Calls
pub mod Mapping
pub mod Fpga
pub mod Dma
pub mod Ring
pub mod Writer
pub mod Pipeline
pub mod Shutdown
pub mod Manager
pub mod Spi
pub mod Conf
pub mod Nt1065
pub mod Life
