-- ===== src/Hardware/Tests.antt =====
-- Runs of the hardware models at concrete inputs.
mod Rings
mod Files
mod Chips
mod Pipe
mod Config
mod Boot
mod Stops
