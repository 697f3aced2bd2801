-- ===== src/Hardware/Mapping.antt =====
-- HardwareManager.cpp: mmapDDR, mmapDMABuffer, EnableAXI_Interrupts and the cache helpers.
use Prim.Native.Nat.{bit_and}
use mzntapp_cpp.Base.{
  ℕ, ◌+◌, ◌-◌, ◌%◌, ◌^◌, ◌≡◌, refl, Bool, true, false, not, ◌&&◌, ◌||◌, ◌∷◌, Option, none, some,
  Text, codes, to_string, ◌==◌, if◌then◌else◌, arith,
}
use mzntapp_cpp.Io.{Io, Log, Env, failed, pure, fault, ask, tell, ◌>>=◌, ◌>>◌, Returns}
use mzntapp_cpp.Hardware.Calls.{
  DeviceFile, dev_mem, udmabuf0, phys_addr, sync_offset, sync_size, sync_direction, sync_for_cpu,
  intc, Call, opens, maps, unmaps, closes, puts, scans, stores, map_size, intc_base_address,
  stores_of,
}

-- Where a mapping starts, and the address of the wanted offset in it.
pub record Mapped : Type 0 where
  pub page_start : ℕ
  pub address : ℕ

-- `offset & ~(length - 1)`
abbrev pub page_of : ℕ → ℕ → ℕ
page_of length offset = bit_and offset (2 ^ 32 - length)

-- `offset & (length - 1)`
abbrev pub in_page : ℕ → ℕ → ℕ
in_page length offset = bit_and offset (length - 1)

-- `none` is NULL. `has_page_start` tells whether the caller passes a place for the page start: where
-- `mmap` fails, the message reads it whether or not there is one.
unfoldable pub mmap_ddr : ℕ → ℕ → Bool → Io Call (Option Mapped)
mmap_ddr length offset has_page_start = do
  fd ← ask (opens dev_mem)
  if fd == failed then pure none else do
    base ← ask (maps length (page_of length offset))
    if base == failed then (if has_page_start then pure none else fault) else do
      tell (closes fd)
      pure (some (record { page_start = base; address = (base + in_page length offset) % 2 ^ 32 }))

-- The virtual address of the DMA buffer and its physical address.
unfoldable pub mmap_dma_buffer : ℕ → Io Call (Option (ℕ × ℕ))
mmap_dma_buffer length = do
  fd ← ask (opens udmabuf0)
  if fd == failed then pure none else do
    base ← ask (maps length 0)
    if base == failed then pure none else do
      tell (closes fd)
      stat ← ask (opens phys_addr)
      if stat == failed
          then pure none
          else do phys ← ask (scans stat); tell (closes stat); pure (some (base, phys))

abbrev pub sie_offset : ℕ
sie_offset = 0x10

abbrev pub mer_offset : ℕ
mer_offset = 0x1C

-- Returns false where the code does.
unfoldable pub enable_interrupts : Io Call Bool
unfolding mmap_ddr
enable_interrupts = do
  mapped ← mmap_ddr map_size intc_base_address true
  elim mapped [
    | none ↦ pure false
    | some m ↦ do
      tell (stores intc sie_offset 3)
      tell (stores intc mer_offset 3)
      if m.page_start == 0
          then pure true
          else do result ← ask (unmaps m.page_start map_size); pure (not (result == failed))
  ]

-- The four helpers write an attribute of the DMA buffer's driver, and do nothing if it does not open.
pub write_attribute : DeviceFile → Text → Io Call Bool
write_attribute file text = do
  fd ← ask (opens file)
  if fd == failed then pure false else do tell (puts fd text); tell (closes fd); pure true

unfoldable pub set_sync_offset : ℕ → Io Call (Unit {0})
unfolding write_attribute
set_sync_offset offset = do r ← write_attribute sync_offset (to_string offset); pure tt

unfoldable pub set_sync_size : ℕ → Io Call (Unit {0})
unfolding write_attribute
set_sync_size size = do r ← write_attribute sync_size (to_string size); pure tt

unfoldable pub set_sync_dir : Io Call (Unit {0})
unfolding write_attribute
set_sync_dir = do r ← write_attribute sync_direction (to_string 2); pure tt

unfoldable pub sync_cpu : Io Call Bool
unfolding write_attribute
sync_cpu = write_attribute sync_for_cpu (codes "1")

-- Every address that the code maps is page-aligned, so the pointer that it gets is the page.
pub devices_aligned :
    (in_page map_size intc_base_address ≡ 0)
    × (page_of map_size intc_base_address ≡ intc_base_address)
devices_aligned = (refl, refl)

-- `enable_interrupts` returns whatever the operating system answers. Where /dev/mem does not open or
-- map it returns false and writes nothing; else it enables both inputs and then the master bits.
pub enable_interrupts_lem :
    (env : Env Call) (log : Log Call)
    → let fd = env log (opens dev_mem) in
      let base = env ((opens dev_mem, fd) ∷ log) (maps map_size intc_base_address) in
      let absent = (fd == failed) || (base == failed) in
      Returns (enable_interrupts env log) λ ok l.
        ((ok && absent) ≡ false)
        × (stores_of l ≡ (
            if absent
            then stores_of log
            else (intc, mer_offset, 3) ∷ (intc, sie_offset, 3) ∷ stores_of log))
unfolding enable_interrupts
enable_interrupts_lem env log = ground arith
