-- ===== src/Hardware/Life/Maps.antt =====
-- HardwareManager.cpp: the mappings of InitializeHardware, and what they leave as it was.
use mzntapp_cpp.Base.{
  ℕ, ◌+◌, ◌*◌, ◌%◌, ◌^◌, ◌<◌, ◌≡◌, ◌≢◌, refl, Bool, true, false, arith, ◌==◌, List, ◌∷◌, Option,
  none, some, Bool-cases, inl, inr,
}
use mzntapp_cpp.Io.{Io, Log, Env, failed, ◌>>=◌, Ensures, Ensures-bind}
use mzntapp_cpp.Hardware.Calls.{
  gpio, Call, opens, dev_mem, udmabuf0, phys_addr, closes, maps, map_size, intc_base_address,
  cdma_base_address, spi_driver_base_address, spi_write_base_address, spi_read_base_address,
  buffer_bytesize, ddr_q_size, stores_of, value_at,
}
use mzntapp_cpp.Hardware.Mapping.{page_of, Mapped, in_page, mmap_ddr, mmap_dma_buffer}
use mzntapp_cpp.Hardware.Fpga.{reg2_offset}
use mzntapp_cpp.Hardware.Life.{
  Pointers, no_pointers, mapped_or_stop, simple_mode, map_buffers, map_peripherals,
}
use mzntapp_cpp.Hardware.Life.Quiet.{intc_stores}

-- `mmap` never answers the null pointer, and its answers are addresses of the machine.
pub record HasPages (env : Env Call) : Type 0 where
  pub nonzero : (log : Log Call) (n p : ℕ) → env log (maps n p) ≢ 0
  pub bounded : (log : Log Call) (n p : ℕ) → env log (maps n p) < 2 ^ 32

-- A predicate on what an option holds.
abbrev pub On : {A : Type 0} → (A → Type 0) → Option A → Type 0
On P none = Unit {0}
On P (some a) = P a

-- Every pointer is there but the one that is never set.
pub record AllMapped (p : Pointers) : Type 0 where
  pub ddr_base_null : p.ddr_base ≡ 0
  pub ddr : p.ddr_base_off ≢ 0
  pub dma : p.cdma_base ≢ 0
  pub interrupts : p.intr_base ≢ 0
  pub driver : p.spi_base ≢ 0
  pub reads : p.spi_read ≢ 0
  pub writes : p.spi_write ≢ 0

-- The writes to the interrupt controller and the value of the mode register.
abbrev pub Kept : List (ℕ × ℕ) → Option ℕ → Log Call → Type 0
Kept is v l = (intc_stores l ≡ is) × (value_at gpio reg2_offset (stores_of l) ≡ v)

whole : (a n : ℕ) → n ≡ 0 → a < 2 ^ 32 → (a + n) % 2 ^ 32 ≡ a
whole a n z h = omega (arith, z, h)

-- The pointers to the interrupt controller and to the DMA engine.
abbrev pub first_pointers : Mapped → Mapped → Pointers
first_pointers intr engine = record no_pointers {
  intr_base = intr.page_start;
  intr_base_off = intr.address;
  cdma_base = engine.page_start;
  cdma_base_off = engine.address;
}

module _ (env : Env Call) (pages : HasPages env) (is : List (ℕ × ℕ)) (v : Option ℕ) where
  -- A device page, and the DMA buffer.
  abbrev Page : Mapped → Type 0
  Page m = (m.page_start ≢ 0) × (m.address ≢ 0)

  abbrev Buffer : ℕ × ℕ → Type 0
  Buffer (v, phys) = v ≢ 0

  bind_mapped :
      {A : Type 0} (P : A → Type 0) (Q : Option Pointers → Log Call → Type 0)
      (m : Io Call (Option A)) (k : A → Io Call (Option Pointers)) (log : Log Call)
      → ((l : Log Call) → Kept is v l → Q none l)
      → Ensures (Kept is v) (λ r l. Kept is v l × On P r) (m env log)
      → ((a : A) (l : Log Call) → Kept is v l → P a → Ensures (Kept is v) Q (k a env l))
      → Ensures (Kept is v) Q ((m >>= λ r. mapped_or_stop r k) env log)
  unfolding mapped_or_stop
  bind_mapped {A} P Q m k log stop hm hk =
      Ensures-bind (Kept is v) (λ r l. Kept is v l × On P r) Q m (λ r. mapped_or_stop r k) env log
        hm go
    where
      go :
          (r : Option A) (l : Log Call)
          → Kept is v l × On P r
          → Ensures (Kept is v) Q (mapped_or_stop r k env l)
      go none l (kept, on) = stop l kept
      go (some a) l (kept, on) = hk a l kept on

  mmap_ddr-Ensures :
      (offset : ℕ) (has_page_start : Bool) (log : Log Call)
      → in_page map_size offset ≡ 0
      → Kept is v log
      → Ensures
          (Kept is v)
          (λ r l. Kept is v l × On Page r)
          (mmap_ddr map_size offset has_page_start env log)
  unfolding mmap_ddr
  mmap_ddr-Ensures offset has_page_start log aligned kept =
      let fd = env log (opens dev_mem) in
      let l1 : Log Call = (opens dev_mem, fd) ∷ log in
      let map = maps map_size (page_of map_size offset) in
      let base = env l1 map in
      let e : (base + in_page map_size offset) % 2 ^ 32 ≡ base =
        whole base _ aligned (pages.bounded l1 _ _) in
      ground (arith, kept, e, pages.nonzero l1 map_size (page_of map_size offset))

  mmap_dma_buffer-Ensures :
      (length : ℕ) (log : Log Call)
      → Kept is v log
      → Ensures (Kept is v) (λ r l. Kept is v l × On Buffer r) (mmap_dma_buffer length env log)
  unfolding mmap_dma_buffer
  mmap_dma_buffer-Ensures length log kept =
      let l1 : Log Call = (opens udmabuf0, env log (opens udmabuf0)) ∷ log in
      let base = env l1 (maps length 0) in
      let l2 : Log Call =
        (
          closes (env log (opens udmabuf0)),
          env ((maps length 0, base) ∷ l1) (closes (env log (opens udmabuf0))),
        )
        ∷ (maps length 0, base)
        ∷ l1 in
      elim (Bool-cases (env log (opens udmabuf0) == failed)) [
        | inl e ↦ rw e (kept, tt)
        | inr e ↦ rw e (elim (Bool-cases (base == failed)) [
          | inl f ↦ rw f (kept, tt)
          | inr f ↦ rw f (elim (Bool-cases (env l2 (opens phys_addr) == failed)) [
            | inl h ↦ rw h (kept, tt)
            | inr h ↦ rw h (kept, pages.nonzero l1 length 0)
          ])
        ])
      ]

  -- What the steps so far have left, and what the pointers are where there are any.
  abbrev pub Left : Option Pointers → Log Call → Type 0
  Left r l = Kept is v l × On AllMapped r

  map_buffers-Ensures :
      (p : Pointers) (log : Log Call)
      → p.ddr_base ≡ 0
      → p.cdma_base ≢ 0
      → p.intr_base ≢ 0
      → Kept is v log
      → Ensures (Kept is v) Left (map_buffers p env log)
  unfolding map_buffers
  map_buffers-Ensures p log null c i kept =
      bind_mapped Page Left (mmap_ddr map_size spi_write_base_address false) _ log (λ l h. (h, tt))
        (mmap_ddr-Ensures spi_write_base_address false log refl kept)
        (λ write l k1 w.
          bind_mapped Page Left (mmap_ddr map_size spi_driver_base_address false) _ l
            (λ l h. (h, tt)) (mmap_ddr-Ensures spi_driver_base_address false l refl k1)
            (λ driver l k2 d.
              bind_mapped Page Left (mmap_ddr map_size spi_read_base_address false) _ l
                (λ l h. (h, tt)) (mmap_ddr-Ensures spi_read_base_address false l refl k2)
                (λ read l k3 r.
                  bind_mapped Buffer Left (mmap_dma_buffer (ddr_q_size * buffer_bytesize)) _ l
                    (λ l h. (h, tt)) (mmap_dma_buffer-Ensures (ddr_q_size * buffer_bytesize) l k3)
                    (λ b l k4 n. (
                      k4,
                      record {
                        ddr_base_null = null;
                        ddr = n;
                        dma = c;
                        interrupts = i;
                        driver = d.1;
                        reads = r.1;
                        writes = w.1;
                      },
                    )))))

  simple_mode-Ensures :
      (log : Log Call) → Kept is v log → Ensures (Kept is v) (λ _. Kept is v) (simple_mode env log)
  unfolding simple_mode value_at
  simple_mode-Ensures log kept = ground (arith, kept)

  pub map_peripherals-Ensures :
      (log : Log Call) → Kept is v log → Ensures (Kept is v) Left (map_peripherals env log)
  unfolding map_peripherals
  map_peripherals-Ensures log kept =
      bind_mapped Page Left (mmap_ddr map_size intc_base_address true) _ log (λ l h. (h, tt))
        (mmap_ddr-Ensures intc_base_address true log refl kept)
        (λ intr l k1 i.
          bind_mapped Page Left (mmap_ddr map_size cdma_base_address true) _ l (λ l h. (h, tt))
            (mmap_ddr-Ensures cdma_base_address true l refl k1)
            (λ engine l k2 c.
              Ensures-bind (Kept is v) (λ _. Kept is v) Left simple_mode
                (λ _. map_buffers (first_pointers intr engine)) env l (simple_mode-Ensures l k2)
                (λ _ l k3. map_buffers-Ensures (first_pointers intr engine) l refl c.0 i.0 k3)))
