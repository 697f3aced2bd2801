-- ===== src/Hardware/Life/Init.antt =====
-- HardwareManager.cpp: what InitializeHardware leaves, and what the destructor then gives back.
use mzntapp_cpp.Base.{
  ℕ, ◌≡◌, refl, Bool, true, false, not, ◌&&◌, ◌||◌, ◌∙◌, arith, ◌==◌, if◌then◌else◌, List, [], ◌∷◌,
  Option, none, some, Bool-cases, ◌⊎◌, inl, inr,
}
use mzntapp_cpp.Io.{
  Log, Env, Outcome, done, exited, hung, faulted, log_of, failed, pure, ◌>>=◌, Ensures,
  Ensures-bind, Returns, Returns-mono,
}
use mzntapp_cpp.Hardware.Calls.{
  intc, gpio, Call, opens, dev_mem, maps, unmaps, stores, map_size, intc_base_address,
  gpio_base_address, stores_of, value_at,
}
use mzntapp_cpp.Hardware.Mapping.{enable_interrupts, sie_offset, mer_offset}
use mzntapp_cpp.Hardware.Fpga.{
  Settings, programmed, configure_fpga, configure_fpga_lem, mode_word, reg1_offset, reg2_offset,
}
use mzntapp_cpp.Hardware.Nt1065.{Given, configure_nt1065}
use mzntapp_cpp.Hardware.Life.{
  Pointers, map_peripherals, configure_all, prepare, finish, if_enabled, initialize_hardware,
  released, released_pages,
}
use mzntapp_cpp.Hardware.Life.Quiet.{intc_stores, configure_fpga-Calm, configure_nt1065-Calm}
use mzntapp_cpp.Hardware.Life.Maps.{HasPages, On, AllMapped, Kept, map_peripherals-Ensures}

-- From what a view of the log keeps and what the program returns with.
both :
    {A X : Type 0} (view : Log Call → X) (x : X) (Q : A → Log Call → Type 0) (o : Outcome Call A)
    → view (log_of o) ≡ x
    → Returns o Q
    → Ensures (λ l. view l ≡ x) (λ a l. (view l ≡ x) × Q a l) o
both view x Q (done a l) e q = (e, q)
both view x Q (exited l) e q = e
both view x Q (hung l) e q = e
both view x Q (faulted l) e q = e

-- The last calls are two writes to the interrupt controller, and then a page that is given back.
abbrev pub ends_enabling : Log Call → Bool
ends_enabling ((unmaps p n, _) ∷ (stores intc r v, _) ∷ (stores intc r' v', _) ∷ l) = true
ends_enabling ((opens f, _) ∷ l) = false
ends_enabling _ = false

module _ (env : Env Call) (is : List (ℕ × ℕ)) (s : Settings) where
  -- The mode register has the word of the settings where the configuration succeeds.
  abbrev Mode : Bool → Log Call → Type 0
  Mode ok l = ok ≡ true → value_at gpio reg2_offset (stores_of l) ≡ some (mode_word s)

  abbrev Configured : Bool → Log Call → Type 0
  Configured ok l = (intc_stores l ≡ is) × Mode ok l

  configure_fpga-Mode : (log : Log Call) → Returns (configure_fpga s env log) Mode
  configure_fpga-Mode log =
      let fd = env log (opens dev_mem) in
      let base = env ((opens dev_mem, fd) ∷ log) (maps map_size gpio_base_address) in
      let absent = (fd == failed) || (base == failed) in
      let l3 =
        programmed s env ((maps map_size gpio_base_address, base) ∷ (opens dev_mem, fd) ∷ log) in
      Returns-mono
        (λ ok l.
          (ok ≡ (not absent && not (env l3 (unmaps base map_size) == failed)))
          × (value_at gpio reg1_offset (stores_of l) ≡ (
              if absent
              then value_at gpio reg1_offset (stores_of log)
              else some s.resamp_threshold))
          × (value_at gpio reg2_offset (stores_of l)
              ≡ (if absent then value_at gpio reg2_offset (stores_of log) else some (mode_word s))))
        Mode (configure_fpga s env log)
        (λ ok l (a, b, c) h. elim (Bool-cases absent) [
          | inl e ↦ cc (rw e at a, h)
          | inr e ↦ c ∙ rw e refl
        ])
        (configure_fpga_lem s env log)

  configure_fpga-Ensures :
      (log : Log Call)
      → intc_stores log ≡ is
      → Ensures (λ l. intc_stores l ≡ is) Configured (configure_fpga s env log)
  configure_fpga-Ensures log e =
      both intc_stores is Mode (configure_fpga s env log) (configure_fpga-Calm s env log ∙ e)
        (configure_fpga-Mode log)

  configure_all-Ensures :
      (fuel : ℕ) (g : Given) (log : Log Call)
      → intc_stores log ≡ is
      → Ensures (λ l. intc_stores l ≡ is) Configured (configure_all fuel g s env log)
  unfolding configure_all
  configure_all-Ensures fuel g log e =
      Ensures-bind (λ l. intc_stores l ≡ is) (λ _ l. intc_stores l ≡ is) Configured
        (configure_nt1065 fuel g) (λ ok. if ok then configure_fpga s else pure false) env log
        (kept (configure_nt1065 fuel g env log) (configure_nt1065-Calm fuel g env log ∙ e)) go
    where
      kept :
          (o : Outcome Call Bool)
          → intc_stores (log_of o) ≡ is
          → Ensures (λ l. intc_stores l ≡ is) (λ _ l. intc_stores l ≡ is) o
      kept (done a l) h = h
      kept (exited l) h = h
      kept (hung l) h = h
      kept (faulted l) h = h

      go :
          (ok : Bool) (l : Log Call)
          → intc_stores l ≡ is
          → Ensures
              (λ l. intc_stores l ≡ is)
              Configured
              ((if ok then configure_fpga s else pure false) env l)
      go true l h = configure_fpga-Ensures l h
      go false l h = (h, λ f. cc f)

  -- After all steps but the last.
  abbrev Prepared : Option Pointers → Log Call → Type 0
  Prepared none l = intc_stores l ≡ is
  Prepared (some p) l = Kept is (some (mode_word s)) l × AllMapped p

  weaken :
      (v : Option ℕ) (o : Outcome Call (Option Pointers))
      → v ≡ some (mode_word s)
      → Ensures (Kept is v) (λ r l. Kept is v l × On AllMapped r) o
      → Ensures (λ l. intc_stores l ≡ is) Prepared o
  weaken v (done none l) e h = h.0.0
  weaken v (done (some p) l) e h = ((h.0.0, h.0.1 ∙ e), h.1)
  weaken v (exited l) e h = h.0
  weaken v (hung l) e h = h.0
  weaken v (faulted l) e h = h.0

  prepare-Ensures :
      (fuel : ℕ) (g : Given) (log : Log Call)
      → HasPages env
      → intc_stores log ≡ is
      → Ensures (λ l. intc_stores l ≡ is) Prepared (prepare fuel g s env log)
  unfolding prepare
  prepare-Ensures fuel g log pages e =
      Ensures-bind (λ l. intc_stores l ≡ is) Configured Prepared (configure_all fuel g s)
        (λ ok. if ok then map_peripherals else pure none) env log
        (configure_all-Ensures fuel g log e) go
    where
      go :
          (ok : Bool) (l : Log Call)
          → Configured ok l
          → Ensures
              (λ l. intc_stores l ≡ is)
              Prepared
              ((if ok then map_peripherals else pure none) env l)
      go true l (h, m) =
          weaken (value_at gpio reg2_offset (stores_of l)) (map_peripherals env l) (m refl) (
            map_peripherals-Ensures env pages is (value_at gpio reg2_offset (stores_of l)) l
              (h, refl))
      go false l (h, m) = h

  -- Both interrupt inputs enabled, then the master bits; the newest write first.
  abbrev enabled : List (ℕ × ℕ)
  enabled = (mer_offset, 3) ∷ (sie_offset, 3) ∷ is

  -- The controller was written to at the end: its page was given back last, after both writes.
  abbrev pub EndsEnabled : Log Call → Type 0
  EndsEnabled l = (intc_stores l ≡ enabled) × (ends_enabling l ≡ true)

  -- What a finished initialisation leaves.
  abbrev pub Initialized : Option Pointers → Log Call → Type 0
  Initialized none l = (intc_stores l ≡ is) ⊎ EndsEnabled l
  Initialized (some p) l =
      EndsEnabled l
      × (value_at gpio reg2_offset (stores_of l) ≡ some (mode_word s))
      × (released p ≡ p.ddr_base_off ∷ 0 ∷ 0 ∷ p.spi_base ∷ p.spi_read ∷ p.spi_write ∷ [])

  enable_interrupts-Returns :
      (v : Option ℕ) (log : Log Call)
      → HasPages env
      → Kept is v log
      → Returns (enable_interrupts env log) (λ ok l.
        (value_at gpio reg2_offset (stores_of l) ≡ v)
        × (EndsEnabled l ⊎ ((ok ≡ false) × (intc_stores l ≡ is))))
  unfolding enable_interrupts value_at
  enable_interrupts-Returns v log pages kept =
      let l1 : Log Call = (opens dev_mem, env log (opens dev_mem)) ∷ log in
      ground (arith, kept, pages.nonzero l1 map_size intc_base_address)

  finish-Ensures :
      (r : Option Pointers) (log : Log Call)
      → HasPages env
      → Prepared r log
      → Ensures (λ l. intc_stores l ≡ is) Initialized (finish r env log)
  unfolding finish
  finish-Ensures none log pages h = inl h
  finish-Ensures (some p) log pages (kept, m) =
      go (enable_interrupts env log) (enable_interrupts-Returns (some (mode_word s)) log pages kept)
    where
      go :
          (o : Outcome Call Bool)
          → Returns o (λ ok l.
            (value_at gpio reg2_offset (stores_of l) ≡ some (mode_word s))
            × (EndsEnabled l ⊎ ((ok ≡ false) × (intc_stores l ≡ is))))
          → Ensures
              (λ l. intc_stores l ≡ is)
              Initialized
              (◌>>=◌ {C = Call} {A = Bool} {B = Option Pointers}
                (λ _ _. o)
                (λ ok. pure (if_enabled p ok))
                env
                log)
      go (done true l) (e, inl h) = (
        h,
        e,
        released_pages p m.ddr_base_null m.ddr m.dma m.interrupts m.driver m.reads m.writes,
      )
      go (done true l) (e, inr h) = cc (h.0)
      go (done false l) (e, inl h) = inr h
      go (done false l) (e, inr h) = inl h.1
      go (exited l) q = absurd q
      go (hung l) q = absurd q
      go (faulted l) q = absurd q

-- Where the kernel answers every request for a page with an address that is not null,
-- InitializeHardware touches the interrupt controller in its last step only: wherever it is cut
-- short before, nothing was written there. Where it succeeds, it has enabled both interrupt inputs
-- and then the master bits, and its last call, just after these two writes, gives the controller's page
-- back; the mode register holds the word of the settings, and the pointers are such that the
-- destructor hands the ring and the SPI pages to `munmap`, but the null pointer in place of the pages
-- of the DMA engine and of the interrupt controller. Where it fails, either nothing was written to the
-- controller, or the same two writes and the call that gives the page back were its last calls.
pub initialize_hardware-Ensures :
    (fuel : ℕ) (g : Given) (s : Settings) (env : Env Call) (log : Log Call)
    → HasPages env
    → Ensures
        (λ l. intc_stores l ≡ intc_stores log)
        (Initialized env (intc_stores log) s)
        (initialize_hardware fuel g s env log)
unfolding initialize_hardware
initialize_hardware-Ensures fuel g s env log pages =
    let is = intc_stores log in
    Ensures-bind (λ l. intc_stores l ≡ is) (Prepared env is s) (Initialized env is s)
      (prepare fuel g s) finish env log (prepare-Ensures env is s fuel g log pages refl)
      (λ r l. finish-Ensures env is s r l pages)
