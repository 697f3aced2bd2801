-- ===== src/Hardware/Nt1065/Steps.antt =====
-- The steps of ConfigureNT1065 where everything is at hand: what each writes and takes.
use mzntapp_cpp.Base.{
  ℕ, zero, suc, ◌+◌, ◌*◌, ◌/◌, ◌%◌, ◌^◌, ◌<◌, ◌≡◌, ◌≢◌, refl, true, false, arith, ◌==◌, ltb, lt→ltb,
  List, [], ◌∷◌, Option, some, All, ap,
}
use mzntapp_cpp.Io.{Io, Log, Env, failed, pure, tell, ◌>>=◌, ◌>>◌, poll, Returns, Returns-bind}
use mzntapp_cpp.Hardware.Calls.{
  Block, dev_mem, spi_driver, spi_write, Call, opens, maps, unmaps, closes, stores, sleeps,
  map_size, stores_of,
}
use mzntapp_cpp.Hardware.Mapping.{page_of}
use mzntapp_cpp.Hardware.Spi.{wait_idle, spi_command, read_words}
use mzntapp_cpp.Hardware.Spi.Channels.{IsIdle}
use mzntapp_cpp.Hardware.Nt1065.{
  copy_words, check_words, program_chip, unmap_all, open_page, word_stores,
}

-- The calls that take and give back files and pages, the newest first.
abbrev pub pages_of : Log Call → List Call
pages_of [] = []
pages_of ((opens f, _) ∷ l) = opens f ∷ pages_of l
pages_of ((closes fd, _) ∷ l) = closes fd ∷ pages_of l
pages_of ((maps n p, _) ∷ l) = maps n p ∷ pages_of l
pages_of ((unmaps b n, _) ∷ l) = unmaps b n ∷ pages_of l
pages_of (_ ∷ l) = pages_of l

-- The device memory opens and can be mapped, pages can be given back, and the SPI driver is idle.
pub record IsServing (env : Env Call) : Type 0 where
  pub opened : (log : Log Call) → env log (opens dev_mem) ≢ failed
  pub mapped : (log : Log Call) (n p : ℕ) → env log (maps n p) ≢ failed
  pub unmapped : (log : Log Call) (b n : ℕ) → env log (unmaps b n) ≢ failed
  pub idle : IsIdle env

-- A register of the chip has one of the 49 numbers that are read back.
abbrev pub IsKnown : ℕ → Type 0
IsKnown w = w / 2 ^ 8 % 2 ^ 8 < 49

-- After some register writes and some calls for pages.
unfoldable pub At : List (Block × ℕ × ℕ) → List Call → Log Call → Type 0
At ss pp l = (stores_of l ≡ ss) × (pages_of l ≡ pp)

pub not_failed : (n : ℕ) → n ≢ failed → (n == failed) ≡ false
not_failed n h = ground (arith, h)

module _ (env : Env Call) (serving : IsServing env) (ss : List (Block × ℕ × ℕ))
    (pp : List Call) where
  pub open_page-Returns :
      (address : ℕ) (on_failure : Io Call (Option (ℕ × ℕ))) (log : Log Call)
      → At ss pp log
      → Returns (open_page address on_failure env log) λ r l.
        (base fd : ℕ) × (r ≡ some (base, fd))
        × At ss (maps map_size (page_of map_size address) ∷ opens dev_mem ∷ pp) l
  unfolding open_page At
  open_page-Returns address on_failure log (s, p) =
      let fd = env log (opens dev_mem) in
      let l : Log Call = (opens dev_mem, fd) ∷ log in
      let page = maps map_size (page_of map_size address) in
      rw (not_failed fd (serving.opened log), not_failed (env l page) (serving.mapped l _ _))
        (env l page, fd, refl, (s, ap (λ cs. page ∷ opens dev_mem ∷ cs) p))

  wait_idle-Returns :
      (fuel : ℕ) (log : Log Call)
      → At ss pp log
      → Returns (wait_idle (suc fuel) env log) (λ _. At ss pp)
  unfolding wait_idle poll At
  wait_idle-Returns fuel log (s, p) = ground (arith, serving.idle log, s, p)

  read_words-Returns :
      (n i : ℕ) (log : Log Call) → At ss pp log → Returns (read_words n i env log) (λ _. At ss pp)
  unfolding read_words At
  read_words-Returns zero i log a = a
  read_words-Returns (suc n) i log a =
      Returns-bind (λ _. At ss pp) (λ _. At ss pp) (read_words n (i + 1)) (λ rest. pure (_ ∷ rest))
        env _ (read_words-Returns n (i + 1) _ a) (λ _ l a'. a')

  check_words-Returns :
      (ws : List ℕ) (log : Log Call)
      → All IsKnown ws
      → At ss pp log
      → Returns (check_words ws env log) (λ _. At ss pp)
  unfolding check_words
  check_words-Returns [] log known a = a
  check_words-Returns (w ∷ ws) log (k, known) a =
      let e : ltb (w / 2 ^ 8 % 2 ^ 8) 49 ≡ true = lt→ltb _ 49 k in
      rw e (check_words-Returns ws log known a)

  spi_command-Returns :
      (fuel instruction us : ℕ) (log : Log Call)
      → At ss pp log
      → Returns
          (spi_command (suc fuel) instruction us env log)
          (λ _. At ((spi_driver, 0, 0) ∷ (spi_driver, 0, instruction) ∷ ss) pp)
  unfolding spi_command At
  spi_command-Returns fuel instruction us log a =
      Returns-bind (λ _. At ss pp)
        (λ _. At ((spi_driver, 0, 0) ∷ (spi_driver, 0, instruction) ∷ ss) pp) (wait_idle (suc fuel))
        (λ _. do
          tell (stores spi_driver 0 instruction)
          tell (sleeps us)
          tell (stores spi_driver 0 0))
        env log (wait_idle-Returns fuel log a)
        (λ _ l (s, p). (ap (λ k. (spi_driver, 0, 0) ∷ (spi_driver, 0, instruction) ∷ k) s, p))

-- What giving the pages back calls, after some calls.
abbrev pub given_back : List (ℕ × ℕ) → List Call → List Call
given_back [] pp = pp
given_back ((base, fd) ∷ rest) pp = given_back rest (closes fd ∷ unmaps base map_size ∷ pp)

-- The stores of the two instructions.
abbrev pub pulses : List (Block × ℕ × ℕ) → List (Block × ℕ × ℕ)
pulses ss = (spi_driver, 0, 0) ∷ (spi_driver, 0, 4) ∷ (spi_driver, 0, 0) ∷ (spi_driver, 0, 2) ∷ ss

module _ (env : Env Call) (serving : IsServing env) where
  copy_words-Returns :
      (ws : List ℕ) (k : ℕ) (ss : List (Block × ℕ × ℕ)) (pp : List Call) (log : Log Call)
      → At ss pp log
      → Returns (copy_words ws k env log) (λ _. At (word_stores ws k ss) pp)
  unfolding copy_words At
  copy_words-Returns [] k ss pp log a = a
  copy_words-Returns (w ∷ ws) k ss pp log (s, p) =
      copy_words-Returns ws (suc k) ((spi_write, 4 * k, w) ∷ ss) pp _
        (ap (λ l. (spi_write, 4 * k, w) ∷ l) s, p)

  pub unmap_all-Returns :
      (pages : List (ℕ × ℕ)) (ss : List (Block × ℕ × ℕ)) (pp : List Call) (log : Log Call)
      → At ss pp log
      → Returns (unmap_all pages env log) (λ ok l. (ok ≡ true) × At ss (given_back pages pp) l)
  unfolding unmap_all At
  unmap_all-Returns [] ss pp log a = (refl, a)
  unmap_all-Returns ((base, fd) ∷ rest) ss pp log (s, p) =
      rw (not_failed _ (serving.unmapped log base map_size)) (
        unmap_all-Returns rest ss (closes fd ∷ unmaps base map_size ∷ pp) _
          (s, ap (λ cs. closes fd ∷ unmaps base map_size ∷ cs) p))

  module _ (fuel : ℕ) (ws : List ℕ) (pp : List Call) where
    -- The parts of the instructions from the end on.
    read_back : Io Call (Unit {0})
    read_back = read_words 49 0 >>= λ _. check_words ws

    idle_read : Io Call (Unit {0})
    unfolding read_back
    idle_read = wait_idle (suc fuel) >>= λ _. read_back

    pulse_read : Io Call (Unit {0})
    unfolding idle_read
    pulse_read = spi_command (suc fuel) 4 100 >>= λ _. idle_read

    idle_pulse : Io Call (Unit {0})
    unfolding pulse_read
    idle_pulse = wait_idle (suc fuel) >>= λ _. pulse_read

    pulse_write : Io Call (Unit {0})
    unfolding idle_pulse
    pulse_write = spi_command (suc fuel) 2 100 >>= λ _. idle_pulse

    module _ (known : All IsKnown ws) where
      idle_read-Returns :
          (ss : List (Block × ℕ × ℕ)) (log : Log Call)
          → At ss pp log
          → Returns (idle_read env log) (λ _. At ss pp)
      unfolding idle_read read_back
      idle_read-Returns ss log a =
          Returns-bind (λ _. At ss pp) (λ _. At ss pp) (wait_idle (suc fuel)) (λ _. read_back) env
            log (wait_idle-Returns env serving ss pp fuel log a)
            (λ _ l a1.
              Returns-bind (λ _. At ss pp) (λ _. At ss pp) (read_words 49 0) (λ _. check_words ws)
                env l (read_words-Returns env serving ss pp 49 0 l a1)
                (λ _ l' a2. check_words-Returns env serving ss pp ws l' known a2))

      idle_pulse-Returns :
          (ss : List (Block × ℕ × ℕ)) (log : Log Call)
          → At ss pp log
          → Returns (idle_pulse env log) (λ _. At ((spi_driver, 0, 0) ∷ (spi_driver, 0, 4) ∷ ss) pp)
      unfolding idle_pulse pulse_read
      idle_pulse-Returns ss log a =
          let Q : Unit {0} → Log Call → Type 0 =
            λ _. At ((spi_driver, 0, 0) ∷ (spi_driver, 0, 4) ∷ ss) pp in
          Returns-bind (λ _. At ss pp) Q (wait_idle (suc fuel)) (λ _. pulse_read) env log
            (wait_idle-Returns env serving ss pp fuel log a)
            (λ _ l a1.
              Returns-bind Q Q (spi_command (suc fuel) 4 100) (λ _. idle_read) env l
                (spi_command-Returns env serving ss pp fuel 4 100 l a1)
                (λ _ l' a2. idle_read-Returns _ l' a2))

      pub program_chip-Returns :
          (ss : List (Block × ℕ × ℕ)) (log : Log Call)
          → At ss pp log
          → Returns (program_chip (suc fuel) ws env log) (λ _. At (pulses (word_stores ws 0 ss)) pp)
      unfolding program_chip pulse_write idle_pulse pulse_read idle_read read_back
      program_chip-Returns ss log a =
          let ss1 = word_stores ws 0 ss in
          let Q : Unit {0} → Log Call → Type 0 = λ _. At (pulses ss1) pp in
          Returns-bind (λ _. At ss1 pp) Q (copy_words ws 0) (λ _. pulse_write) env log
            (copy_words-Returns ws 0 ss pp log a)
            (λ _ l a1.
              Returns-bind (λ _. At ((spi_driver, 0, 0) ∷ (spi_driver, 0, 2) ∷ ss1) pp) Q
                (spi_command (suc fuel) 2 100) (λ _. idle_pulse) env l
                (spi_command-Returns env serving ss1 pp fuel 2 100 l a1)
                (λ _ l' a2. idle_pulse-Returns _ l' a2))
