-- ===== src/Hardware/Life/Quiet.antt =====
-- ConfigureNT1065 and ConfigureFPGASettings do not write to the interrupt controller.
use mzntapp_cpp.Base.{
  ℕ, zero, suc, ◌+◌, refl, Bool, true, false, arith, ◌==◌, if◌then◌else◌, List, [], ◌∷◌, Option,
  none, some, length,
}
use mzntapp_cpp.Io.{Io, Log, pure, exit, fault, ◌>>=◌, Silent, Silent-poll, Silent-bind}
use mzntapp_cpp.Hardware.Calls.{
  intc, cdma, spi_driver, Call, opens, maps, unmaps, closes, loads, stores, dev_mem, map_size,
  spi_write_base_address, spi_driver_base_address, spi_read_base_address, gpio_base_address,
}
use mzntapp_cpp.Hardware.Mapping.{page_of}
use mzntapp_cpp.Hardware.Fpga.{Settings, program_mode, configure_fpga}
use mzntapp_cpp.Hardware.Conf.{Parse, parsed, crashes, parse_config}
use mzntapp_cpp.Hardware.Spi.{wait_idle, spi_command, read_words}
use mzntapp_cpp.Hardware.Nt1065.{
  Given, words_in, copy_words, check_words, program_chip, unmap_all, open_page, open_page-Silent,
  with_page-Silent, send_config, with_page, with_driver, with_write, configure_nt1065,
}

-- The writes to the interrupt controller, the newest first.
abbrev pub intc_stores : Log Call → List (ℕ × ℕ)
intc_stores [] = []
intc_stores ((stores intc r v, _) ∷ l) = (r, v) ∷ intc_stores l
intc_stores ((stores cdma r v, _) ∷ l) = intc_stores l
intc_stores (_ ∷ l) = intc_stores l

-- A program that leaves the interrupt controller alone.
abbrev pub Calm : {A : Type 0} → Io Call A → Type 0
Calm m = Silent intc_stores m

pure-Calm : {A : Type 0} (a : A) → Calm (pure a)
pure-Calm a env log = refl

if-Calm : {A : Type 0} (b : Bool) (m k : Io Call A) → Calm m → Calm k → Calm (if b then m else k)
if-Calm true m k hm hk = hm
if-Calm false m k hm hk = hk

wait_idle-Calm : (fuel : ℕ) → Calm (wait_idle fuel)
unfolding wait_idle
wait_idle-Calm fuel = Silent-poll intc_stores fuel (loads spi_driver 0) _ (λ n l. refl)

spi_command-Calm : (fuel instruction us : ℕ) → Calm (spi_command fuel instruction us)
unfolding spi_command
spi_command-Calm fuel instruction us =
    Silent-bind intc_stores (wait_idle fuel) _ (wait_idle-Calm fuel) (λ _ env log. refl)

read_words-Calm : (n i : ℕ) → Calm (read_words n i)
unfolding read_words
read_words-Calm zero i env log = refl
read_words-Calm (suc n) i env log =
    Silent-bind intc_stores (read_words n (i + 1)) (λ rest. pure (_ ∷ rest))
      (read_words-Calm n (i + 1)) (λ _ env log. refl) env _

copy_words-Calm : (ws : List ℕ) (k : ℕ) → Calm (copy_words ws k)
unfolding copy_words
copy_words-Calm [] k env log = refl
copy_words-Calm (w ∷ ws) k env log = copy_words-Calm ws (suc k) env _

check_words-Calm : (ws : List ℕ) → Calm (check_words ws)
unfolding check_words
check_words-Calm [] env log = refl
check_words-Calm (w ∷ ws) env log = ground (arith, check_words-Calm ws env log)

program_chip-Calm : (fuel : ℕ) (ws : List ℕ) → Calm (program_chip fuel ws)
unfolding program_chip
program_chip-Calm fuel ws = Silent-bind intc_stores (copy_words ws 0) _ (copy_words-Calm ws 0) (λ _.
    Silent-bind intc_stores (spi_command fuel 2 100) _ (spi_command-Calm fuel 2 100) (λ _.
      Silent-bind intc_stores (wait_idle fuel) _ (wait_idle-Calm fuel) (λ _.
        Silent-bind intc_stores (spi_command fuel 4 100) _ (spi_command-Calm fuel 4 100) (λ _.
          Silent-bind intc_stores (wait_idle fuel) _ (wait_idle-Calm fuel) (λ _.
            Silent-bind intc_stores (read_words 49 0) _ (read_words-Calm 49 0)
              (λ _. check_words-Calm ws))))))

unmap_all-Calm : (pages : List (ℕ × ℕ)) → Calm (unmap_all pages)
unfolding unmap_all
unmap_all-Calm [] env log = refl
unmap_all-Calm ((base, fd) ∷ rest) env log =
    let l1 : Log Call = (unmaps base map_size, env log (unmaps base map_size)) ∷ log in
    ground (arith, unmap_all-Calm rest env ((closes fd, env l1 (closes fd)) ∷ l1))

page-Calm :
    (address : ℕ) (on_failure : Io Call (Option (ℕ × ℕ)))
    → Calm on_failure
    → Calm (open_page address on_failure)
page-Calm address on_failure h =
    open_page-Silent intc_stores address on_failure (λ n l. refl) (λ n a b l. refl) h

program_mode-Calm : (s : Settings) → Calm (program_mode s)
unfolding program_mode
program_mode-Calm s env log = ground arith

pub configure_fpga-Calm : (s : Settings) → Calm (configure_fpga s)
unfolding configure_fpga
configure_fpga-Calm s env log =
    let fd = env log (opens dev_mem) in
    let map = maps map_size (page_of map_size gpio_base_address) in
    let l1 : Log Call = (opens dev_mem, fd) ∷ log in
    let l2 : Log Call = (map, env l1 map) ∷ l1 in ground (arith, program_mode-Calm s env l2)

module _ (fuel : ℕ) (g : Given) where
  program-Calm :
      (pages : List (ℕ × ℕ)) (ws : List ℕ) → Calm (program_chip fuel ws >>= λ _. unmap_all pages)
  program-Calm pages ws =
      Silent-bind intc_stores (program_chip fuel ws) (λ _. unmap_all pages)
        (program_chip-Calm fuel ws) (λ _. unmap_all-Calm pages)

  send_config-Calm : (pages : List (ℕ × ℕ)) → Calm (send_config fuel g pages)
  unfolding send_config
  send_config-Calm pages = go (parse_config g.conf_filename g.contents)
    where
      go :
          (r : Option Parse)
          → Calm (elim r [
            | none ↦ pure false
            | some p ↦ elim p [
              | crashes ↦ fault
              | parsed buffer ↦
                  program_chip fuel (words_in g.junk 0 buffer) >>= λ _. unmap_all pages
            ]
          ])
      go none = λ env log. refl
      go (some crashes) = λ env log. refl
      go (some (parsed buffer)) = program-Calm pages (words_in g.junk 0 buffer)

  with_driver-Calm : (write driver : ℕ × ℕ) → Calm (with_driver fuel g write driver)
  unfolding with_driver
  with_driver-Calm write driver =
      Silent-bind intc_stores (open_page spi_read_base_address (pure none))
        (λ r. with_page r (λ read. send_config fuel g (write ∷ read ∷ driver ∷ [])))
        (page-Calm spi_read_base_address (pure none) (λ env log. refl))
        (λ r.
          with_page-Silent intc_stores r _ (λ read. send_config-Calm (write ∷ read ∷ driver ∷ [])))

  with_write-Calm : (write : ℕ × ℕ) → Calm (with_write fuel g write)
  unfolding with_write
  with_write-Calm write =
      Silent-bind intc_stores (open_page spi_driver_base_address exit)
        (λ d. with_page d (with_driver fuel g write))
        (page-Calm spi_driver_base_address exit (λ env log. refl))
        (λ d. with_page-Silent intc_stores d _ (with_driver-Calm write))

  pub configure_nt1065-Calm : Calm (configure_nt1065 fuel g)
  unfolding configure_nt1065
  configure_nt1065-Calm =
      if-Calm (length g.conf_filename == 0) (pure false)
        (open_page spi_write_base_address exit >>= λ w. with_page w (with_write fuel g))
        (λ env log. refl)
        (Silent-bind intc_stores (open_page spi_write_base_address exit)
          (λ w. with_page w (with_write fuel g))
          (page-Calm spi_write_base_address exit (λ env log. refl))
          (λ w. with_page-Silent intc_stores w _ with_write-Calm))
