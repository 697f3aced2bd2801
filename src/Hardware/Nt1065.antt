-- ===== src/Hardware/Nt1065.antt =====
-- HardwareManager.cpp: ConfigureNT1065, which sends the parsed configuration to the RF chip.
pub mod Steps
pub mod Sends
use mzntapp_cpp.Base.{
  ℕ, suc, ◌*◌, ◌/◌, ◌%◌, ◌^◌, ◌≡◌, refl, Bool, true, false, arith, ◌==◌, ltb, if◌then◌else◌, List,
  [], ◌∷◌, Option, none, some, Text, length, inl, inr, Bool-cases,
}
use mzntapp_cpp.Io.{
  Io, Log, Env, failed, pure, exit, fault, ask, tell, ◌>>=◌, ◌>>◌, log_of, Silent, Silent-bind,
}
use mzntapp_cpp.Hardware.Calls.{
  Block, dev_mem, spi_write, Call, opens, maps, unmaps, closes, stores, map_size,
  spi_driver_base_address, spi_write_base_address, spi_read_base_address, stores_of,
}
use mzntapp_cpp.Hardware.Mapping.{page_of}
use mzntapp_cpp.Hardware.Conf.{parsed, crashes, parse_config}
use mzntapp_cpp.Hardware.Spi.{wait_idle, spi_command, read_words}

-- What the code finds outside itself: the file's lines if it opens, and what the stack held where
-- the buffer was not written.
pub record Given : Type 0 where
  pub conf_filename : Text
  pub contents : Option (List Text)
  pub junk : ℕ → ℕ

abbrev pub words_in : (ℕ → ℕ) → ℕ → List (Option ℕ) → List ℕ
words_in junk i [] = []
words_in junk i (none ∷ ws) = junk i ∷ words_in junk (suc i) ws
words_in junk i (some w ∷ ws) = w ∷ words_in junk (suc i) ws

-- `for (k = 0; k < 41; k++) *(mapped_spi_write + k) = SpiWrBuffer[k];`
unfoldable pub copy_words : List ℕ → ℕ → Io Call (Unit {0})
copy_words [] k = pure tt
copy_words (w ∷ ws) k = tell (stores spi_write (4 * k) w) >> copy_words ws (suc k)

-- The read-back loop compares and warns; it reads out of bounds for a register of 49 or more.
unfoldable pub check_words : List ℕ → Io Call (Unit {0})
check_words [] = pure tt
check_words (w ∷ ws) =
    let rest = check_words ws in if ltb (w / 2 ^ 8 % 2 ^ 8) 49 then rest else fault

-- The two instructions, each between waits, and the read-back.
unfoldable pub program_chip : ℕ → List ℕ → Io Call (Unit {0})
program_chip fuel ws = copy_words ws 0 >>= λ _. spi_command fuel 2 100 >>= λ _.
    wait_idle fuel >>= λ _.
    spi_command fuel 4 100 >>= λ _. wait_idle fuel >>= λ _. read_words 49 0 >>= λ _. check_words ws

-- Unmaps the pages in order and closes their files; stops at the first failure.
unfoldable pub unmap_all : List (ℕ × ℕ) → Io Call Bool
unmap_all [] = pure true
unmap_all ((base, fd) ∷ rest) = do
  result ← ask (unmaps base map_size)
  if result == failed then pure false else tell (closes fd) >> unmap_all rest

-- Opens and maps one page; `on_failure` is what the code does where either fails.
unfoldable pub open_page : ℕ → Io Call (Option (ℕ × ℕ)) → Io Call (Option (ℕ × ℕ))
open_page address on_failure = do
  fd ← ask (opens dev_mem)
  if fd == failed then on_failure else do
    base ← ask (maps map_size (page_of map_size address))
    if base == failed then on_failure else pure (some (base, fd))

-- After the three pages are there.
unfoldable pub send_config : ℕ → Given → List (ℕ × ℕ) → Io Call Bool
send_config fuel g pages = elim (parse_config g.conf_filename g.contents) [
  | none ↦ pure false
  | some p ↦ elim p [
    | crashes ↦ fault
    | parsed buffer ↦ program_chip fuel (words_in g.junk 0 buffer) >>= λ _. unmap_all pages
  ]
]

unfoldable pub with_page : Option (ℕ × ℕ) → ((ℕ × ℕ) → Io Call Bool) → Io Call Bool
with_page none k = pure false
with_page (some page) k = k page

-- The first two pages end the process where they cannot be had, the third returns false. The pages
-- are given back in the order write, read, driver.
unfoldable pub with_driver : ℕ → Given → (ℕ × ℕ) → (ℕ × ℕ) → Io Call Bool
with_driver fuel g write driver = open_page spi_read_base_address (pure none) >>= λ r.
    with_page r (λ read. send_config fuel g (write ∷ read ∷ driver ∷ []))

unfoldable pub with_write : ℕ → Given → (ℕ × ℕ) → Io Call Bool
with_write fuel g write =
    open_page spi_driver_base_address exit >>= λ d. with_page d (with_driver fuel g write)

unfoldable pub configure_nt1065 : ℕ → Given → Io Call Bool
configure_nt1065 fuel g =
    if length g.conf_filename == 0
    then pure false
    else (open_page spi_write_base_address exit >>= λ w. with_page w (with_write fuel g))

-- The stores of `copy_words`, the newest first.
abbrev pub word_stores : List ℕ → ℕ → List (Block × ℕ × ℕ) → List (Block × ℕ × ℕ)
word_stores [] k after = after
word_stores (w ∷ ws) k after = word_stores ws (suc k) ((spi_write, 4 * k, w) ∷ after)

-- `copy_words` writes each word of the buffer to its own register of the write block, in order.
pub copy_words-stores :
    (ws : List ℕ) (k : ℕ) (env : Env Call) (log : Log Call)
    → stores_of (log_of (copy_words ws k env log)) ≡ word_stores ws k (stores_of log)
unfolding copy_words
copy_words-stores [] k env log = refl
copy_words-stores (w ∷ ws) k env log =
    let c = stores spi_write (4 * k) w in copy_words-stores ws (suc k) env ((c, env log c) ∷ log)

module _ {X : Type 0} (view : Log Call → X) where
  pub open_page-Silent :
      (address : ℕ) (on_failure : Io Call (Option (ℕ × ℕ)))
      → ((n : ℕ) (l : Log Call) → view ((opens dev_mem, n) ∷ l) ≡ view l)
      → ((n a b : ℕ) (l : Log Call) → view ((maps a b, n) ∷ l) ≡ view l)
      → Silent view on_failure
      → Silent view (open_page address on_failure)
  unfolding open_page
  open_page-Silent address on_failure ho hm h env log =
      let fd = env log (opens dev_mem) in
      let l1 : Log Call = (opens dev_mem, fd) ∷ log in
      let page = page_of map_size address in
      let base = env l1 (maps map_size page) in
      let l2 : Log Call = (maps map_size page, base) ∷ l1 in
      ground (arith, ho fd log, hm base map_size page l1, h env l1, h env l2)

  pub with_page-Silent :
      (page : Option (ℕ × ℕ)) (k : (ℕ × ℕ) → Io Call Bool)
      → ((p : ℕ × ℕ) → Silent view (k p))
      → Silent view (with_page page k)
  unfolding with_page
  with_page-Silent none k h env log = refl
  with_page-Silent (some p) k h env log = h p env log

module _ (fuel : ℕ) (g : Given) (unread : parse_config g.conf_filename g.contents ≡ none) where
  send_config-Silent : (pages : List (ℕ × ℕ)) → Silent stores_of (send_config fuel g pages)
  unfolding send_config
  send_config-Silent pages env log = ground arith

  with_driver-Silent : (write driver : ℕ × ℕ) → Silent stores_of (with_driver fuel g write driver)
  unfolding with_driver
  with_driver-Silent write driver =
      Silent-bind stores_of (open_page spi_read_base_address (pure none))
        (λ r. with_page r (λ read. send_config fuel g (write ∷ read ∷ driver ∷ [])))
        (open_page-Silent stores_of spi_read_base_address (pure none) (λ n l. refl)
          (λ n a b l. refl) (λ env log. refl))
        (λ r.
          with_page-Silent stores_of r _ (λ read. send_config-Silent (write ∷ read ∷ driver ∷ [])))

  with_write-Silent : (write : ℕ × ℕ) → Silent stores_of (with_write fuel g write)
  unfolding with_write
  with_write-Silent write =
      Silent-bind stores_of (open_page spi_driver_base_address exit)
        (λ d. with_page d (with_driver fuel g write))
        (open_page-Silent stores_of spi_driver_base_address exit (λ n l. refl) (λ n a b l. refl)
          (λ env log. refl))
        (λ d. with_page-Silent stores_of d _ (with_driver-Silent write))

  -- Where there is no file name or the file does not open, no register is written, whatever happens
  -- to the mappings.
  pub configure_nt1065-Silent : Silent stores_of (configure_nt1065 fuel g)
  unfolding configure_nt1065
  configure_nt1065-Silent env log = elim (Bool-cases (length g.conf_filename == 0)) [
    | inl e ↦ rw e refl
    | inr e ↦ rw e (
        Silent-bind stores_of (open_page spi_write_base_address exit)
          (λ w. with_page w (with_write fuel g))
          (open_page-Silent stores_of spi_write_base_address exit (λ n l. refl) (λ n a b l. refl)
            (λ env log. refl))
          (λ w. with_page-Silent stores_of w _ with_write-Silent) env log)
  ]
