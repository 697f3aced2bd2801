-- ===== src/Hardware/Nt1065/Sends.antt =====
-- ConfigureNT1065 where everything is at hand: what it writes, and that it gives back what it took.
use mzntapp_cpp.Base.{ℕ, suc, ◌≡◌, refl, Bool, true, List, [], ◌∷◌, Option, some, All}
use mzntapp_cpp.Io.{Log, Env, ◌>>=◌}
use mzntapp_cpp.Hardware.Calls.{
  Block, dev_mem, Call, opens, maps, map_size, spi_driver_base_address, spi_write_base_address,
  spi_read_base_address,
}
use mzntapp_cpp.Hardware.Mapping.{page_of}
use mzntapp_cpp.Hardware.Conf.{parsed, parse_config}
use mzntapp_cpp.Hardware.Nt1065.{Given, words_in, program_chip, unmap_all, send_config, word_stores}
use mzntapp_cpp.Hardware.Nt1065.Steps.{IsServing, IsKnown, At, given_back, pulses}

-- The calls for a page.
abbrev pub taken : ℕ → List Call → List Call
taken address pp = maps map_size (page_of map_size address) ∷ opens dev_mem ∷ pp

module _ (env : Env Call) (serving : IsServing env) (fuel : ℕ) (g : Given)
    (buffer : List (Option ℕ))
    (read_in : parse_config g.conf_filename g.contents ≡ some (parsed buffer))
    (known : All IsKnown (words_in g.junk 0 buffer)) where
  written : List (Block × ℕ × ℕ)
  written = pulses (word_stores (words_in g.junk 0 buffer) 0 [])

  sends :
      (pages : List (ℕ × ℕ))
      → send_config (suc fuel) g pages
        ≡ (program_chip (suc fuel) (words_in g.junk 0 buffer) >>= λ _. unmap_all pages)
  unfolding send_config
  sends pages = rw (read_in, send_config) refl

  -- The three pages are taken in the order write, driver, read.
  GivenBack : Bool → Log Call → Type 0
  GivenBack ok l =
      (ok ≡ true)
      × (write driver read : ℕ × ℕ) × At written
          (given_back (write ∷ read ∷ driver ∷ []) (
            taken spi_read_base_address
              (taken spi_driver_base_address (taken spi_write_base_address []))))
          l
