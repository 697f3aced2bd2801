-- ===== src/Hardware/Tests/Files.antt =====
-- WriterThread and ParseNTConfig, run.
use mzntapp_cpp.Base.{
  ℕ, ◌-◌, ◌%◌, ◌≡◌, ◌≤◌, Bool, true, false, ◌==◌, if◌then◌else◌, List, [], ◌∷◌, none, some, Text,
  codes, length, take, All, arith, ◌++◌,
}
use mzntapp_cpp.Hardware.Calls.{buffer_bytesize}
use mzntapp_cpp.Hardware.Writer.{
  set_size, set_dir, Config, run, start, max_file_size, last_if_filename,
}
use mzntapp_cpp.Hardware.Writer.Sizes.{Sized, IsFull, live, run-start-Inv}
use mzntapp_cpp.Hardware.Writer.Content.{channel, pieces_of, written_after, channel-run}
use mzntapp_cpp.Hardware.Writer.Cache.{slots, syncs, synced-run}
use mzntapp_cpp.Hardware.Writer.Names.{name_after, names_before, last_if_filename-run}
use mzntapp_cpp.Hardware.Conf.{parsed, parse_config, spi_words, line_word, strsep}
use mzntapp_cpp.Hardware.Conf.Fills.{IsWellFormed, words, filled, parse_config-fills}

abbrev config : Config
config = record { base_name = codes "IF"; split = true; num_out_files = 4; ddr_base = 1000 }

-- Two blocks are written and one is dropped.
abbrev turns : List (Bool × ℕ)
turns = (true, 1000) ∷ (false, 263144) ∷ (true, 525288) ∷ []

run-start_example :
    let w = run config (live turns) (start config) in
    Sized true w.bytes_written 0 w.files
    × All (IsFull true) w.closed
    × (w.bytes_written % buffer_bytesize ≡ 0)
    × (w.bytes_written ≤ max_file_size)
run-start_example = run-start-Inv config turns

channel-run_example :
    let w = run config (live turns) (start config) in
    channel config.num_out_files 2 (w.files ++ w.closed)
    ≡ pieces_of config.split 2 (written_after [] turns)
channel-run_example = channel-run config turns 2 (omega arith)

abbrev popped : List (Bool × ℕ)
popped = (true, 0) ∷ (false, 1) ∷ (true, 2) ∷ []

synced-run_example :
    (run config (live (slots 1000 popped)) (start config)).synced
    ≡ syncs (set_size buffer_bytesize ∷ set_dir ∷ []) popped
synced-run_example =
    synced-run config popped (omega arith) (omega arith, (omega arith, (omega arith, tt)))

last_if_filename_example :
    let w = run config (live turns) (start config) in
    (n : ℕ) × (w.history ≡ names_before (codes "IF") n)
    × (w.curr_name ≡ name_after (codes "IF") n)
    × (last_if_filename w.curr_name w.history ≡ (
        if n == 0
        then some (codes "IF")
        else if n == 1
        then none
        else some (name_after (codes "IF") (n - 2))))
last_if_filename_example = last_if_filename-run config (live turns)

-- A comment and two registers.
abbrev conf_lines : List Text
conf_lines = codes ";regs" ∷ codes "reg5\t1F" ∷ codes "reg12\tA0" ∷ []

conf_lines-IsWellFormed : All IsWellFormed conf_lines
unfolding line_word strsep
conf_lines-IsWellFormed = (λ c. absurd (cc c), (λ _ e. absurd (cc e), (λ _ e. absurd (cc e), tt)))

parse_config_example :
    parse_config (codes "conf") (some conf_lines)
    ≡ some (
        parsed (filled (take spi_words (words conf_lines)) (spi_words - length (words conf_lines))))
parse_config_example =
    parse_config-fills (codes "conf") conf_lines (λ e. absurd (omega (arith, e)))
      conf_lines-IsWellFormed
