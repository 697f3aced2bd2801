-- ===== src/Hardware/Tests/Config.antt =====
-- A configuration file with two registers, sent to the chip.
use mzntapp_cpp.Base.{
  ℕ, ◌/◌, ◌%◌, ◌^◌, ◌≡◌, refl, Bool, true, ltb, ltb→lt, ◌&&◌, List, [], ◌∷◌, Option, none, some,
  codes, arith, All, replicate, Bool-cases, inl, inr,
}
use mzntapp_cpp.Io.{Env}
use mzntapp_cpp.Hardware.Calls.{Call, opens, maps}
use mzntapp_cpp.Hardware.Conf.{
  parsed, parse_config, parse_lines, line_word, strsep, strtol_byte, skip_spaces, scan_digits,
  skip_prefix, signed_byte, digit_value,
}
use mzntapp_cpp.Hardware.Nt1065.{Given, words_in}
use mzntapp_cpp.Hardware.Nt1065.Steps.{IsServing, IsKnown}

-- Files open, pages map, and the SPI driver is idle.
abbrev pub serving : Env Call
serving log (opens f) = 5
serving log (maps n a) = 4096
serving log _ = 0

pub serving-IsServing : IsServing serving
serving-IsServing = record {
  opened = λ log e. absurd (omega (arith, e));
  mapped = λ log n p e. absurd (omega (arith, e));
  unmapped = λ log b n e. absurd (omega (arith, e));
  idle = λ log. refl;
}

-- A comment and two registers.
abbrev pub given : Given
given = record {
  conf_filename = codes "conf";
  contents = some (codes ";regs" ∷ codes "reg5\t1F" ∷ codes "reg12\tA0" ∷ []);
  junk = λ i. 0;
}

abbrev pub buffer : List (Option ℕ)
buffer = some 0x51F ∷ some 0xCA0 ∷ replicate 39 none

pub given-parsed : parse_config (codes "conf") given.contents ≡ some (parsed buffer)
unfolding parse_config parse_lines line_word strsep strtol_byte skip_spaces scan_digits skip_prefix
    signed_byte digit_value
given-parsed = refl

all_known : List ℕ → Bool
all_known [] = true
all_known (w ∷ ws) = ltb (w / 2 ^ 8 % 2 ^ 8) 49 && all_known ws

known : (ws : List ℕ) → all_known ws ≡ true → All IsKnown ws
unfolding all_known
known [] h = tt
known (w ∷ ws) h = elim (Bool-cases (ltb (w / 2 ^ 8 % 2 ^ 8) 49)) [
  | inl e ↦ (ltb→lt _ _ e, known ws (cc (simp e at h)))
  | inr e ↦ absurd (cc (simp e at h))
]

pub buffer-IsKnown : All IsKnown (words_in (λ i. 0) 0 buffer)
unfolding all_known
buffer-IsKnown = known (words_in (λ i. 0) 0 buffer) refl
