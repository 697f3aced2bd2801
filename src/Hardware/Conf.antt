-- ===== src/Hardware/Conf.antt =====
-- HardwareManager.cpp: ParseNTConfig. The file is the list of its lines, as `getline` returns them.
pub mod Fills
use mzntapp_cpp.Base.{
  ℕ, zero, suc, ◌+◌, ◌-◌, ◌*◌, ◌%◌, ◌^◌, ◌≡◌, refl, Bool, true, false, ◌&&◌, ◌||◌, arith, ◌==◌, ltb,
  leb, if◌then◌else◌, List, [], ◌∷◌, ◌++◌, Option, none, some, Text, codes, set, drop, length,
  replicate,
}

-- `strsep(&line, "\t ")`: the text before the first tab or space, and what follows it. `none` is
-- the null pointer.
pub record Split : Type 0 where
  pub token : Text
  pub rest : Option Text

abbrev pub is_separator : ℕ → Bool
is_separator c = c == b'\t' || c == b' '

abbrev pub prepend : ℕ → Split → Split
prepend c s = record { token = c ∷ s.token; rest = s.rest }

unfoldable pub strsep : Text → Split
strsep [] = record { token = []; rest = none }
strsep (c ∷ cs) =
    let later = prepend c (strsep cs) in
    if is_separator c then record { token = []; rest = some cs } else later

-- The value of a digit in a base up to 16.
unfoldable pub digit_value : ℕ → ℕ → Option ℕ
digit_value base c =
    let v : ℕ =
      if leb b'0' c && leb c b'9'
      then c - b'0'
      else if leb b'a' c && leb c b'f'
      then c - b'a' + 10
      else if leb b'A' c && leb c b'F'
      then c - b'A' + 10
      else 16 in
    if ltb v base then some v else none

-- The longest prefix of digits; a `long` saturates at `limit`.
unfoldable pub scan_digits : ℕ → ℕ → ℕ → Text → ℕ
unfolding digit_value
scan_digits base limit acc [] = acc
scan_digits base limit acc (c ∷ cs) = elim (digit_value base c) [
  | none ↦ acc
  | some v ↦
      scan_digits base limit (if ltb limit (acc * base + v) then limit else acc * base + v) cs
]

abbrev pub is_space : ℕ → Bool
is_space c = c == b' ' || leb 9 c && leb c 13

unfoldable pub skip_spaces : Text → Text
skip_spaces [] = []
skip_spaces (c ∷ cs) = let rest = skip_spaces cs in if is_space c then rest else c ∷ cs

-- In base 16 a prefix 0x before a digit is skipped.
unfoldable pub skip_prefix : ℕ → Text → Text
unfolding digit_value
skip_prefix base (z ∷ x ∷ d ∷ cs) = elim (digit_value base d) [
  | none ↦ z ∷ x ∷ d ∷ cs
  | some _ ↦ if base == 16 && z == b'0' && (x == b'x' || x == b'X') then d ∷ cs else z ∷ x ∷ d ∷ cs
]
skip_prefix base s = s

unfoldable pub signed_byte : ℕ → Text → ℕ
unfolding scan_digits skip_prefix
signed_byte base [] = 0
signed_byte base (c ∷ cs) =
    if c == b'-'
    then (2 ^ 8 - scan_digits base (2 ^ 31) 0 (skip_prefix base cs) % 2 ^ 8) % 2 ^ 8
    else if c == b'+'
    then scan_digits base (2 ^ 31 - 1) 0 (skip_prefix base cs) % 2 ^ 8
    else scan_digits base (2 ^ 31 - 1) 0 (skip_prefix base (c ∷ cs)) % 2 ^ 8

-- `(uint8_t)strtol(s, &end, base)`, with a `long` of 32 bits.
unfoldable pub strtol_byte : ℕ → Text → ℕ
unfolding signed_byte skip_spaces
strtol_byte base s = signed_byte base (skip_spaces s)

pub data Parse : Type 0 where
  parsed : List (Option ℕ) → Parse
  -- A line has no second field, or is too short to hold a number: the code reads a null pointer or
  -- past the end of the line. Or a word is written outside the buffer.
  crashes : Parse

-- `0 | regnum << 8 | valnum`
abbrev pub word_of : ℕ → ℕ → ℕ
word_of regnum valnum = regnum * 2 ^ 8 + valnum

-- The text at `&reg[3]`: after a field of fewer than three characters it lies in what follows the
-- separator, and past the end of a line that is too short.
abbrev pub number_field : Text → Text → Option Text
number_field token more =
    if ltb (length token) 3
    then (if ltb (length more) (2 - length token)
        then none
        else some (drop (2 - length token) more))
    else some (drop 3 token)

-- The word of a line that is no comment.
unfoldable pub line_word : Text → Option ℕ
line_word line =
    let s = strsep line in
    elim s.rest [
      | none ↦ none
      | some more ↦ elim (number_field s.token more) [
        | none ↦ none
        | some number ↦ some (word_of (strtol_byte 10 number) (strtol_byte 16 (strsep more).token))
      ]
    ]

abbrev pub is_comment : Text → Bool
is_comment [] = false
is_comment (c ∷ cs) = c == b';'

abbrev pub spi_words : ℕ
spi_words = 41

-- The lines from some line on, with the buffer and the index `i`. An unwritten word is `none`; the
-- loop ends where a word would not fit. A write outside the buffer, which that test is to rule out,
-- would be a crash.
unfoldable pub parse_lines : List Text → List (Option ℕ) → ℕ → Parse
parse_lines [] buffer i = parsed buffer
parse_lines (line ∷ lines) buffer i =
    let skipped = parse_lines lines buffer i in
    if is_comment line then skipped else elim (line_word line) [
      | none ↦ crashes
      | some w ↦
          if ltb 40 i
          then parsed buffer
          else if ltb i (length buffer)
          then parse_lines lines (set buffer i (some w)) (suc i)
          else crashes
    ]

-- `none` where the code returns false: no file name, or the file does not open.
unfoldable pub parse_config : Text → Option (List Text) → Option Parse
parse_config filename contents = if length filename == 0 then none else elim contents [
  | none ↦ none
  | some lines ↦ some (parse_lines lines (replicate spi_words none) 0)
]
