-- ===== src/Hardware/Conf/Fills.antt =====
-- What ParseNTConfig leaves in the buffer.
use mzntapp_cpp.Base.{
  ℕ, zero, suc, ◌+◌, ◌-◌, ◌≡◌, ◌≢◌, refl, false, arith, ltb, if◌then◌else◌, List, [], ◌∷◌, ◌++◌,
  Option, none, some, Text, set, take, length, replicate, map, All, Bool-cases, Option-cases, inl,
  inr, ◌<◌, length-append, append_assoc, append-nil, ap, ap₂, sym, lt→ltb, le→ltb,
}
use mzntapp_cpp.Hardware.Conf.{
  parsed, crashes, line_word, is_comment, spi_words, parse_lines, parse_config,
}

-- Every line is a comment or has a word.
abbrev pub IsWellFormed : Text → Type 0
IsWellFormed line = (is_comment line ≡ false) → line_word line ≢ none

-- The words of the lines that are no comments, in order.
unfoldable pub words : List Text → List ℕ
words [] = []
words (line ∷ lines) =
    if is_comment line
    then words lines
    else elim (line_word line) [ none ↦ words lines | some w ↦ w ∷ words lines ]

abbrev pub filled : List ℕ → ℕ → List (Option ℕ)
filled ws n = map some ws ++ replicate n none

set-filled :
    (ws : List ℕ) (n : ℕ) (w : ℕ)
    → set (filled ws (suc n)) (length ws) (some w) ≡ filled (ws ++ w ∷ []) n
set-filled [] n w = refl
set-filled (x ∷ ws) n w = ap (◌∷◌ (some x)) (set-filled ws n w)

room : (ws : List ℕ) (n : ℕ) → length ws < length (filled ws (suc n))
room [] n = omega arith
room (x ∷ ws) n = omega (arith, room ws n)

parsed_eq :
    {xs ys : List ℕ} (m k : ℕ) → xs ≡ ys → m ≡ k → parsed (filled xs m) ≡ parsed (filled ys k)
parsed_eq m k p q = ap₂ (λ l n. parsed (filled l n)) p q

-- One more word: it is written where the buffer has room, and ends the loop where it has none.
placed :
    (lines : List Text) (ws : List ℕ) (n w : ℕ)
    → length ws + n ≡ spi_words
    → ((m : ℕ)
        → n ≡ suc m
        → parse_lines lines (filled (ws ++ w ∷ []) m) (length (ws ++ w ∷ []))
          ≡ parsed (filled ((ws ++ w ∷ []) ++ take m (words lines)) (m - length (words lines))))
    → (if ltb 40 (length ws)
        then parsed (filled ws n)
        else if ltb (length ws) (length (filled ws n))
        then parse_lines lines (set (filled ws n) (length ws) (some w)) (suc (length ws))
        else crashes)
      ≡ parsed (filled (ws ++ take n (w ∷ words lines)) (n - suc (length (words lines))))
placed lines ws zero w e more =
    rw (lt→ltb 40 (length ws) (omega arith))
      (parsed_eq 0 (0 - suc (length (words lines))) (sym (append-nil ws)) (omega arith))
placed lines ws (suc m) w e more =
    let size : length (ws ++ w ∷ []) ≡ suc (length ws) = omega (arith, length-append ws (w ∷ [])) in
    rw
      (
        le→ltb 40 (length ws) (omega arith),
        lt→ltb (length ws) _ (room ws m),
        set-filled ws m w,
        ← size,
        more m refl,
        append_assoc,
      )
      (ap (λ k. parsed (filled (ws ++ (w ∷ take m (words lines))) k)) (omega arith))

parse_lines-filled :
    (lines : List Text) (ws : List ℕ) (n : ℕ)
    → All IsWellFormed lines
    → length ws + n ≡ spi_words
    → parse_lines lines (filled ws n) (length ws)
      ≡ parsed (filled (ws ++ take n (words lines)) (n - length (words lines)))
unfolding parse_lines words
parse_lines-filled [] ws zero wf e = parsed_eq 0 (0 - 0) (sym (append-nil ws)) (omega arith)
parse_lines-filled [] ws (suc n) wf e =
    parsed_eq (suc n) (suc n - 0) (sym (append-nil ws)) (omega arith)
parse_lines-filled (line ∷ lines) ws n (h, wf) e = elim (Bool-cases (is_comment line)) [
  | inl c ↦ rw c (parse_lines-filled lines ws n wf e)
  | inr c ↦ elim (Option-cases (line_word line)) [
    | inl o ↦ absurd (h c o)
    | inr (w, o) ↦
        rw (c, o)
          (placed lines ws n w e (λ m f.
            parse_lines-filled lines (ws ++ w ∷ []) m wf
              (omega (arith, length-append ws (w ∷ [])))))
  ]
]

-- A file of well-formed lines, whose name is not empty, fills the buffer with the words of its lines
-- that are no comments, in order: the first 41 of them, and what they leave free stays unwritten. So
-- it is parsed to the end, and no write is out of bounds, which would be a crash.
pub parse_config-fills :
    (name : Text) (lines : List Text)
    → length name ≢ 0
    → All IsWellFormed lines
    → parse_config name (some lines)
      ≡ some (parsed (filled (take spi_words (words lines)) (spi_words - length (words lines))))
unfolding parse_config
parse_config-fills name lines named wf =
    ground (arith, parse_lines-filled lines [] spi_words wf refl)
