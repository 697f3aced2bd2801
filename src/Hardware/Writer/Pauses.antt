-- ===== src/Hardware/Writer/Pauses.antt =====
-- WriterThread while writing is off: blocks come and go, and the files stay as they are.
use mzntapp_cpp.Base.{ℕ, ◌<◌, ◌≡◌, refl, ◌∙◌, Bool, false, arith, List, [], ◌∷◌, ◌++◌, some, subst}
use mzntapp_cpp.Hardware.Writer.{
  Config, Writer, max_file_size, maybe_break, check_limits, goes_on, round, run,
}
use mzntapp_cpp.Hardware.Writer.Sizes.{live, Inv, round-Inv}

-- Blocks that come while writing is off.
abbrev pub offs : List ℕ → List (Bool × ℕ)
offs [] = []
offs (p ∷ ps) = (false, p) ∷ offs ps

maybe_break-quiet : (c : Config) (w : Writer) → w.break_signal ≡ false → maybe_break c w ≡ w
unfolding maybe_break
maybe_break-quiet c w quiet = rw quiet refl

round-offs :
    (c : Config) (p : ℕ) (w : Writer)
    → w.break_signal ≡ false
    → w.bytes_written < max_file_size
    → (w' : Writer) × (round c false (some p) w ≡ goes_on w')
      × (w'.break_signal ≡ false)
      × (w'.bytes_written ≡ w.bytes_written)
unfolding round check_limits
round-offs c p w quiet small =
    let same = maybe_break-quiet c w quiet in
    (_, refl, rw same (ground (arith, quiet, small)), rw same refl)

run-offs :
    (c : Config) (ps : List ℕ) (w : Writer)
    → w.break_signal ≡ false
    → w.bytes_written < max_file_size
    → (run c (live (offs ps)) w).bytes_written ≡ w.bytes_written
unfolding run
run-offs c [] w quiet small = refl
run-offs c (p ∷ ps) w quiet small =
    let (w', e, q, b) = round-offs c p w quiet small in
    rw (e, run) (run-offs c ps w' q (omega (arith, b, small)) ∙ b)

pub run-paused :
    (c : Config) (rs : List (Bool × ℕ)) (ps : List ℕ) (w : Writer)
    → Inv c w
    → (run c (live rs) w).bytes_written < max_file_size
    → (run c (live (rs ++ offs ps)) w).bytes_written ≡ (run c (live rs) w).bytes_written
unfolding run
run-paused c [] ps w v small = run-offs c ps w (ground (arith, v.breaks, small)) small
run-paused c ((on, p) ∷ rs) ps w v small =
    let (w', e, v') = round-Inv c on p w v in
    let first : run c (live ((on, p) ∷ rs)) w ≡ run c (live rs) w' = rw (e, run) refl in
    rw (e, run)
      (run-paused c rs ps w' v' (subst (λ u. u.bytes_written < max_file_size) first small))
