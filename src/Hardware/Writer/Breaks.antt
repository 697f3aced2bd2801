-- ===== src/Hardware/Writer/Breaks.antt =====
-- How many file breaks there have been, and how many blocks were written, in WriterThread of
-- src/HardwareManager.cpp.
use mzntapp_cpp.Base.{
  ℕ, suc, ◌+◌, ◌*◌, ◌≤◌, ◌≡◌, refl, subst, Bool, true, false, if◌then◌else◌, arith, List, [], ◌∷◌,
  some, length, length-append,
}
use mzntapp_cpp.Hardware.Calls.{buffer_bytesize}
use mzntapp_cpp.Hardware.Writer.{
  Config, Writer, goes_on, max_file_size, start, break_files, maybe_break, write_block,
  check_limits, round, run,
}
use mzntapp_cpp.Hardware.Writer.Sizes.{live, Inv, start-Inv, round-Inv, full_at_break}
use mzntapp_cpp.Hardware.Writer.Content.{written_after}

-- `m` blocks stand in the open files and in full files, one for each name in the history.
Counted : ℕ → Writer → Type 0
Counted m w = w.bytes_written + length w.history * max_file_size ≡ buffer_bytesize * m

maybe_break-Counted :
    (c : Config) (m : ℕ) (w : Writer) → Inv c w → Counted m w → Counted m (maybe_break c w)
unfolding maybe_break break_files Counted
maybe_break-Counted c m w v e = broken w.break_signal refl
  where
    broken : (b : Bool) → w.break_signal ≡ b → Counted m (if b then break_files c w else w)
    broken true h =
        omega (arith, e, full_at_break c w v h, length-append w.history (w.curr_name ∷ []))
    broken false h = e

maybe_break-small :
    (c : Config) (w : Writer) → Inv c w → (maybe_break c w).bytes_written ≤ max_file_size
unfolding maybe_break break_files
maybe_break-small c w v = broken w.break_signal
  where
    broken : (b : Bool) → (if b then break_files c w else w).bytes_written ≤ max_file_size
    broken true = omega arith
    broken false = v.small

round-Counted :
    (c : Config) (on : Bool) (p m : ℕ) (w : Writer)
    → Inv c w
    → Counted m w
    → (w' : Writer) × (round c on (some p) w ≡ goes_on w') × Counted (if on then suc m else m) w'
unfolding round check_limits write_block Counted
round-Counted c true p m w v e =
    (_, refl, omega (arith, maybe_break-Counted c m w v e, maybe_break-small c w v))
round-Counted c false p m w v e = (_, refl, maybe_break-Counted c m w v e)

round-both :
    (c : Config) (on : Bool) (p m : ℕ) (w : Writer)
    → Inv c w
    → Counted m w
    → (w' : Writer) × (round c on (some p) w ≡ goes_on w')
      × Inv c w'
      × Counted (if on then suc m else m) w'
round-both c on p m w v e =
    let (w1, e1, v1) = round-Inv c on p w v in
    let (w2, e2, k2) = round-Counted c on p m w v e in
    let same : w1 ≡ w2 = cc (e1, e2) in (w2, e2, subst (Inv c) same v1, k2)

run-Counted :
    (c : Config) (rs : List (Bool × ℕ)) (ps : List ℕ) (w : Writer)
    → Inv c w
    → Counted (length ps) w
    → Counted (length (written_after ps rs)) (run c (live rs) w)
unfolding run
run-Counted c [] ps w v e = e
run-Counted c ((true, p) ∷ rs) ps w v e =
    let (w', e', v', k) = round-both c true p (length ps) w v e in
    rw (e', run) (run-Counted c rs (p ∷ ps) w' v' k)
run-Counted c ((false, p) ∷ rs) ps w v e =
    let (w', e', v', k) = round-both c false p (length ps) w v e in
    rw (e', run) (run-Counted c rs ps w' v' k)

-- Over every sequence of rounds: the blocks that were popped while writing was on are those of the
-- open files, whose bytes are counted, and of full files, one for each file break.
pub counted-run :
    (c : Config) (rs : List (Bool × ℕ))
    → let w = run c (live rs) (start c) in
      w.bytes_written + length w.history * max_file_size
      ≡ buffer_bytesize * length (written_after [] rs)
unfolding Counted start
counted-run c rs = run-Counted c rs [] (start c) (start-Inv c) refl
