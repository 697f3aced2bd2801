-- ===== src/Hardware/Writer/Paces.antt =====
-- Where WriterThread stands in its files after so many blocks, while writing is on.
use mzntapp_cpp.Base.{
  ℕ, zero, suc, ◌+◌, ◌-◌, ◌*◌, ◌/◌, ◌%◌, ◌^◌, ◌≤◌, ◌≡◌, refl, ◌∙◌, ap, Bool, true, false, arith,
  leb, if◌then◌else◌, List, [], ◌∷◌, some, All, length, sym, subst,
}
use mzntapp_cpp.Hardware.Calls.{buffer_bytesize}
use mzntapp_cpp.Hardware.Writer.{
  Config, Writer, Turn, goes_on, ends, start, break_files, write_block, check_limits, maybe_break,
  round, run, curr_file_offset,
}
use mzntapp_cpp.Hardware.Writer.Sizes.{live, Inv, start-Inv, round-Inv}

-- How many blocks a file takes.
abbrev pub file_blocks : ℕ
file_blocks = 19382

-- How many blocks stand in the current files after `n` in all: a full file is left when the next block
-- comes.
unfoldable pub blocks_after : ℕ → ℕ
blocks_after zero = 0
blocks_after (suc n) = n % file_blocks + 1

-- Writing is on in every round.
abbrev pub IsOn : Bool × ℕ → Type 0
IsOn (on, p) = on ≡ true

bytes_of : Turn → ℕ
bytes_of (goes_on w) = w.bytes_written
bytes_of (ends w) = w.bytes_written

maybe_break-bytes :
    (c : Config) (w : Writer)
    → (maybe_break c w).bytes_written ≡ (if w.break_signal then 0 else w.bytes_written)
unfolding maybe_break break_files
maybe_break-bytes c w = broken w.break_signal
  where
    broken :
        (b : Bool)
        → (if b then break_files c w else w).bytes_written ≡ (if b then 0 else w.bytes_written)
    broken true = refl
    broken false = refl

pub blocks_after-le : (n : ℕ) → blocks_after n ≤ file_blocks
unfolding blocks_after
blocks_after-le zero = omega arith
blocks_after-le (suc n) = omega arith

blocks_after-suc :
    (n : ℕ)
    → blocks_after (suc n) ≡ (if leb file_blocks (blocks_after n) then 1 else blocks_after n + 1)
unfolding blocks_after
blocks_after-suc zero = refl
blocks_after-suc (suc n) = ground arith

round-bytes :
    (c : Config) (p n : ℕ) (w : Writer)
    → Inv c w
    → w.bytes_written ≡ buffer_bytesize * blocks_after n
    → bytes_of (round c true (some p) w) ≡ buffer_bytesize * blocks_after (suc n)
unfolding bytes_of round check_limits write_block
round-bytes c p n w v e =
    ground (arith, maybe_break-bytes c w, blocks_after-suc n, blocks_after-le n, v.breaks, e)

run-bytes :
    (c : Config) (rs : List (Bool × ℕ)) (n : ℕ) (w : Writer)
    → All IsOn rs
    → Inv c w
    → w.bytes_written ≡ buffer_bytesize * blocks_after n
    → (run c (live rs) w).bytes_written ≡ buffer_bytesize * blocks_after (n + length rs)
unfolding run bytes_of
run-bytes c [] n w on v e = e ∙ ap (λ k. buffer_bytesize * blocks_after k) (omega arith)
run-bytes c ((b, p) ∷ rs) n w (on, ons) v e =
    let (w', e', v') = round-Inv c b p w v in
    let f : w'.bytes_written ≡ buffer_bytesize * blocks_after (suc n) =
      sym (ap bytes_of e')
      ∙ subst (λ b. bytes_of (round c b (some p) w) ≡ buffer_bytesize * blocks_after (suc n))
          (sym on) (round-bytes c p n w v e) in
    rw (e', run)
      (run-bytes c rs (suc n) w' ons v' f
        ∙ ap (λ k. buffer_bytesize * blocks_after k) (omega arith))

start-bytes : (c : Config) → (start c).bytes_written ≡ buffer_bytesize * blocks_after 0
unfolding start blocks_after
start-bytes c = refl

-- The position in each file, a quarter of what the files hold.
pub offset-run :
    (c : Config) (rs : List (Bool × ℕ))
    → All IsOn rs
    → curr_file_offset (run c (live rs) (start c)).bytes_written ≡ 65536 * blocks_after (length rs)
unfolding curr_file_offset
offset-run c rs on = quarter _ (length rs) started
  where
    started : (run c (live rs) (start c)).bytes_written ≡ buffer_bytesize * blocks_after (length rs)
    started =
        run-bytes c rs 0 (start c) on (start-Inv c) (start-bytes c)
        ∙ ap (λ k. buffer_bytesize * blocks_after k) (omega arith)

    quarter :
        (b n : ℕ) → b ≡ buffer_bytesize * blocks_after n → b / 4 % 2 ^ 32 ≡ 65536 * blocks_after n
    quarter b n e = omega (arith, e, blocks_after-le n)

-- Between two positions that are not far apart: in the same file, or in the next one.
pub blocks_after-near :
    (n k : ℕ)
    → n ≤ k
    → blocks_after n + (k - n) ≤ 2 * file_blocks
    → blocks_after k ≡ (
        if leb (blocks_after n + (k - n)) file_blocks
        then blocks_after n + (k - n)
        else blocks_after n + (k - n) - file_blocks)
unfolding blocks_after
blocks_after-near zero zero l h = refl
blocks_after-near zero (suc k) l h = ground (arith, h)
blocks_after-near (suc n) zero l h = absurd (omega arith)
blocks_after-near (suc n) (suc k) l h = ground (arith, h)
