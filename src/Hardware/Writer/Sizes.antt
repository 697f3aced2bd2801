-- ===== src/Hardware/Writer/Sizes.antt =====
-- How large the output files are: what the writer keeps over every sequence of rounds.
use mzntapp_cpp.Base.{
  ℕ, zero, suc, ◌+◌, ◌/◌, ◌%◌, ◌^◌, ◌≤◌, ◌<◌, ◌≡◌, refl, Bool, true, false, not, arith, leb,
  if◌then◌else◌, List, [], ◌∷◌, ◌++◌, Option, some, Text, All, inl, inr, ◌⊎◌, subst,
}
use mzntapp_cpp.Hardware.Calls.{buffer_bytesize}
use mzntapp_cpp.Hardware.Writer.{
  Piece, OutFile, Sync, Config, Writer, max_file_size, open_files, start, break_files,
  write_channels, write_first, write_block, check_limits, maybe_break, goes_on, round, run,
}

abbrev pub total : List Piece → ℕ
total [] = 0
total (p ∷ ps) = p.size + total ps

abbrev pub file_size : OutFile → ℕ
file_size f = total f.pieces

-- What file `i` holds once `b` bytes are written: a quarter, or all of them in the first file.
abbrev pub share : Bool → ℕ → ℕ → ℕ
share true i b = b / 4
share false zero b = b
share false (suc i) b = 0

abbrev pub Sized : Bool → ℕ → ℕ → List OutFile → Type 0
Sized split b i [] = Unit
Sized split b i (f ∷ fs) = (file_size f ≡ share split i b) × Sized split b (suc i) fs

-- A closed file has the share of a full one.
abbrev pub IsFull : Bool → OutFile → Type 0
IsFull true f = file_size f ≡ max_file_size / 4
IsFull false f = (file_size f ≡ max_file_size) ⊎ (file_size f ≡ 0)

open_files-Sized : (split : Bool) (name : Text) (i j n : ℕ) → Sized split 0 i (open_files name j n)
unfolding open_files
open_files-Sized split name i j zero = tt
open_files-Sized true name i j (suc n) = (omega arith, open_files-Sized true name (suc i) (j + 1) n)
open_files-Sized false name zero j (suc n) = (refl, open_files-Sized false name 1 (j + 1) n)
open_files-Sized false name (suc i) j (suc n) =
    (refl, open_files-Sized false name (suc (suc i)) (j + 1) n)

write_channels-Sized :
    (p b i j : ℕ) (fs : List OutFile)
    → b % buffer_bytesize ≡ 0
    → Sized true b i fs
    → Sized true (b + buffer_bytesize) i (write_channels p j fs)
unfolding write_channels
write_channels-Sized p b i j [] e s = tt
write_channels-Sized p b i j (f ∷ fs) e s =
    (omega (arith, s.0), write_channels-Sized p b (suc i) (j + 1) fs e s.1)

-- Nothing is written to the files after the first.
rest-Sized : (b c i : ℕ) (fs : List OutFile) → Sized false b (suc i) fs → Sized false c (suc i) fs
rest-Sized b c i [] s = tt
rest-Sized b c i (f ∷ fs) s = (s.0, rest-Sized b c (suc i) fs s.1)

write_first-Sized :
    (p b : ℕ) (fs : List OutFile)
    → Sized false b 0 fs
    → Sized false (b + buffer_bytesize) 0 (write_first p fs)
unfolding write_first
write_first-Sized p b [] s = tt
write_first-Sized p b (f ∷ fs) s = (omega (arith, s.0), rest-Sized b (b + buffer_bytesize) 0 fs s.1)

Sized-IsFull :
    (split : Bool) (i : ℕ) (fs : List OutFile)
    → Sized split max_file_size i fs
    → All (IsFull split) fs
Sized-IsFull split i [] s = tt
Sized-IsFull true i (f ∷ fs) s = (s.0, Sized-IsFull true (suc i) fs s.1)
Sized-IsFull false zero (f ∷ fs) s = (inl s.0, Sized-IsFull false 1 fs s.1)
Sized-IsFull false (suc i) (f ∷ fs) s = (inr s.0, Sized-IsFull false (suc (suc i)) fs s.1)

All-append : (P : OutFile → Type 0) (xs ys : List OutFile) → All P xs → All P ys → All P (xs ++ ys)
All-append P [] ys hx hy = hy
All-append P (x ∷ xs) ys hx hy = (hx.0, All-append P xs ys hx.1 hy)

pub record Inv (c : Config) (w : Writer) : Type 0 where
  pub sized : Sized c.split w.bytes_written 0 w.files
  pub full : All (IsFull c.split) w.closed
  pub blocks : w.bytes_written % buffer_bytesize ≡ 0
  pub small : w.bytes_written ≤ max_file_size
  pub breaks : w.break_signal ≡ leb max_file_size w.bytes_written

pub start-Inv : (c : Config) → Inv c (start c)
unfolding start
start-Inv c = record {
  sized = open_files-Sized c.split c.base_name 0 0 c.num_out_files;
  full = tt;
  blocks = refl;
  small = omega arith;
  breaks = refl;
}

pub full_at_break :
    (c : Config) (w : Writer) → Inv c w → w.break_signal ≡ true → w.bytes_written ≡ max_file_size
full_at_break c w v e = ground arith

break_files-Inv :
    (c : Config) (w : Writer) → Inv c w → w.break_signal ≡ true → Inv c (break_files c w)
unfolding break_files
break_files-Inv c w v e = record {
  sized = open_files-Sized c.split _ 0 0 c.num_out_files;
  full =
      All-append (IsFull c.split) w.files w.closed
        (Sized-IsFull c.split 0 w.files
          (subst (λ b. Sized c.split b 0 w.files) (full_at_break c w v e) v.sized))
        v.full;
  blocks = refl;
  small = omega arith;
  breaks = refl;
}

-- The files have room for a block once the break is done.
record Open (c : Config) (w : Writer) : Type 0 where
  inv : Inv c w
  room : w.bytes_written < max_file_size

break_if-Open :
    (c : Config) (w : Writer) (b : Bool)
    → w.break_signal ≡ b
    → Inv c w
    → Open c (if b then break_files c w else w)
break_if-Open c w true e v = record {
  inv = break_files-Inv c w v e;
  room = unfold break_files in omega arith;
}
break_if-Open c w false e v = record { inv = v; room = ground arith }

maybe_break-Open : (c : Config) (w : Writer) → Inv c w → Open c (maybe_break c w)
unfolding maybe_break
maybe_break-Open c w v = break_if-Open c w w.break_signal refl v

-- What holds before the limits are checked.
record Written (c : Config) (w : Writer) : Type 0 where
  sized : Sized c.split w.bytes_written 0 w.files
  full : All (IsFull c.split) w.closed
  blocks : w.bytes_written % buffer_bytesize ≡ 0
  small : w.bytes_written ≤ max_file_size
  quiet : w.break_signal ≡ false

block-Sized :
    (split : Bool) (p b : ℕ) (fs : List OutFile)
    → b % buffer_bytesize ≡ 0
    → Sized split b 0 fs
    → Sized split
        (b + buffer_bytesize)
        0
        (if not split then write_first p fs else write_channels p 0 fs)
block-Sized true p b fs e s = write_channels-Sized p b 0 0 fs e s
block-Sized false p b fs e s = write_first-Sized p b fs s

write_block-Written : (c : Config) (p : ℕ) (w : Writer) → Open c w → Written c (write_block c p w)
unfolding write_block
write_block-Written c p w o =
    let added : w.bytes_written + buffer_bytesize ≡ (w.bytes_written + buffer_bytesize) % 2 ^ 64 =
      omega (arith, o.room) in
    record {
      sized =
          subst
            (λ b.
              Sized c.split b 0
                (if not c.split then write_first p w.files else write_channels p 0 w.files))
            added (block-Sized c.split p w.bytes_written w.files o.inv.blocks o.inv.sized);
      full = o.inv.full;
      blocks = omega (arith, o.inv.blocks, added);
      small = omega (arith, o.inv.blocks, o.room, added);
      quiet = ground (arith, o.inv.breaks, o.room);
    }

synced-Open :
    (c : Config) (w : Writer) (l : List Sync) → Open c w → Open c (record w { synced = l })
synced-Open c w l o = record {
  inv = record {
    sized = o.inv.sized;
    full = o.inv.full;
    blocks = o.inv.blocks;
    small = o.inv.small;
    breaks = o.inv.breaks;
  };
  room = o.room;
}

paused-Written : (c : Config) (w : Writer) → Open c w → Written c w
paused-Written c w o = record {
  sized = o.inv.sized;
  full = o.inv.full;
  blocks = o.inv.blocks;
  small = o.inv.small;
  quiet = ground (arith, o.inv.breaks, o.room);
}

check_limits-Inv : (c : Config) (w : Writer) → Written c w → Inv c (check_limits w)
unfolding check_limits
check_limits-Inv c w h = record {
  sized = h.sized;
  full = h.full;
  blocks = h.blocks;
  small = h.small;
  breaks = ground (arith, h.quiet);
}

-- A round keeps the invariant, whether or not writing is paused.
pub round-Inv :
    (c : Config) (on : Bool) (p : ℕ) (w : Writer)
    → Inv c w
    → (w' : Writer) × (round c on (some p) w ≡ goes_on w') × Inv c w'
unfolding round
round-Inv c true p w v = (
  _,
  refl,
  check_limits-Inv c _ (write_block-Written c p _ (synced-Open c _ _ (maybe_break-Open c w v))),
)
round-Inv c false p w v = (
  _,
  refl,
  check_limits-Inv c _ (paused-Written c _ (synced-Open c _ _ (maybe_break-Open c w v))),
)

abbrev pub live : List (Bool × ℕ) → List (Bool × Option ℕ)
live [] = []
live ((on, p) ∷ rs) = (on, some p) ∷ live rs

pub run-Inv : (c : Config) (rs : List (Bool × ℕ)) (w : Writer) → Inv c w → Inv c (run c (live rs) w)
unfolding run
run-Inv c [] w v = v
run-Inv c ((on, p) ∷ rs) w v =
    let (w', e, v') = round-Inv c on p w v in rw (e, run) (run-Inv c rs w' v')

-- Over every sequence of rounds, with writing paused or not, the byte count is a whole number of
-- blocks and at most the limit; each open file holds its share of it (a quarter each where the
-- channels are split, else all in the first file), and each finished file holds the share of exactly
-- the limit.
pub run-start-Inv :
    (c : Config) (rs : List (Bool × ℕ))
    → let w = run c (live rs) (start c) in
      Sized c.split w.bytes_written 0 w.files
      × All (IsFull c.split) w.closed
      × (w.bytes_written % buffer_bytesize ≡ 0)
      × (w.bytes_written ≤ max_file_size)
run-start-Inv c rs =
    let v = run-Inv c rs (start c) (start-Inv c) in (v.sized, v.full, v.blocks, v.small)
