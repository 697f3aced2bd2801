-- ===== src/Hardware/Writer/Content.antt =====
-- What WriterThread has written: the pieces of a channel over its files, from the open one back to the
-- first.
use mzntapp_cpp.Base.{
  ℕ, zero, suc, ◌+◌, ◌-◌, ◌*◌, ◌≤◌, ◌<◌, ◌≡◌, refl, Bool, true, false, not, arith, if◌then◌else◌,
  List, [], ◌∷◌, ◌++◌, some, Text, length, ap, ap₂, ◌∙◌,
}
use mzntapp_cpp.Hardware.Calls.{buffer_bytesize, channel_buf_size}
use mzntapp_cpp.Hardware.Writer.{
  Piece, OutFile, Config, Writer, open_files, start, break_files, write_channels, write_first,
  write_block, for_cpu, set_offset, slot_offset, check_limits, maybe_break, goes_on, round, run,
}
use mzntapp_cpp.Hardware.Writer.Sizes.{live}

-- The pieces in every `n`-th file from the `k`-th on.
abbrev pub channel : ℕ → ℕ → List OutFile → List Piece
channel n k [] = []
channel n zero (f ∷ fs) = f.pieces ++ channel n (n - 1) fs
channel n (suc k) (f ∷ fs) = channel n k fs

-- What channel `i` is to hold of some blocks: its quarter of each where the channels are split, and
-- else the whole block, in the first file.
abbrev pub pieces_of : Bool → ℕ → List ℕ → List Piece
pieces_of split i [] = []
pieces_of true i (p ∷ ps) =
    record { address = p + i * channel_buf_size; size = channel_buf_size } ∷ pieces_of true i ps
pieces_of false zero (p ∷ ps) =
    record { address = p; size = buffer_bytesize } ∷ pieces_of false zero ps
pieces_of false (suc i) (p ∷ ps) = pieces_of false (suc i) ps

-- The blocks that were popped while writing was on, the newest first.
abbrev pub written_after : List ℕ → List (Bool × ℕ) → List ℕ
written_after ps [] = ps
written_after ps ((true, p) ∷ rs) = written_after (p ∷ ps) rs
written_after ps ((false, p) ∷ rs) = written_after ps rs

open_files-length : (name : Text) (i n : ℕ) → length (open_files name i n) ≡ n
unfolding open_files
open_files-length name i zero = refl
open_files-length name i (suc n) = ap suc (open_files-length name (i + 1) n)

-- New files hold nothing: the channel goes on with those behind them.
skip_open :
    (n k : ℕ) (name : Text) (j m : ℕ) (fs : List OutFile)
    → m ≤ k
    → channel n k (open_files name j m ++ fs) ≡ channel n (k - m) fs
unfolding open_files
skip_open n k name j zero fs h = ap (λ i. channel n i fs) (omega arith)
skip_open n zero name j (suc m) fs h = absurd (omega arith)
skip_open n (suc k) name j (suc m) fs h =
    skip_open n k name (j + 1) m fs (omega arith) ∙ ap (λ i. channel n i fs) (omega arith)

channel-open_files :
    (n k : ℕ) (name : Text) (j m : ℕ) (fs : List OutFile)
    → k < m
    → m ≤ n
    → channel n k (open_files name j m ++ fs) ≡ channel n (k + n - m) fs
unfolding open_files
channel-open_files n k name j zero fs h l = absurd (omega arith)
channel-open_files n zero name j (suc m) fs h l =
    skip_open n (n - 1) name (j + 1) m fs (omega arith) ∙ ap (λ i. channel n i fs) (omega arith)
channel-open_files n (suc k) name j (suc m) fs h l =
    channel-open_files n k name (j + 1) m fs (omega arith) (omega arith)
    ∙ ap (λ i. channel n i fs) (omega arith)

-- A file that is not the channel's may get what it likes.
skip_write :
    (n k p j : ℕ) (fs gs : List OutFile)
    → length fs ≤ k
    → channel n k (write_channels p j fs ++ gs) ≡ channel n k (fs ++ gs)
unfolding write_channels
skip_write n k p j [] gs h = refl
skip_write n zero p j (f ∷ fs) gs h = absurd (omega arith)
skip_write n (suc k) p j (f ∷ fs) gs h = skip_write n k p (j + 1) fs gs (omega arith)

channel-write_channels :
    (n k p j : ℕ) (fs gs : List OutFile)
    → k < length fs
    → length fs ≤ n
    → channel n k (write_channels p j fs ++ gs)
      ≡ record { address = p + (j + k) * channel_buf_size; size = channel_buf_size }
        ∷ channel n k (fs ++ gs)
unfolding write_channels
channel-write_channels n k p j [] gs h l = absurd (omega arith)
channel-write_channels n zero p j (f ∷ fs) gs h l =
    rw (skip_write n (n - 1) p (j + 1) fs gs (omega arith)) (
      ap
        (λ i.
          record { address = p + i * channel_buf_size; size = channel_buf_size }
          ∷ channel n 0 ((f ∷ fs) ++ gs))
        (omega arith))
channel-write_channels n (suc k) p j (f ∷ fs) gs h l =
    channel-write_channels n k p (j + 1) fs gs (omega arith) (omega arith)
    ∙ ap
        (λ i.
          record { address = p + i * channel_buf_size; size = channel_buf_size }
          ∷ channel n k (fs ++ gs))
        (omega arith)

length-write_channels : (p j : ℕ) (fs : List OutFile) → length (write_channels p j fs) ≡ length fs
unfolding write_channels
length-write_channels p j [] = refl
length-write_channels p j (f ∷ fs) = ap suc (length-write_channels p (j + 1) fs)

channel-write_first :
    (n k p : ℕ) (ps : List ℕ) (fs gs : List OutFile)
    → k < length fs
    → channel n k (fs ++ gs) ≡ pieces_of false k ps
    → channel n k (write_first p fs ++ gs) ≡ pieces_of false k (p ∷ ps)
unfolding write_first
channel-write_first n k p ps [] gs h e = absurd (omega arith)
channel-write_first n zero p ps (f ∷ fs) gs h e =
    ap (◌∷◌ (record { address = p; size = buffer_bytesize })) e
channel-write_first n (suc k) p ps (f ∷ fs) gs h e = e ∙ idle ps
  where
    idle : (ps : List ℕ) → pieces_of false (suc k) ps ≡ pieces_of false (suc k) (p ∷ ps)
    idle ps = refl

-- Each channel holds its pieces of the blocks `ps`.
record Holds (c : Config) (ps : List ℕ) (w : Writer) : Type 0 where
  opened : length w.files ≡ c.num_out_files
  held :
      (i : ℕ)
      → i < c.num_out_files
      → channel c.num_out_files i (w.files ++ w.closed) ≡ pieces_of c.split i ps

pieces_of-nil : (split : Bool) (i : ℕ) → [] ≡ pieces_of split i []
pieces_of-nil true i = refl
pieces_of-nil false zero = refl
pieces_of-nil false (suc i) = refl

start-Holds : (c : Config) → Holds c [] (start c)
unfolding start
start-Holds c = record {
  opened = open_files-length c.base_name 0 c.num_out_files;
  held =
      λ i h. channel-open_files c.num_out_files i c.base_name 0 c.num_out_files [] h (omega arith);
}

break_files-Holds :
    (c : Config) (ps : List ℕ) (w : Writer) → Holds c ps w → Holds c ps (break_files c w)
unfolding break_files
break_files-Holds c ps w v = record {
  opened = open_files-length _ 0 c.num_out_files;
  held = λ i h.
      channel-open_files c.num_out_files i _ 0 c.num_out_files (w.files ++ w.closed) h (omega arith)
      ∙ ap (λ k. channel c.num_out_files k (w.files ++ w.closed)) (omega arith)
      ∙ v.held i h;
}

maybe_break-Holds :
    (c : Config) (ps : List ℕ) (w : Writer) → Holds c ps w → Holds c ps (maybe_break c w)
unfolding maybe_break
maybe_break-Holds c ps w v = broken w.break_signal
  where
    broken : (b : Bool) → Holds c ps (if b then break_files c w else w)
    broken true = break_files-Holds c ps w v
    broken false = v

block-Holds :
    (split : Bool) (n p : ℕ) (ps : List ℕ) (fs gs : List OutFile)
    → length fs ≡ n
    → ((i : ℕ) → i < n → channel n i (fs ++ gs) ≡ pieces_of split i ps)
    → (i : ℕ) → i < n
    → channel n i ((if not split then write_first p fs else write_channels p 0 fs) ++ gs)
      ≡ pieces_of split i (p ∷ ps)
block-Holds true n p ps fs gs e held i h =
    channel-write_channels n i p 0 fs gs (omega (arith, e)) (omega (arith, e))
    ∙ ap₂ (λ k ls. record { address = p + k * channel_buf_size; size = channel_buf_size } ∷ ls)
        (omega arith) (held i h)
block-Holds false n p ps fs gs e held i h =
    channel-write_first n i p ps fs gs (omega (arith, e)) (held i h)

write_block-Holds :
    (c : Config) (p : ℕ) (ps : List ℕ) (w : Writer)
    → Holds c ps w
    → Holds c (p ∷ ps) (write_block c p w)
unfolding write_block write_first
write_block-Holds c p ps w v = record {
  opened = as_many c.split ∙ v.opened;
  held = block-Holds c.split c.num_out_files p ps w.files w.closed v.opened v.held;
}
  where
    first : (fs : List OutFile) → length (write_first p fs) ≡ length fs
    first [] = refl
    first (f ∷ fs) = refl

    as_many :
        (split : Bool)
        → length (if not split then write_first p w.files else write_channels p 0 w.files)
          ≡ length w.files
    as_many true = length-write_channels p 0 w.files
    as_many false = first w.files

-- A round adds its block where writing is on.
round-Holds :
    (c : Config) (on : Bool) (p : ℕ) (ps : List ℕ) (w : Writer)
    → Holds c ps w
    → (w' : Writer) × (round c on (some p) w ≡ goes_on w') × Holds c (if on then p ∷ ps else ps) w'
unfolding round check_limits
round-Holds c true p ps w v =
    let b = maybe_break-Holds c ps w v in
    let s : Holds c ps (record (maybe_break c w) {
      synced = for_cpu ∷ set_offset (slot_offset c p) ∷ (maybe_break c w).synced;
    }) =
      record { opened = b.opened; held = b.held } in
    let k = write_block-Holds c p ps _ s in (_, refl, record { opened = k.opened; held = k.held })
round-Holds c false p ps w v =
    let b = maybe_break-Holds c ps w v in (_, refl, record { opened = b.opened; held = b.held })

run-Holds :
    (c : Config) (rs : List (Bool × ℕ)) (ps : List ℕ) (w : Writer)
    → Holds c ps w
    → Holds c (written_after ps rs) (run c (live rs) w)
unfolding run
run-Holds c [] ps w v = v
run-Holds c ((true, p) ∷ rs) ps w v =
    let (w', e, v') = round-Holds c true p ps w v in rw (e, run) (run-Holds c rs (p ∷ ps) w' v')
run-Holds c ((false, p) ∷ rs) ps w v =
    let (w', e, v') = round-Holds c false p ps w v in rw (e, run) (run-Holds c rs ps w' v')

-- Over every sequence of rounds, with any pauses and file breaks: from its open file back to its first,
-- each channel holds its pieces of exactly the blocks that were popped while writing was on, in their
-- order, none lost, repeated or cut.
pub channel-run :
    (c : Config) (rs : List (Bool × ℕ)) (i : ℕ)
    → i < c.num_out_files
    → let w = run c (live rs) (start c) in
      channel c.num_out_files i (w.files ++ w.closed) ≡ pieces_of c.split i (written_after [] rs)
channel-run c rs i h = (run-Holds c rs [] (start c) (start-Holds c)).held i h

-- There is an open file for each channel.
pub run-opened :
    (c : Config) (rs : List (Bool × ℕ)) → length (run c (live rs) (start c)).files ≡ c.num_out_files
run-opened c rs = (run-Holds c rs [] (start c) (start-Holds c)).opened
