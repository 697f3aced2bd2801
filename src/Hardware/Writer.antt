-- ===== src/Hardware/Writer.antt =====
-- HardwareManager.cpp: WriterThread, which writes each queued block to the output files and starts
-- new files when the current ones are full. One round of its loop is a function of the writer's
-- variables and of what the round takes from the other threads: the popped pointer and `m_writeOn`.
-- `fopen` and `fwrite` are taken to succeed, since the code does not look at their results; a file
-- is the pieces of memory that were handed to `fwrite` for it.
pub mod Sizes
pub mod Names
pub mod Content
pub mod Cache
pub mod Paces
pub mod Pauses
pub mod Breaks
use mzntapp_cpp.Base.{
  ℕ, zero, suc, ◌+◌, ◌-◌, ◌*◌, ◌/◌, ◌%◌, ◌^◌, ◌≡◌, refl, Bool, true, false, not, arith, ◌==◌, leb,
  ltb, if◌then◌else◌, List, [], ◌∷◌, ◌++◌, map, Option, none, some, Text, codes, to_string, length,
  get_elem?,
}
use mzntapp_cpp.Hardware.Calls.{buffer_bytesize, ddr_q_size, channel_buf_size}

pub record Piece : Type 0 where
  pub address : ℕ
  pub size : ℕ

-- The newest piece first.
pub record OutFile : Type 0 where
  pub name : Text
  pub pieces : List Piece

-- The members that the thread reads and does not change.
pub record Config : Type 0 where
  pub base_name : Text
  pub split : Bool
  pub num_out_files : ℕ
  pub ddr_base : ℕ

-- The calls of SetSyncDir, SetSyncSize, SetSyncOffset and SyncForCPU.
pub data Sync : Type 0 where
  set_dir : Sync
  set_size : ℕ → Sync
  set_offset : ℕ → Sync
  for_cpu : Sync

pub record Writer : Type 0 where
  pub files : List OutFile
  -- the files that were closed, the newest first
  pub closed : List OutFile
  pub break_signal : Bool
  pub bytes_written : ℕ
  pub last_bytes : ℕ
  pub file_no : ℕ
  pub curr_name : Text
  pub history : List Text
  -- how the cache was synchronised, the newest call first
  pub synced : List Sync

abbrev pub max_file_size : ℕ
max_file_size = 5080875008

-- `outputFile[i] = fopen(name + ".CH_" + i)` for the `n` files from the `i`-th on.
unfoldable pub open_files : Text → ℕ → ℕ → List OutFile
open_files name i zero = []
open_files name i (suc n) =
    record { name = name ++ codes ".CH_" ++ to_string i; pieces = [] } ∷ open_files name (i + 1) n

-- The start of the thread: the files are opened and nothing is written.
unfoldable pub start : Config → Writer
unfolding open_files
start c = record {
  files = open_files c.base_name 0 c.num_out_files;
  closed = [];
  break_signal = false;
  bytes_written = 0;
  last_bytes = 0;
  file_no = 1;
  curr_name = c.base_name;
  history = [];
  synced = set_size buffer_bytesize ∷ set_dir ∷ [];
}

-- The file break at the head of the loop.
unfoldable pub break_files : Config → Writer → Writer
break_files c w =
    let new_name = c.base_name ++ codes "." ++ to_string w.file_no in
    record w {
      files = open_files new_name 0 c.num_out_files;
      closed = w.files ++ w.closed;
      break_signal = false;
      bytes_written = 0;
      last_bytes = 0;
      file_no = (w.file_no + 1) % 2 ^ 32;
      curr_name = new_name;
      history = w.history ++ w.curr_name ∷ [];
    }

abbrev pub fwrite : ℕ → ℕ → OutFile → OutFile
fwrite address size f = record f { pieces = record { address = address; size = size } ∷ f.pieces }

-- Each channel's quarter of the block goes to its own file.
unfoldable pub write_channels : ℕ → ℕ → List OutFile → List OutFile
write_channels p i [] = []
write_channels p i (f ∷ fs) =
    fwrite (p + i * channel_buf_size) channel_buf_size f ∷ write_channels p (i + 1) fs

-- The whole block goes to the first file.
pub write_first : ℕ → List OutFile → List OutFile
write_first p [] = []
write_first p (f ∷ fs) = fwrite p buffer_bytesize f ∷ fs

unfoldable pub write_block : Config → ℕ → Writer → Writer
write_block c p w = record w {
  files = if not c.split then write_first p w.files else write_channels p 0 w.files;
  bytes_written = (w.bytes_written + buffer_bytesize) % 2 ^ 64;
}

-- The speed report and the test for a full file.
unfoldable pub check_limits : Writer → Writer
check_limits w = record w {
  last_bytes =
      if leb 100 ((w.bytes_written + 2 ^ 64 - w.last_bytes) % 2 ^ 64 / 1000000)
      then w.bytes_written
      else w.last_bytes;
  break_signal = if leb max_file_size w.bytes_written then true else w.break_signal;
}

unfoldable pub maybe_break : Config → Writer → Writer
maybe_break c w = if w.break_signal then break_files c w else w

-- `(unsigned long)nextData - (unsigned long)m_ddrBaseOff`
abbrev pub slot_offset : Config → ℕ → ℕ
slot_offset c p = (p + 2 ^ 32 - c.ddr_base) % 2 ^ 32

-- `none` is the null pointer by which Stop ends the thread.
pub data Turn : Type 0 where
  goes_on : Writer → Turn
  ends : Writer → Turn

unfoldable pub round : Config → Bool → Option ℕ → Writer → Turn
round c write_on none w = ends (maybe_break c w)
round c write_on (some p) w =
    let w1 = maybe_break c w in
    let w2 = record w1 { synced = for_cpu ∷ set_offset (slot_offset c p) ∷ w1.synced } in
    goes_on (check_limits (if write_on then write_block c p w2 else w2))

-- At the end the files from the second on are closed; the first is not.
abbrev pub close_from : List OutFile → Writer → Writer
close_from [] w = w
close_from (f ∷ fs) w = record w { files = f ∷ []; closed = fs ++ w.closed }

abbrev pub close_rest : Writer → Writer
close_rest w = close_from w.files w

-- The thread over what the rounds meet; the list ends early for a thread that is still running.
unfoldable pub run : Config → List (Bool × Option ℕ) → Writer → Writer
run c [] w = w
run c ((on, p) ∷ rest) w = elim (round c on p w) [
  | goes_on w' ↦ run c rest w'
  | ends w' ↦ close_rest w'
]

-- WriterThread, with the result of its call for a real-time priority: without it the thread ends before
-- it opens a file.
unfoldable pub writer_thread : ℕ → Config → List (Bool × Option ℕ) → Option Writer
unfolding run start
writer_thread res c rounds = if res == 0 then some (run c rounds (start c)) else none

-- GetCurrFileOffset and GetMaxSingleFileSize, with their casts to 32 bits.
unfoldable pub curr_file_offset : ℕ → ℕ
curr_file_offset bytes = bytes / 4 % 2 ^ 32

abbrev pub max_single_file_size : ℕ
max_single_file_size = max_file_size / 4 % 2 ^ 32

-- GetLastIFFilename; `none` where the index wraps below zero and the read is out of bounds.
unfoldable pub last_if_filename : Text → List Text → Option Text
last_if_filename curr history =
    if ltb (length history) 1
    then some curr
    else if length history == 1
    then none
    else get_elem? history (length history - 2)
