-- ===== src/Delivery.antt =====
-- From the memory to the server: what an upload of a part of a recorded file sends, by WriterThread in
-- src/HardwareManager.cpp and the read callback in src/HTTPClient.cpp.
pub mod Bytes
pub mod Blocks
pub mod Files
pub mod Requests
mod Tests
use mzntapp_cpp.Base.{
  ℕ, zero, suc, ◌+◌, ◌-◌, ◌*◌, ◌/◌, ◌%◌, ◌^◌, ◌≤◌, ◌<◌, ◌≡◌, refl, ◌∙◌, sym, ap, ap₂, subst, Bool,
  true, false, arith, List, [], ◌∷◌, ◌++◌, append_assoc, Option, none, some, All, length, get_elem?,
  take, drop,
}
use mzntapp_cpp.Delivery.Bytes.{contents, recorded, drop-recorded}
use mzntapp_cpp.Delivery.Blocks.{file_recorded}
use mzntapp_cpp.Delivery.Files.{total-append, channel-open, channel-closed}
use mzntapp_cpp.Hardware.Calls.{buffer_bytesize, channel_buf_size}
use mzntapp_cpp.Hardware.Pipeline.{oldest_first}
use mzntapp_cpp.Hardware.Writer.{Piece, OutFile, Config, Writer, run, start, max_file_size}
use mzntapp_cpp.Hardware.Writer.Sizes.{total, file_size, Sized, IsFull, live, run-start-Inv}
use mzntapp_cpp.Hardware.Writer.Content.{channel, pieces_of, written_after, channel-run, run-opened}
use mzntapp_cpp.Http.{UploadTask, opened, read_size, read_file}
use mzntapp_cpp.Http.Sends.{sent, sent_complete}

-- WriterThread after the rounds of a recording.
abbrev pub writer_at : Config → List (Bool × ℕ) → Writer
writer_at c rs = run c (live rs) (start c)

-- The blocks of a recording, the oldest first: those that are popped while writing is on.
abbrev pub recording : List (Bool × ℕ) → List ℕ
recording rs = oldest_first (written_after [] rs)

-- The file of channel `i` before `j` file breaks: the open one, or one of the finished ones.
abbrev pub file_before : ℕ → Writer → ℕ → ℕ → Option OutFile
file_before n w i zero = get_elem? w.files i
file_before n w i (suc j) = get_elem? w.closed (i + j * n)

-- How many blocks the writer has put into that file, and how many into the files after it.
abbrev pub blocks_in : Writer → ℕ → ℕ
blocks_in w zero = w.bytes_written / buffer_bytesize
blocks_in w (suc j) = max_file_size / buffer_bytesize

abbrev pub blocks_after : Writer → ℕ → ℕ
blocks_after w zero = 0
blocks_after w (suc j) = w.bytes_written / buffer_bytesize + j * (max_file_size / buffer_bytesize)

-- The number of its first block in the recording, and its blocks.
abbrev pub first_block : Config → List (Bool × ℕ) → ℕ → ℕ
first_block c rs j =
    let w = writer_at c rs in length (recording rs) - (blocks_after w j + blocks_in w j)

abbrev pub file_blocks : Config → List (Bool × ℕ) → ℕ → List ℕ
file_blocks c rs j = take (blocks_in (writer_at c rs) j) (drop (first_block c rs j) (recording rs))

Sized-file :
    (b j k : ℕ) (fs : List OutFile) (f : OutFile)
    → Sized true b j fs
    → get_elem? fs k ≡ some f
    → file_size f ≡ b / 4
Sized-file b j k [] f s e = absurd (cc e)
Sized-file b j zero (g ∷ fs) f s e =
    let same : g ≡ f = cc e in subst (λ h. file_size h ≡ b / 4) same s.0
Sized-file b j (suc k) (g ∷ fs) f s e = Sized-file b (suc j) k fs f s.1 e

some_file : (k : ℕ) (fs : List OutFile) → k < length fs → (f : OutFile) × (get_elem? fs k ≡ some f)
some_file k [] h = absurd (omega arith)
some_file zero (f ∷ fs) h = (f, refl)
some_file (suc k) (f ∷ fs) h = some_file k fs (omega arith)

module _ (c : Config) (rs : List (Bool × ℕ)) (i : ℕ) (split : c.split ≡ true)
    (lt : i < c.num_out_files) where
  -- Where the open file of the channel stands among its pieces.
  open_split :
      (f : OutFile)
      → let w = writer_at c rs in
        get_elem? w.files i ≡ some f
        → (pieces_of true i (written_after [] rs) ≡ f.pieces ++ channel c.num_out_files i w.closed)
          × (file_size f ≡ channel_buf_size * (w.bytes_written / buffer_bytesize))
  open_split f found =
      let w = writer_at c rs in
      let n = c.num_out_files in
      let blocks = written_after [] rs in
      let (sized, full, whole, small) = run-start-Inv c rs in
      let opened = run-opened c rs in
      let all : channel n i (w.files ++ w.closed) ≡ pieces_of true i blocks =
        subst (λ s. channel n i (w.files ++ w.closed) ≡ pieces_of s i blocks) split
          (channel-run c rs i lt) in
      let size =
        Sized-file w.bytes_written 0 i w.files f
          (subst (λ s. Sized s w.bytes_written 0 w.files) split sized) found in
      (
        sym all
            ∙ channel-open n i w.files w.closed f found (omega (arith, opened))
            ∙ ap (λ k. f.pieces ++ channel n k w.closed) (omega (arith, opened)),
        omega (arith, size, whole),
      )

  -- Any file of the channel holds the channel's quarters of its blocks.
  pub file_before-recorded :
      (memory : ℕ → ℕ → ℕ) (j : ℕ) (f : OutFile)
      → file_before c.num_out_files (writer_at c rs) i j ≡ some f
      → contents memory (first_block c rs j) f.pieces
        ≡ recorded memory i (first_block c rs j) (file_blocks c rs j)
  file_before-recorded memory zero f found =
      let w = writer_at c rs in
      let (held, size) = open_split f found in
      file_recorded memory i 0 (w.bytes_written / buffer_bytesize) (written_after [] rs) [] f
        (channel c.num_out_files i w.closed) held refl size
  file_before-recorded memory (suc j) f found =
      let w = writer_at c rs in
      let (sized, full, whole, small) = run-start-Inv c rs in
      let (f0, found0) = some_file i w.files (omega (arith, run-opened c rs)) in
      let (held, size) = open_split f0 found0 in
      let (pre, rest, same, newer, size') =
        channel-closed c.num_out_files j i (i + j * c.num_out_files) w.closed f
          (subst (λ s. All (IsFull s) w.closed) split full) lt refl found in
      file_recorded memory i
        (w.bytes_written / buffer_bytesize + j * (max_file_size / buffer_bytesize))
        (max_file_size / buffer_bytesize) (written_after [] rs) (f0.pieces ++ pre) f rest
        (held ∙ ap (◌++◌ f0.pieces) same ∙ sym (append_assoc f0.pieces pre (f.pieces ++ rest)))
        (omega (arith, total-append f0.pieces pre, size, newer)) (omega (arith, size'))

-- In split mode, over any pauses and file breaks, for any part of any file of channel `i`, open or
-- finished, whatever sizes of buffers (below 2 ^ 31) libcurl asks for: once a callback with room for a
-- byte returns none, the bytes that were sent are this part of the channel's quarters of consecutive
-- blocks that WriterThread has popped while writing was on, as they stood in memory when they were
-- written: the newest blocks for the open file, and the blocks of full files before those.
pub delivery :
    (memory : ℕ → ℕ → ℕ) (c : Config) (rs : List (Bool × ℕ)) (i j : ℕ) (f : OutFile)
    (t : UploadTask) (file sizes : List ℕ) (size : ℕ)
    → c.split ≡ true
    → i < c.num_out_files
    → file_before c.num_out_files (writer_at c rs) i j ≡ some f
    → file ≡ contents memory (first_block c rs j) f.pieces
    → t.upload_size < 2 ^ 31
    → All (λ n. n < 2 ^ 31) sizes
    → 0 < size
    → size < 2 ^ 31
    → (read_file (read_size 1 size (sent sizes (opened t file)).1) (sent sizes (opened t file)).1).0
      ≡ []
    → (sent sizes (opened t file)).0
      ≡ take t.upload_size
          (drop t.offset (recorded memory i (first_block c rs j) (file_blocks c rs j)))
delivery memory c rs i j f t file sizes size split lt found is_file small limits pos limit over =
    sent_complete t file sizes size small limits pos limit over
    ∙ ap (λ xs. take t.upload_size (drop t.offset xs))
        (is_file ∙ file_before-recorded c rs i split lt memory j f found)
