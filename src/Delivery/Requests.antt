-- ===== src/Delivery/Requests.antt =====
-- An upload for a request: what was recorded since, by WriterThread in src/HardwareManager.cpp, the
-- position that MQTT_Callback in src/LoggerController.cpp asks for, and the read callback in
-- src/HTTPClient.cpp.
use mzntapp_cpp.Base.{
  ℕ, zero, suc, ◌+◌, ◌-◌, ◌*◌, ◌/◌, ◌%◌, ◌^◌, ◌≤◌, ◌<◌, ◌≡◌, refl, ◌∙◌, sym, ap, ap₂, Bool, true,
  false, arith, List, [], ◌∷◌, ◌++◌, append-nil, append_assoc, some, All, length, length-append,
  take, drop,
}
use mzntapp_cpp.Delivery.{
  writer_at, recording, file_before, blocks_in, blocks_after, first_block, file_blocks, delivery,
}
use mzntapp_cpp.Base.Slices.{drop-drop, drop-take, drop-append}
use mzntapp_cpp.Delivery.Bytes.{contents, recorded, drop-recorded, oldest_first-length}
use mzntapp_cpp.Hardware.Calls.{buffer_bytesize, channel_buf_size}
use mzntapp_cpp.Hardware.Pipeline.{oldest_first}
use mzntapp_cpp.Hardware.Writer.{OutFile, Config, Writer, max_file_size, curr_file_offset}
use mzntapp_cpp.Hardware.Writer.Sizes.{run-start-Inv}
use mzntapp_cpp.Hardware.Writer.Content.{written_after}
use mzntapp_cpp.Hardware.Writer.Breaks.{counted-run}
use mzntapp_cpp.Http.{UploadTask, opened, read_size, read_file}
use mzntapp_cpp.Http.Sends.{sent}

written_after-append :
    (ps : List ℕ) (rs more : List (Bool × ℕ))
    → written_after ps (rs ++ more) ≡ written_after (written_after ps rs) more
written_after-append ps [] more = refl
written_after-append ps ((true, p) ∷ rs) more = written_after-append (p ∷ ps) rs more
written_after-append ps ((false, p) ∷ rs) more = written_after-append ps rs more

recording-after :
    (ps : List ℕ) (rs : List (Bool × ℕ))
    → oldest_first (written_after ps rs) ≡ oldest_first ps ++ recording rs
recording-after ps [] = sym (append-nil (oldest_first ps))
recording-after ps ((true, p) ∷ rs) =
    recording-after (p ∷ ps) rs
    ∙ append_assoc (oldest_first ps) (p ∷ []) (recording rs)
    ∙ ap (◌++◌ (oldest_first ps)) (sym (recording-after (p ∷ []) rs))
recording-after ps ((false, p) ∷ rs) = recording-after ps rs

recording-append :
    (rs more : List (Bool × ℕ)) → recording (rs ++ more) ≡ recording rs ++ recording more
recording-append rs more =
    ap oldest_first (written_after-append [] rs more) ∙ recording-after (written_after [] rs) more

-- Counting blocks: of the file before `j` breaks, in front of it, and up to an earlier position.
same_block :
    (w w' : Writer) (n n' j : ℕ)
    → w.bytes_written % buffer_bytesize ≡ 0
    → w'.bytes_written % buffer_bytesize ≡ 0
    → w.bytes_written ≤ max_file_size
    → w.bytes_written + length w.history * max_file_size ≡ buffer_bytesize * n
    → w'.bytes_written + length w'.history * max_file_size ≡ buffer_bytesize * n'
    → length w'.history ≡ length w.history + j
    → n ≤ n'
    → (n' - (blocks_after w' j + blocks_in w' j) + w.bytes_written / buffer_bytesize ≡ n)
      × (w.bytes_written / buffer_bytesize ≤ blocks_in w' j)
same_block w w' n n' zero whole whole' small count count' breaks grown = (omega arith, omega arith)
same_block w w' n n' (suc j) whole whole' small count count' breaks grown =
    (omega arith, omega arith)

module _ (c : Config) (rs more : List (Bool × ℕ)) where
  -- The file goes on with the block that follows those before the request.
  goes_on_at :
      (j : ℕ)
      → length (writer_at c (rs ++ more)).history ≡ length (writer_at c rs).history + j
      → (first_block c (rs ++ more) j + (writer_at c rs).bytes_written / buffer_bytesize
          ≡ length (recording rs))
        × ((writer_at c rs).bytes_written / buffer_bytesize
            ≤ blocks_in (writer_at c (rs ++ more)) j)
  goes_on_at j breaks =
      let (_, _, whole, small) = run-start-Inv c rs in
      let grown =
        ap length (recording-append rs more) ∙ length-append (recording rs) (recording more) in
      same_block (writer_at c rs) (writer_at c (rs ++ more)) (length (recording rs))
        (length (recording (rs ++ more))) j whole (run-start-Inv c (rs ++ more)).2 small
        (counted-run c rs
          ∙ ap (λ n. buffer_bytesize * n) (sym (oldest_first-length (written_after [] rs))))
        (counted-run c (rs ++ more)
          ∙ ap (λ n. buffer_bytesize * n)
              (sym (oldest_first-length (written_after [] (rs ++ more)))))
        breaks (omega (arith, grown))

  -- The blocks of the file from there on were popped after the request.
  blocks_since :
      (j : ℕ)
      → length (writer_at c (rs ++ more)).history ≡ length (writer_at c rs).history + j
      → let a = (writer_at c rs).bytes_written / buffer_bytesize in
        drop a (file_blocks c (rs ++ more) j)
        ≡ take (blocks_in (writer_at c (rs ++ more)) j - a) (recording more)
  blocks_since j breaks =
      let (starts, inside) = goes_on_at j breaks in
      let a = (writer_at c rs).bytes_written / buffer_bytesize in
      let q = blocks_in (writer_at c (rs ++ more)) j in
      let first = first_block c (rs ++ more) j in
      drop-take a (q - a) q (drop first (recording (rs ++ more))) (omega (arith, inside))
      ∙ ap (take (q - a)) (
          drop-drop a first (recording (rs ++ more))
          ∙ ap (drop (first + a)) (recording-append rs more)
          ∙ drop-append (first + a) 0 (recording rs) (recording more) (omega (arith, starts)))

-- An upload that was asked for when WriterThread had done the rounds `rs`, from its position then on,
-- and that reads the same file after the rounds `more`, with `j` file breaks in between. In split
-- mode, for any channel `i`, with pauses or not, whatever sizes of buffers (below 2 ^ 31) libcurl asks
-- for: once a callback with room for a byte returns none, what was sent are the first bytes, as many
-- as the upload is to have, of the channel's quarters of those blocks that were popped after the
-- request, while writing was on, up to the end of the file; as they stood in memory when they were
-- written.
pub delivery_since :
    (memory : ℕ → ℕ → ℕ) (c : Config) (rs more : List (Bool × ℕ)) (i j : ℕ) (f : OutFile)
    (t : UploadTask) (file sizes : List ℕ) (size : ℕ)
    → c.split ≡ true
    → i < c.num_out_files
    → length (writer_at c (rs ++ more)).history ≡ length (writer_at c rs).history + j
    → file_before c.num_out_files (writer_at c (rs ++ more)) i j ≡ some f
    → file ≡ contents memory (first_block c (rs ++ more) j) f.pieces
    → t.offset ≡ curr_file_offset (writer_at c rs).bytes_written
    → t.upload_size < 2 ^ 31
    → All (λ n. n < 2 ^ 31) sizes
    → 0 < size
    → size < 2 ^ 31
    → (read_file (read_size 1 size (sent sizes (opened t file)).1) (sent sizes (opened t file)).1).0
      ≡ []
    → (sent sizes (opened t file)).0
      ≡ take t.upload_size (
          recorded memory i (length (recording rs)) (
            take
              (blocks_in (writer_at c (rs ++ more)) j
                - (writer_at c rs).bytes_written / buffer_bytesize)
              (recording more)))
unfolding curr_file_offset
delivery_since memory c rs more i j f t file sizes size split lt breaks found is_file offset small
      limits pos limit over =
    let (_, _, whole, full) = run-start-Inv c rs in
    let (starts, inside) = goes_on_at c rs more j breaks in
    let a = (writer_at c rs).bytes_written / buffer_bytesize in
    let first = first_block c (rs ++ more) j in
    let from : t.offset ≡ channel_buf_size * a = omega (arith, offset, whole, full) in
    delivery memory c (rs ++ more) i j f t file sizes size split lt found is_file small limits pos
      limit over
    ∙ ap (λ n. take t.upload_size (drop n (recorded memory i first (file_blocks c (rs ++ more) j))))
        from
    ∙ ap (take t.upload_size) (
        drop-recorded memory i a first (file_blocks c (rs ++ more) j)
        ∙ ap₂ (recorded memory i) starts (blocks_since c rs more j breaks))
