-- ===== src/Delivery/Tests.antt =====
-- The upload of a block of a recording, run.
use mzntapp_cpp.Base.{ℕ, ◌≡◌, refl, true, false, Bool, some, List, [], ◌∷◌, codes, to_string, arith}
use mzntapp_cpp.Delivery.{writer_at, file_before, delivery}
use mzntapp_cpp.Delivery.Requests.{delivery_since}
use mzntapp_cpp.Delivery.Bytes.{contents}
use mzntapp_cpp.Hardware.Writer.{
  Config, open_files, break_files, write_channels, write_block, check_limits, maybe_break, round,
  OutFile, run, start, curr_file_offset,
}
use mzntapp_cpp.Http.{UploadTask, opened, read_size, read_file}
use mzntapp_cpp.Http.Sends.{sent}

abbrev config : Config
config = record { ddr_base = 0; num_out_files = 4; split = true; base_name = codes "IF" }

abbrev rounds : List (Bool × ℕ)
rounds = (false, 7) ∷ (true, 0) ∷ (true, 262144) ∷ []

abbrev task : UploadTask
task = record {
  local_filename = codes "IF.CH_1";
  offset = 65533;
  upload_size = 6;
  full_remote_path = codes "host/mz0/eph.IFCH_1";
  port = 1337;
}

abbrev memory : ℕ → ℕ → ℕ
memory k address = k

abbrev file : OutFile
file = record {
  name = codes "IF.CH_1";
  pieces =
      record { address = 327680; size = 65536 } ∷ record { address = 65536; size = 65536 } ∷ [];
}

-- The part from the end of the first block into the second: two callbacks send it.
over :
    (read_file
      (read_size 1 4 (sent (4 ∷ 4 ∷ []) (opened task (contents memory 0 file.pieces))).1)
      (sent (4 ∷ 4 ∷ []) (opened task (contents memory 0 file.pieces))).1).0
    ≡ []
unfolding read_file read_size opened
over = refl

open_file : file_before 4 (writer_at config rounds) 1 0 ≡ some file
unfolding open_files start break_files write_channels write_block check_limits maybe_break round run
    to_string
open_file = refl

delivery_example :
    (sent (4 ∷ 4 ∷ []) (opened task (contents memory 0 file.pieces))).0 ≡ 0 ∷ 0 ∷ 0 ∷ 1 ∷ 1 ∷ 1 ∷ []
unfolding run round check_limits write_block maybe_break start
delivery_example =
    delivery memory config rounds 1 0 file task (contents memory 0 file.pieces) (4 ∷ 4 ∷ []) 4 refl
      (omega arith) open_file refl (omega arith) (omega arith, (omega arith, tt)) (omega arith)
      (omega arith) over

-- A request after the first block, for five bytes, and an upload two rounds later.
abbrev short_task : UploadTask
short_task = record task { offset = 65536; upload_size = 5 }

short_over :
    (read_file
      (read_size 1 8 (sent (8 ∷ []) (opened short_task (contents memory 0 file.pieces))).1)
      (sent (8 ∷ []) (opened short_task (contents memory 0 file.pieces))).1).0
    ≡ []
unfolding read_file read_size opened
short_over = refl

delivery_since_example :
    (sent (8 ∷ []) (opened short_task (contents memory 0 file.pieces))).0 ≡ 1 ∷ 1 ∷ 1 ∷ 1 ∷ 1 ∷ []
unfolding run round check_limits write_block maybe_break start curr_file_offset
delivery_since_example =
    delivery_since memory config ((false, 7) ∷ (true, 0) ∷ []) ((true, 262144) ∷ []) 1 0 file
      short_task (contents memory 0 file.pieces) (8 ∷ []) 8 refl (omega arith) refl open_file refl
      refl (omega arith) (omega arith, tt) (omega arith) (omega arith) short_over
