-- ===== src/Delivery/Bytes.antt =====
-- The bytes of the recorded files, and of parts of them.
use mzntapp_cpp.Base.{
  ℕ, zero, suc, ◌+◌, ◌*◌, ◌≡◌, refl, ◌∙◌, sym, ap, ap₂, true, arith, List, [], ◌∷◌, ◌++◌,
  append-nil, append_assoc, length, length-append, drop,
}
use mzntapp_cpp.Base.Slices.{drop-append, drop-nil}
use mzntapp_cpp.Hardware.Calls.{channel_buf_size}
use mzntapp_cpp.Hardware.Pipeline.{oldest_first}
use mzntapp_cpp.Hardware.Writer.{Piece}
use mzntapp_cpp.Hardware.Writer.Content.{pieces_of}

-- The bytes of a piece of memory.
abbrev pub bytes_at : (ℕ → ℕ) → ℕ → ℕ → List ℕ
bytes_at memory address zero = []
bytes_at memory address (suc n) = memory address ∷ bytes_at memory (address + 1) n

-- The bytes of a file, whose newest piece stands first. `memory k` is the memory when block `k` of the
-- recording is written, and the file starts with block `first`.
abbrev pub contents : (ℕ → ℕ → ℕ) → ℕ → List Piece → List ℕ
contents memory first [] = []
contents memory first (p ∷ older) =
    contents memory first older ++ bytes_at (memory (first + length older)) p.address p.size

-- The bytes of channel `i` in blocks at these addresses, the oldest first, from block `k` on.
abbrev pub recorded : (ℕ → ℕ → ℕ) → ℕ → ℕ → List ℕ → List ℕ
recorded memory i k [] = []
recorded memory i k (p ∷ ps) =
    bytes_at (memory k) (p + i * channel_buf_size) channel_buf_size ++ recorded memory i (k + 1) ps

length-bytes_at : (memory : ℕ → ℕ) (address n : ℕ) → length (bytes_at memory address n) ≡ n
length-bytes_at memory address zero = refl
length-bytes_at memory address (suc n) = ap suc (length-bytes_at memory (address + 1) n)

pub oldest_first-length : (ps : List ℕ) → length (oldest_first ps) ≡ length ps
oldest_first-length [] = refl
oldest_first-length (p ∷ ps) =
    omega (arith, length-append (oldest_first ps) (p ∷ []), oldest_first-length ps)

module _ (memory : ℕ → ℕ → ℕ) (i : ℕ) where
  pub drop-recorded :
      (a k : ℕ) (ps : List ℕ)
      → drop (channel_buf_size * a) (recorded memory i k ps) ≡ recorded memory i (k + a) (drop a ps)
  drop-recorded zero k ps = ap (λ j. recorded memory i j ps) (omega arith)
  drop-recorded (suc a) k [] = drop-nil (channel_buf_size * suc a)
  drop-recorded (suc a) k (p ∷ ps) =
      drop-append (channel_buf_size * suc a) (channel_buf_size * a)
        (bytes_at (memory k) (p + i * channel_buf_size) channel_buf_size)
        (recorded memory i (k + 1) ps)
        (omega (arith, length-bytes_at (memory k) (p + i * channel_buf_size) channel_buf_size))
      ∙ drop-recorded a (k + 1) ps
      ∙ ap (λ j. recorded memory i j (drop a ps)) (omega arith)

  recorded-append :
      (k p : ℕ) (ps : List ℕ)
      → recorded memory i k (ps ++ p ∷ [])
        ≡ recorded memory i k ps
          ++ bytes_at (memory (k + length ps)) (p + i * channel_buf_size) channel_buf_size
  recorded-append k p [] =
      append-nil _
      ∙ ap (λ j. bytes_at (memory j) (p + i * channel_buf_size) channel_buf_size) (omega arith)
  recorded-append k p (q ∷ ps) =
      ap (◌++◌ (bytes_at (memory k) (q + i * channel_buf_size) channel_buf_size)) (
        recorded-append (k + 1) p ps
        ∙ ap
            (λ j.
              recorded memory i (k + 1) ps
              ++ bytes_at (memory j) (p + i * channel_buf_size) channel_buf_size)
            (omega arith))
      ∙ sym (
          append_assoc (bytes_at (memory k) (q + i * channel_buf_size) channel_buf_size)
            (recorded memory i (k + 1) ps) _)

  pieces_of-length : (ps : List ℕ) → length (pieces_of true i ps) ≡ length ps
  pieces_of-length [] = refl
  pieces_of-length (p ∷ ps) = ap suc (pieces_of-length ps)

  -- What stands in a file of the channel with the pieces of these blocks.
  pub contents-recorded :
      (first : ℕ) (ps : List ℕ)
      → contents memory first (pieces_of true i ps) ≡ recorded memory i first (oldest_first ps)
  contents-recorded first [] = refl
  contents-recorded first (p ∷ ps) =
      ap₂ (λ xs k. xs ++ bytes_at (memory k) (p + i * channel_buf_size) channel_buf_size)
        (contents-recorded first ps) (omega (arith, pieces_of-length ps, oldest_first-length ps))
      ∙ sym (recorded-append first p (oldest_first ps))
