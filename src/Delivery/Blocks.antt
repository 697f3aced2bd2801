-- ===== src/Delivery/Blocks.antt =====
-- The files of a channel as blocks of the recording, which stand in them the newest first.
use mzntapp_cpp.Base.{
  ℕ, zero, suc, ◌+◌, ◌-◌, ◌*◌, ◌≤◌, ◌≡◌, refl, ◌∙◌, sym, ap, ap₂, true, arith, List, [], ◌∷◌, ◌++◌,
  length, take, drop,
}
use mzntapp_cpp.Base.Slices.{
  drop-append_short, drop-all, take-all, take-append_short, length-drop, drop-take,
}
use mzntapp_cpp.Delivery.Bytes.{contents, recorded, contents-recorded, oldest_first-length}
use mzntapp_cpp.Hardware.Calls.{channel_buf_size}
use mzntapp_cpp.Hardware.Pipeline.{oldest_first}
use mzntapp_cpp.Hardware.Writer.{Piece, OutFile}
use mzntapp_cpp.Hardware.Writer.Sizes.{total, file_size}
use mzntapp_cpp.Hardware.Writer.Content.{pieces_of}

-- What stands behind the newest pieces are those of the blocks before.
pieces_of-split :
    (i : ℕ) (pre more : List Piece) (ps : List ℕ)
    → pieces_of true i ps ≡ pre ++ more
    → (total pre ≡ channel_buf_size * length pre)
      × (length pre ≤ length ps)
      × (more ≡ pieces_of true i (drop (length pre) ps))
pieces_of-split i [] more ps e = (omega arith, omega arith, sym e)
pieces_of-split i (x ∷ pre) more [] e = absurd (cc e)
pieces_of-split i (x ∷ pre) more (p ∷ ps) e =
    let (sizes, few, same) = pieces_of-split i pre more ps (cc e) in
    let head : x ≡ record { address = p + i * channel_buf_size; size = channel_buf_size } = cc e in
    (omega (arith, ap (λ y. y.size) head, sizes), omega (arith, few), same)

-- Pieces that start those of some blocks are those of the newest of these blocks.
prefix-pieces :
    (i : ℕ) (xs rest : List Piece) (ps : List ℕ)
    → pieces_of true i ps ≡ xs ++ rest
    → (xs ≡ pieces_of true i (take (length xs) ps))
      × (total xs ≡ channel_buf_size * length xs)
      × (length xs ≤ length ps)
prefix-pieces i [] rest ps e = (refl, omega arith, omega arith)
prefix-pieces i (x ∷ xs) rest [] e = absurd (cc e)
prefix-pieces i (x ∷ xs) rest (p ∷ ps) e =
    let (same, sizes, few) = prefix-pieces i xs rest ps (cc e) in
    let head : x ≡ record { address = p + i * channel_buf_size; size = channel_buf_size } = cc e in
    (
      ap₂ (λ y ys. y ∷ ys) head same,
      omega (arith, ap (λ y. y.size) head, sizes),
      omega (arith, few),
    )

-- The newest are the last.
oldest_first-take :
    (n m : ℕ) (ps : List ℕ)
    → m + n ≡ length ps
    → oldest_first (take n ps) ≡ drop m (oldest_first ps)
oldest_first-take zero m ps h =
    sym (drop-all m (oldest_first ps) (omega (arith, h, oldest_first-length ps)))
oldest_first-take (suc n) m [] h = absurd (omega arith)
oldest_first-take (suc n) m (p ∷ ps) h =
    ap (λ xs. xs ++ p ∷ []) (oldest_first-take n m ps (omega arith))
    ∙ sym
        (drop-append_short m (oldest_first ps) (p ∷ []) (omega (arith, h, oldest_first-length ps)))

oldest_first-drop :
    (p m : ℕ) (ps : List ℕ)
    → m + p ≡ length ps
    → oldest_first (drop p ps) ≡ take m (oldest_first ps)
oldest_first-drop zero m ps h =
    sym (take-all m (oldest_first ps) (omega (arith, h, oldest_first-length ps)))
oldest_first-drop (suc p) m [] h = absurd (omega arith)
oldest_first-drop (suc p) m (x ∷ ps) h =
    oldest_first-drop p m ps (omega arith)
    ∙ sym
        (take-append_short m (oldest_first ps) (x ∷ []) (omega (arith, h, oldest_first-length ps)))

-- Blocks from the middle, in either order.
oldest_first-slice :
    (first p q : ℕ) (ps : List ℕ)
    → first + (p + q) ≡ length ps
    → oldest_first (take q (drop p ps)) ≡ take q (drop first (oldest_first ps))
oldest_first-slice first p q ps h =
    oldest_first-take q first (drop p ps) (omega (arith, h, length-drop p ps))
    ∙ ap (drop first) (oldest_first-drop p (first + q) ps (omega arith))
    ∙ drop-take first q (first + q) (oldest_first ps) refl

-- The bytes of a file of `q` blocks with `p` newer ones behind it.
pub file_recorded :
    (memory : ℕ → ℕ → ℕ) (i p q : ℕ) (ps : List ℕ) (pre : List Piece) (f : OutFile)
    (rest : List Piece)
    → pieces_of true i ps ≡ pre ++ (f.pieces ++ rest)
    → total pre ≡ channel_buf_size * p
    → file_size f ≡ channel_buf_size * q
    → let blocks = oldest_first ps in
      let first = length blocks - (p + q) in
      contents memory first f.pieces ≡ recorded memory i first (take q (drop first blocks))
file_recorded memory i p q ps pre f rest held newer size =
    let first = length (oldest_first ps) - (p + q) in
    let (sizes, few, more) = pieces_of-split i pre (f.pieces ++ rest) ps held in
    let (same, sizes', few') = prefix-pieces i f.pieces rest (drop (length pre) ps) (sym more) in
    let behind : length pre ≡ p = omega (arith, sizes, newer) in
    let inside : length f.pieces ≡ q = omega (arith, sizes', size) in
    let all : first + (p + q) ≡ length ps =
      omega
        (arith, behind, inside, few, few', length-drop (length pre) ps, oldest_first-length ps) in
    ap (contents memory first)
      (same ∙ ap₂ (λ n m. pieces_of true i (take n (drop m ps))) inside behind)
    ∙ contents-recorded memory i first (take q (drop p ps))
    ∙ ap (recorded memory i first) (oldest_first-slice first p q ps all)
