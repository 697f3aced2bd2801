-- ===== src/Delivery/Files.antt =====
-- The open file and the finished files of a channel, among all that WriterThread has written.
use mzntapp_cpp.Base.{
  ℕ, zero, suc, ◌+◌, ◌-◌, ◌*◌, ◌/◌, ◌≤◌, ◌<◌, ◌≡◌, refl, ◌∙◌, sym, ap, ap₂, subst, true, arith,
  List, [], ◌∷◌, ◌++◌, append_assoc, some, All, length, get_elem?,
}
use mzntapp_cpp.Hardware.Writer.{Piece, OutFile, max_file_size}
use mzntapp_cpp.Hardware.Writer.Sizes.{total, file_size, IsFull}
use mzntapp_cpp.Hardware.Writer.Content.{channel}

pub total-append : (xs ys : List Piece) → total (xs ++ ys) ≡ total xs + total ys
total-append [] ys = omega arith
total-append (x ∷ xs) ys = omega (arith, total-append xs ys)

skip_files :
    (n k : ℕ) (xs ys : List OutFile)
    → length xs ≤ k
    → channel n k (xs ++ ys) ≡ channel n (k - length xs) ys
skip_files n k [] ys h = ap (λ i. channel n i ys) (omega arith)
skip_files n zero (x ∷ xs) ys h = absurd (omega arith)
skip_files n (suc k) (x ∷ xs) ys h =
    skip_files n k xs ys (omega arith) ∙ ap (λ i. channel n i ys) (omega arith)

-- The channel's pieces start with those of its open file, and those of its finished files follow.
pub channel-open :
    (n k : ℕ) (xs ys : List OutFile) (f : OutFile)
    → get_elem? xs k ≡ some f
    → length xs ≤ n
    → channel n k (xs ++ ys) ≡ f.pieces ++ channel n (n - length xs + k) ys
channel-open n k [] ys f e h = absurd (cc e)
channel-open n zero (x ∷ xs) ys f e h =
    let same : x ≡ f = cc e in
    ap₂ (λ (g : OutFile) ps. g.pieces ++ ps) same
      (skip_files n (n - 1) xs ys (omega arith) ∙ ap (λ i. channel n i ys) (omega arith))
channel-open n (suc k) (x ∷ xs) ys f e h =
    channel-open n k xs ys f e (omega arith) ∙ ap (λ i. f.pieces ++ channel n i ys) (omega arith)

-- Before the pieces of a finished file stand those of the files that were finished after it.
pub channel-closed :
    (n j k m : ℕ) (fs : List OutFile) (f : OutFile)
    → All (IsFull true) fs
    → k < n
    → m ≡ k + j * n
    → get_elem? fs m ≡ some f
    → (pre : List Piece) × (rest : List Piece) × (channel n k fs ≡ pre ++ (f.pieces ++ rest))
      × (total pre ≡ j * (max_file_size / 4))
      × (file_size f ≡ max_file_size / 4)
channel-closed n j k m [] f full lt at e = absurd (cc e)
channel-closed n j (suc k) zero (g ∷ fs) f full lt at e = absurd (omega arith)
channel-closed n j (suc k) (suc m) (g ∷ fs) f full lt at e =
    channel-closed n j k m fs f full.1 (omega arith) (omega arith) e
channel-closed n zero zero zero (g ∷ fs) f full lt at e =
    let same : g ≡ f = cc e in
    (
      [],
      channel n (n - 1) fs,
      ap (λ (h : OutFile). h.pieces ++ channel n (n - 1) fs) same,
      refl,
      subst (λ h. file_size h ≡ max_file_size / 4) same full.0,
    )
channel-closed n (suc j) zero zero (g ∷ fs) f full lt at e = absurd (omega arith)
channel-closed n zero zero (suc m) (g ∷ fs) f full lt at e = absurd (omega arith)
channel-closed n (suc j) zero (suc m) (g ∷ fs) f full lt at e =
    let (pre, rest, same, size, whole) =
      channel-closed n j (n - 1) m fs f full.1 (omega arith) (omega arith) e in
    (
      g.pieces ++ pre,
      rest,
      ap (◌++◌ g.pieces) same ∙ sym (append_assoc g.pieces pre (f.pieces ++ rest)),
      omega (arith, total-append g.pieces pre, full.0, size),
      whole,
    )
