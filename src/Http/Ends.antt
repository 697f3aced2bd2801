-- ===== src/Http/Ends.antt =====
-- An upload comes to its end: the read callback of src/HTTPClient.cpp.
use mzntapp_cpp.Base.{
  ℕ, ◌+◌, ◌-◌, ◌^◌, ◌≤◌, ◌<◌, ◌≡◌, ltb, refl, true, arith, List, [], ◌∷◌, ◌++◌, length, take, drop,
  All, ◌⊎◌, inl, inr, ap, sym, subst, ◌∙◌, Bool-cases,
}
use mzntapp_cpp.Base.Slices.{length-take, take-nil, drop-nil}
use mzntapp_cpp.Http.{Params, UploadTask, opened, read_size, read_file}
use mzntapp_cpp.Http.Sends.{
  sent, Sending, advance, read_size-le, opened-Sending, sent-Sending, upload_size_of, sent_complete,
}

-- Everything was sent, or the file is read to its end.
abbrev IsOver : Params → Type 0
IsOver p = (p.total ≡ p.upload_size) ⊎ (p.rest ≡ [])

nothing_left :
    (n : ℕ) (p : Params) → p.rest ≡ [] → ((read_file n p).0 ≡ []) × ((read_file n p).1.rest ≡ [])
unfolding read_file
nothing_left n p e = elim (Bool-cases p.good) [
  | inl good ↦ rw good (ap (take n) e ∙ take-nil n, ap (drop n) e ∙ drop-nil n)
  | inr bad ↦ rw bad (refl, e)
]

read_size-full :
    (size : ℕ) (p : Params)
    → 0 < size
    → size < 2 ^ 31
    → p.upload_size < 2 ^ 31
    → p.total ≡ p.upload_size
    → read_size 1 size p ≡ 0
unfolding read_size
read_size-full size p pos h k e = ground arith

read_none :
    (p : Params)
    → p.total < 2 ^ 32
    → ((read_file 0 p).0 ≡ [])
      × ((read_file 0 p).1.total ≡ p.total)
      × ((read_file 0 p).1.upload_size ≡ p.upload_size)
unfolding read_file
read_none p h = ground arith

-- Over, a callback gives nothing and it stays over.
IsOver-stays :
    (size : ℕ) (p : Params)
    → 0 < size
    → size < 2 ^ 31
    → p.upload_size < 2 ^ 31
    → IsOver p
    → ((read_file (read_size 1 size p) p).0 ≡ []) × IsOver (read_file (read_size 1 size p) p).1
IsOver-stays size p pos h k (inr e) =
    let (none, rest) = nothing_left (read_size 1 size p) p e in (none, inr rest)
IsOver-stays size p pos h k (inl e) =
    let zero_size = read_size-full size p pos h k e in
    let (none, same, kept) = read_none p (omega (arith, e, k)) in
    subst (λ n. ((read_file n p).0 ≡ []) × IsOver (read_file n p).1) (sym zero_size)
      (none, inl (same ∙ e ∙ sym kept))

some_left : (xs : List ℕ) → (xs ≡ []) ⊎ (0 < length xs)
some_left [] = inl refl
some_left (x ∷ xs) = inr (omega arith)

read_size-pos :
    (size : ℕ) (p : Params)
    → 0 < size
    → size < 2 ^ 31
    → p.total < p.upload_size
    → p.upload_size < 2 ^ 31
    → 0 < read_size 1 size p
unfolding read_size
read_size-pos size p pos h l k = ground arith

read_some :
    (n : ℕ) (p : Params)
    → p.good ≡ true
    → 0 < n
    → 0 < length p.rest
    → n ≤ p.upload_size - p.total
    → p.upload_size < 2 ^ 31
    → p.total < p.upload_size
    → p.total + 1 ≤ (read_file n p).1.total
unfolding read_file
read_some n p good pos more le small lt =
    rw good (omega (arith, length-take n p.rest, pos, more, le, small, lt))

abbrev Progressed : ℕ → Params → Type 0
Progressed k p = (k ≤ p.total) ⊎ IsOver p

at_or_below : (a b : ℕ) → a ≤ b → (a ≡ b) ⊎ (a < b)
at_or_below a b h = elim (Bool-cases (ltb a b)) [
  | inl e ↦ inr (ground arith)
  | inr e ↦ inl (ground arith)
]

-- A callback with room for a byte sends one, or the upload is over.
callback-Progressed :
    (content given : List ℕ) (k size : ℕ) (p : Params)
    → 0 < size
    → size < 2 ^ 31
    → Sending content given p
    → Progressed k p
    → Progressed (k + 1) (read_file (read_size 1 size p) p).1
callback-Progressed content given k size p pos h s (inr over) =
    inr (IsOver-stays size p pos h s.small over).1
callback-Progressed content given k size p pos h s (inl far) =
    elim (at_or_below p.total p.upload_size s.fits) [
      | inl all ↦ inr (IsOver-stays size p pos h s.small (inl all)).1
      | inr lacks ↦ elim (some_left p.rest) [
        | inl none ↦ inr (IsOver-stays size p pos h s.small (inr none)).1
        | inr more ↦ inl (going more lacks s.ended)
      ]
    ]
  where
    going :
        0 < length p.rest
        → p.total < p.upload_size
        → (p.good ≡ true) ⊎ (p.rest ≡ [])
        → k + 1 ≤ (read_file (read_size 1 size p) p).1.total
    going more lt (inr none) = absurd (omega (arith, ap length none, more))
    going more lt (inl good) =
        let step =
          read_some (read_size 1 size p) p good (read_size-pos size p pos h lt s.small) more
            (read_size-le size p h s.fits s.small) s.small lt in
        omega (arith, step, far)

sent-Progressed :
    (content given : List ℕ) (k : ℕ) (sizes : List ℕ) (p : Params)
    → All (λ n. (0 < n) × (n < 2 ^ 31)) sizes
    → Sending content given p
    → Progressed k p
    → Progressed (k + length sizes) (sent sizes p).1
sent-Progressed content given k [] p hs s g = subst (λ n. Progressed n p) (omega arith) g
sent-Progressed content given k (size ∷ sizes) p (h, hs) s g =
    let p' = (read_file (read_size 1 size p) p).1 in
    subst (λ n. Progressed n (sent sizes p').1) (omega arith)
      (sent-Progressed content (given ++ (read_file (read_size 1 size p) p).0) (k + 1) sizes p' hs
        (advance content given (read_size 1 size p) p (read_size-le size p h.1 s.fits s.small) s)
        (callback-Progressed content given k size p h.0 h.1 s g))

All-small : (sizes : List ℕ) → All (λ n. (0 < n) × (n < 2 ^ 31)) sizes → All (λ n. n < 2 ^ 31) sizes
All-small [] h = tt
All-small (n ∷ sizes) (h, hs) = (h.1, All-small sizes hs)

-- When libcurl has called back as often as the upload is to have bytes (below 2 ^ 31), each time with
-- room for a byte and less than 2 ^ 31, the upload is complete, and the next callback gives none.
pub sent_ends :
    (t : UploadTask) (file sizes : List ℕ) (size : ℕ)
    → t.upload_size < 2 ^ 31
    → All (λ n. (0 < n) × (n < 2 ^ 31)) sizes
    → t.upload_size ≤ length sizes
    → 0 < size
    → size < 2 ^ 31
    → let p = (sent sizes (opened t file)).1 in
      ((sent sizes (opened t file)).0 ≡ take t.upload_size (drop t.offset file))
      × ((read_file (read_size 1 size p) p).0 ≡ [])
unfolding opened
sent_ends t file sizes size h hs enough pos small =
    let start = opened-Sending t file h in
    let p = (sent sizes (opened t file)).1 in
    let s = sent-Sending (drop t.offset file) sizes [] (opened t file) (All-small sizes hs) start in
    let none =
      (IsOver-stays size p pos small s.small (
        over p
          (sent-Progressed (drop t.offset file) [] 0 sizes (opened t file) hs start
            (inl (omega arith)))
          s.fits (upload_size_of sizes (opened t file)))).0 in
    (sent_complete t file sizes size h (All-small sizes hs) pos small none, none)
  where
    over :
        (p : Params)
        → Progressed (0 + length sizes) p
        → p.total ≤ p.upload_size
        → p.upload_size ≡ t.upload_size
        → IsOver p
    over p (inr e) fits same = e
    over p (inl far) fits same = inl (omega (arith, far, fits, same, enough))
