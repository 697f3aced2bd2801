-- ===== src/Http/Sends.antt =====
-- Which bytes of the file an upload sends.
use mzntapp_cpp.Base.{
  ℕ, zero, suc, ◌-◌, ◌^◌, ◌≤◌, ◌<◌, ◌≡◌, refl, true, not, arith, ltb, List, [], ◌∷◌, ◌++◌, length,
  length-append, take, drop, append-nil, append_assoc, All, ◌⊎◌, inl, inr, ap, sym, subst, ◌∙◌,
  Bool-cases,
}
use mzntapp_cpp.Base.Slices.{take-append-drop, length-take, take-all, drop-all}
use mzntapp_cpp.Http.{Params, UploadTask, opened, read_size, read_file}

-- What libcurl has been given after it asked for buffers of these sizes, and the state then.
abbrev pub sent : List ℕ → Params → List ℕ × Params
sent [] p = ([], p)
sent (size ∷ sizes) p =
    let (bytes, p') = read_file (read_size 1 size p) p in
    let (more, p'') = sent sizes p' in (bytes ++ more, p'')

-- The bytes of the content that were given, and what is left.
pub record Sending (content given : List ℕ) (p : Params) : Type 0 where
  pub parts : content ≡ given ++ p.rest
  pub counted : length given ≡ p.total
  pub fits : p.total ≤ p.upload_size
  pub small : p.upload_size < 2 ^ 31
  pub ended : (p.good ≡ true) ⊎ (p.rest ≡ [])

take-prefix : (n : ℕ) (xs ys : List ℕ) → length xs ≡ n → take n (xs ++ ys) ≡ xs
take-prefix zero [] ys h = refl
take-prefix zero (x ∷ xs) ys h = absurd (omega arith)
take-prefix (suc n) [] ys h = absurd (omega arith)
take-prefix (suc n) (x ∷ xs) ys h = ap (◌∷◌ x) (take-prefix n xs ys (omega arith))

-- A call never asks for more than the upload has left.
pub read_size-le :
    (size : ℕ) (p : Params)
    → size < 2 ^ 31
    → p.total ≤ p.upload_size
    → p.upload_size < 2 ^ 31
    → read_size 1 size p ≤ p.upload_size - p.total
unfolding read_size
read_size-le size p h k l = ground arith

short-ended : {X : Type 0} (l n : ℕ) → (l ≤ n → X) → (not (ltb l n) ≡ true) ⊎ X
short-ended l n h = elim (Bool-cases (ltb l n)) [
  | inl e ↦ inr (h (ground arith))
  | inr e ↦ inl (rw e refl)
]

pub advance :
    (content given : List ℕ) (n : ℕ) (p : Params)
    → n ≤ p.upload_size - p.total
    → Sending content given p
    → let (bytes, p') = read_file n p in Sending content (given ++ bytes) p'
unfolding read_file
advance content given n p h s = elim (Bool-cases p.good) [
  | inl e ↦ rw e record {
    parts =
        s.parts ∙ ap (◌++◌ given) (sym (take-append-drop n p.rest)) ∙ sym (append_assoc given _ _);
    counted = omega (
      arith,
      length-append given (take n p.rest),
      length-take n p.rest,
      s.counted,
      s.fits,
      s.small,
    );
    fits = omega (arith, length-take n p.rest, s.fits, s.small);
    small = s.small;
    ended = short-ended (length p.rest) n (drop-all n p.rest);
  }
  | inr e ↦ simp (e, append-nil) s
]

pub sent-Sending :
    (content : List ℕ) (sizes : List ℕ) (given : List ℕ) (p : Params)
    → All (λ size. size < 2 ^ 31) sizes
    → Sending content given p
    → let (bytes, p') = sent sizes p in Sending content (given ++ bytes) p'
sent-Sending content [] given p h s = rw (append-nil given) s
sent-Sending content (size ∷ sizes) given p (h, hs) s =
    subst (λ xs. Sending content xs (sent (size ∷ sizes) p).1) (append_assoc given _ _)
      (sent-Sending content sizes (given ++ (read_file (read_size 1 size p) p).0)
        (read_file (read_size 1 size p) p).1 hs
        (advance content given (read_size 1 size p) p (read_size-le size p h s.fits s.small) s))

take-empty : (n : ℕ) (xs : List ℕ) → take n xs ≡ [] → (n ≡ 0) ⊎ (xs ≡ [])
take-empty zero xs h = inl refl
take-empty (suc n) [] h = inr refl
take-empty (suc n) (x ∷ xs) h = absurd (cc h)

read_size-zero :
    (size : ℕ) (p : Params)
    → 0 < size
    → size < 2 ^ 31
    → p.total ≤ p.upload_size
    → p.upload_size < 2 ^ 31
    → read_size 1 size p ≡ 0
    → p.total ≡ p.upload_size
unfolding read_size
read_size-zero size p pos h k l e = ground arith

read_file-empty :
    (n : ℕ) (p : Params)
    → (p.good ≡ true) ⊎ (p.rest ≡ [])
    → (read_file n p).0 ≡ []
    → (n ≡ 0) ⊎ (p.rest ≡ [])
unfolding read_file
read_file-empty n p (inr h) e = inr h
read_file-empty n p (inl good) e = take-empty n p.rest (ground (arith, good, e))

pub upload_size_of : (sizes : List ℕ) (p : Params) → (sent sizes p).1.upload_size ≡ p.upload_size
unfolding read_file
upload_size_of [] p = refl
upload_size_of (size ∷ sizes) p =
    upload_size_of sizes (read_file (read_size 1 size p) p).1 ∙ kept (read_size 1 size p) p
  where
    kept : (n : ℕ) (p : Params) → (read_file n p).1.upload_size ≡ p.upload_size
    kept n p = ground arith

stopped :
    (content given : List ℕ) (p : Params)
    → Sending content given p
    → (p.total ≡ p.upload_size) ⊎ (p.rest ≡ [])
    → given ≡ take p.upload_size content
stopped content given p s (inl all) =
    sym (take-prefix p.upload_size given p.rest (s.counted ∙ all))
    ∙ ap (take p.upload_size) (sym s.parts)
stopped content given p s (inr none_left) = sym (
    ap (take p.upload_size) whole ∙ take-all p.upload_size given (omega (arith, s.counted, s.fits)))
  where
    whole : content ≡ given
    whole = s.parts ∙ ap (◌++◌ given) none_left ∙ append-nil given

pub opened-Sending :
    (t : UploadTask) (file : List ℕ)
    → t.upload_size < 2 ^ 31
    → Sending (drop t.offset file) [] (opened t file)
unfolding opened
opened-Sending t file h = record {
  parts = refl;
  counted = refl;
  fits = omega arith;
  small = h;
  ended = inl refl;
}

-- Whatever sizes of buffers (below 2 ^ 31) libcurl asks for, once a callback with room for a byte
-- returns none, the bytes that were sent are those of the file from the offset on, as many as the
-- upload is to have (below 2 ^ 31) or as the file holds.
pub sent_complete :
    (t : UploadTask) (file sizes : List ℕ) (size : ℕ)
    → t.upload_size < 2 ^ 31
    → All (λ size. size < 2 ^ 31) sizes
    → 0 < size
    → size < 2 ^ 31
    → (read_file (read_size 1 size (sent sizes (opened t file)).1) (sent sizes (opened t file)).1).0
      ≡ []
    → (sent sizes (opened t file)).0 ≡ take t.upload_size (drop t.offset file)
unfolding opened
sent_complete t file sizes size h hs pos small empty =
    let p = (sent sizes (opened t file)).1 in
    let s =
      sent-Sending (drop t.offset file) sizes [] (opened t file) hs (opened-Sending t file h) in
    stopped _ _ p s (elim (read_file-empty (read_size 1 size p) p s.ended empty) [
      | inl zero_size ↦ inl (read_size-zero size p pos small s.fits s.small zero_size)
      | inr over ↦ inr over
    ])
    ∙ ap (λ n. take n (drop t.offset file)) (upload_size_of sizes (opened t file))
