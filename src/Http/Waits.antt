-- ===== src/Http/Waits.antt =====
-- The read callback of src/HTTPClient.h with its busy wait for the queue of pointers, called as often as
-- libcurl likes.
use mzntapp_cpp.Base.{
  ℕ, zero, suc, ◌/◌, ◌^◌, ◌≤◌, ◌<◌, ◌≡◌, refl, Bool, true, false, not, arith, ltb, le→ltb,
  if◌then◌else◌, List, [], ◌∷◌, ◌++◌, length, take, drop, All, ap, ◌∙◌, Bool-cases, inl, inr,
}
use mzntapp_cpp.Io.{Io, Log, Env, poll, pure, ◌>>=◌, Returns, Returns-bind, Returns-mono}
use mzntapp_cpp.Hardware.Calls.{ddr_q_size}
use mzntapp_cpp.Http.{
  Params, UploadTask, Call, queue_size, opened, read_size, read_file, read_callback,
}
use mzntapp_cpp.Http.Sends.{sent}
use mzntapp_cpp.Http.Ends.{sent_ends}

-- libcurl asks for buffers of these sizes, one after the other.
unfoldable pub sends : ℕ → Bool → List ℕ → Params → Io Call (List ℕ × Params)
sends fuel has_handle [] p = pure ([], p)
sends fuel has_handle (size ∷ sizes) p = read_callback fuel has_handle 1 size p >>= λ r.
    sends fuel has_handle sizes r.1 >>= λ m. pure (r.0 ++ m.0, m.1)

-- The log after some more readings of the queue's size.
abbrev pub later : Env Call → ℕ → Log Call → Log Call
later env zero log = log
later env (suc k) log = later env k ((queue_size, env log queue_size) ∷ log)

-- The writer drains the queue: of any `fuel` readings of its size in a row, one is half the ring at most.
abbrev pub Drains : ℕ → Env Call → Type 0
Drains fuel env =
    (log : Log Call) → (k : ℕ) × (k < fuel) × (env (later env k log) queue_size ≤ ddr_q_size / 2)

poll-Returns :
    (env : Env Call) (k fuel : ℕ) (log : Log Call)
    → k < fuel
    → env (later env k log) queue_size ≤ ddr_q_size / 2
    → Returns (poll fuel queue_size (λ n. not (ltb (ddr_q_size / 2) n)) env log) (λ _ _. Unit)
unfolding poll
poll-Returns env k zero log h low = absurd (omega arith)
poll-Returns env zero (suc fuel) log h low = rw (le→ltb (ddr_q_size / 2) _ low) tt
poll-Returns env (suc k) (suc fuel) log h low =
    elim (Bool-cases (ltb (ddr_q_size / 2) (env log queue_size))) [
      | inl high ↦
          rw high
            (poll-Returns env k fuel ((queue_size, env log queue_size) ∷ log) (omega arith) low)
      | inr below ↦ rw below tt
    ]

module _ (fuel : ℕ) (has_handle : Bool) (env : Env Call)
    (drains : has_handle ≡ true → Drains fuel env) where
  read_callback-Returns :
      (size : ℕ) (p : Params) (log : Log Call)
      → Returns
          (read_callback fuel has_handle 1 size p env log)
          (λ r _. r ≡ read_file (read_size 1 size p) p)
  unfolding read_callback
  read_callback-Returns size p log =
      Returns-bind (λ _ _. Unit) (λ r _. r ≡ read_file (read_size 1 size p) p)
        (if has_handle then poll fuel queue_size (λ n. not (ltb (ddr_q_size / 2) n)) else pure 0)
        (λ _. pure (read_file (read_size 1 size p) p)) env log (waits has_handle drains)
        (λ _ l e. refl)
    where
      waits :
          (b : Bool)
          → (b ≡ true → Drains fuel env)
          → Returns
              ((if b then poll fuel queue_size (λ n. not (ltb (ddr_q_size / 2) n)) else pure 0) env
                log)
              (λ _ _. Unit)
      waits false d = tt
      waits true d = let (k, below, low) = d refl log in poll-Returns env k fuel log below low

  -- The callbacks return, with the bytes that the reads alone give.
  sends-Returns :
      (sizes : List ℕ) (p : Params) (log : Log Call)
      → Returns (sends fuel has_handle sizes p env log) (λ r _. r ≡ sent sizes p)
  unfolding sends
  sends-Returns [] p log = refl
  sends-Returns (size ∷ sizes) p log =
      Returns-bind (λ r _. r ≡ read_file (read_size 1 size p) p) (λ r _. r ≡ sent (size ∷ sizes) p)
        (read_callback fuel has_handle 1 size p)
        (λ r. sends fuel has_handle sizes r.1 >>= λ m. pure (r.0 ++ m.0, m.1)) env log
        (read_callback-Returns size p log)
        (λ r l e.
          Returns-bind (λ m _. m ≡ sent sizes r.1) (λ m _. m ≡ sent (size ∷ sizes) p)
            (sends fuel has_handle sizes r.1) (λ m. pure (r.0 ++ m.0, m.1)) env l
            (sends-Returns sizes r.1 l) (λ m l' e'. rw (e', e) refl))

-- Where the queue is drained, so that of any `fuel` readings of its size in a row one is half the ring
-- at most, or where the callback has no handle of the hardware: when libcurl has called back as often
-- as the upload is to have bytes (below 2 ^ 31), each time with room for a byte and less than 2 ^ 31,
-- each callback has returned from its busy wait, and the bytes that were sent are those of the file
-- from the offset on, as many as the upload is to have or as the file holds; and the next callback
-- returns too, and gives none, which ends the transfer.
pub sends-ends :
    (fuel : ℕ) (has_handle : Bool) (t : UploadTask) (file sizes : List ℕ) (size : ℕ)
    (env : Env Call) (log : Log Call)
    → (has_handle ≡ true → Drains fuel env)
    → t.upload_size < 2 ^ 31
    → All (λ n. (0 < n) × (n < 2 ^ 31)) sizes
    → t.upload_size ≤ length sizes
    → 0 < size
    → size < 2 ^ 31
    → Returns (sends fuel has_handle sizes (opened t file) env log) λ r l.
      (r.0 ≡ take t.upload_size (drop t.offset file))
      × Returns (read_callback fuel has_handle 1 size r.1 env l) (λ q _. q.0 ≡ [])
sends-ends fuel has_handle t file sizes size env log drains h hs enough pos small =
    let (whole, none) = sent_ends t file sizes size h hs enough pos small in
    Returns-mono (λ r _. r ≡ sent sizes (opened t file))
      (λ r l.
        (r.0 ≡ take t.upload_size (drop t.offset file))
        × Returns (read_callback fuel has_handle 1 size r.1 env l) (λ q _. q.0 ≡ []))
      (sends fuel has_handle sizes (opened t file) env log)
      (λ r l e. (
        ap (λ x. x.0) e ∙ whole,
        Returns-mono (λ q _. q ≡ read_file (read_size 1 size r.1) r.1) (λ q _. q.0 ≡ [])
            (read_callback fuel has_handle 1 size r.1 env l)
            (λ q _ e'.
              ap (λ x. x.0) e' ∙ ap (λ x. (read_file (read_size 1 size x.1) x.1).0) e ∙ none)
            (read_callback-Returns fuel has_handle env drains size r.1 l),
      ))
      (sends-Returns fuel has_handle env drains sizes (opened t file) log)
