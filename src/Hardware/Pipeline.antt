-- ===== src/Hardware/Pipeline.antt =====
-- HWThread, ThreadSafeQueue and WriterThread together: from the ring to the files.
use mzntapp_cpp.Base.{
  ℕ, zero, suc, ◌+◌, ◌*◌, ◌%◌, ◌<◌, ◌≡◌, refl, arith, Bool, List, [], ◌∷◌, ◌++◌, length, ap, ap₂,
  ◌∙◌, sym,
}
use mzntapp_cpp.Io.{Env, log_of}
use mzntapp_cpp.Queue.{System, Reach}
use mzntapp_cpp.Queue.Wakeups.{fifo_bounded}
use mzntapp_cpp.Hardware.Calls.{Call, buffer_bytesize, ddr_q_size, pushes_of}
use mzntapp_cpp.Hardware.Dma.{Target, hw_thread}
use mzntapp_cpp.Hardware.Dma.Order.{slots, hw_thread-Checked}
use mzntapp_cpp.Hardware.Writer.{Config, run, start}
use mzntapp_cpp.Hardware.Writer.Sizes.{live}
use mzntapp_cpp.Hardware.Writer.Content.{channel, pieces_of, written_after, channel-run}

abbrev pub oldest_first : List ℕ → List ℕ
oldest_first [] = []
oldest_first (x ∷ xs) = oldest_first xs ++ x ∷ []

-- The addresses of `n` slots in ring order, from slot `k` on, the oldest first.
abbrev pub ring_order : ℕ → ℕ → ℕ → List ℕ
ring_order base k zero = []
ring_order base k (suc n) = (base + k % ddr_q_size * buffer_bytesize) ∷ ring_order base (k + 1) n

-- Each popped address with the value of `m_writeOn` that WriterThread then finds.
abbrev pub paired : List Bool → List ℕ → List (Bool × ℕ)
paired [] ps = []
paired (on ∷ ons) [] = []
paired (on ∷ ons) (p ∷ ps) = (on, p) ∷ paired ons ps

module _ (base : ℕ) where
  ring_order-append :
      (k n : ℕ)
      → ring_order base k n ++ (base + (k + n) % ddr_q_size * buffer_bytesize) ∷ []
        ≡ ring_order base k (suc n)
  ring_order-append k zero = ap (λ j. (base + j % ddr_q_size * buffer_bytesize) ∷ []) (omega arith)
  ring_order-append k (suc n) = ap (◌∷◌ (base + k % ddr_q_size * buffer_bytesize)) (
      ap (λ j. ring_order base (k + 1) n ++ (base + j % ddr_q_size * buffer_bytesize) ∷ [])
        (omega arith)
      ∙ ring_order-append (k + 1) n)

  oldest_first-slots : (n : ℕ) → oldest_first (slots base n) ≡ ring_order base 0 n
  unfolding slots
  oldest_first-slots zero = refl
  oldest_first-slots (suc n) =
      ap (λ xs. xs ++ (base + n % ddr_q_size * buffer_bytesize) ∷ []) (oldest_first-slots n)
      ∙ ap (λ j. ring_order base 0 n ++ (base + j % ddr_q_size * buffer_bytesize) ∷ [])
          (omega arith)
      ∙ ring_order-append 0 n

  -- What comes first in ring order is in ring order.
  prefix_in_order :
      (k n : ℕ) (xs ys : List ℕ)
      → ring_order base k n ≡ xs ++ ys
      → xs ≡ ring_order base k (length xs)
  prefix_in_order k n [] ys e = refl
  prefix_in_order k zero (x ∷ xs) ys e = absurd (cc e)
  prefix_in_order k (suc n) (x ∷ xs) ys e =
      ap₂ (λ y zs. y ∷ zs) (cc e) (prefix_in_order (k + 1) n xs ys (cc e))

-- While HWThread and WriterThread are the two sides of the queue, however the threads interleave and
-- whatever the FPGA answers: the `k`-th pointer that WriterThread pops is slot `k` of the ring, modulo
-- its length; and from its open file back to its first, each channel holds exactly its pieces of the
-- slots that were popped while writing was on, in this order.
pub pipeline :
    (fuel : ℕ) (t : Target) (env : Env Call) {n size : ℕ} {s : System} (c : Config)
    (ons : List Bool) (i : ℕ)
    → Reach n size s
    → s.queue.entered ≡ oldest_first (pushes_of (log_of (hw_thread fuel t env [])))
    → i < c.num_out_files
    → let w = run c (live (paired ons s.queue.left)) (start c) in
      let popped = ring_order t.ddr_base 0 (length s.queue.left) in
      (s.queue.left ≡ popped)
      × (channel c.num_out_files i (w.files ++ w.closed)
          ≡ pieces_of c.split i (written_after [] (paired ons popped)))
pipeline fuel t env {s = s} c ons i r same lt =
    let (n, order, _) = hw_thread-Checked fuel t env in
    let in_order : ring_order t.ddr_base 0 n ≡ s.queue.left ++ s.queue.items =
      sym (oldest_first-slots t.ddr_base n)
      ∙ sym (ap oldest_first order)
      ∙ sym same
      ∙ (fifo_bounded r).0 in
    let popped = prefix_in_order t.ddr_base 0 n s.queue.left s.queue.items in_order in
    (
      popped,
      channel-run c (paired ons s.queue.left) i lt
          ∙ ap (λ ps. pieces_of c.split i (written_after [] (paired ons ps))) popped,
    )
