-- ===== src/Hardware/Shutdown/Inv.antt =====
-- What holds in every state of Stop, HWThread and WriterThread: where the null pointer is.
use mzntapp_cpp.Base.{
  ℕ, ◌+◌, ◌≡◌, ◌≢◌, refl, ◌∙◌, ap, arith, List, [], ◌∷◌, ◌++◌, Option, none, some, length,
  length-append, ◌⊎◌, inl, inr,
}
use mzntapp_cpp.Hardware.Shutdown.{
  hw_ended, writer_ended, pushing_null, joining_writer, returned, Threads, Step, interrupt,
  sees_stop, queues, fails, bus_busy, takes, writes, ends, calls, many, throws, few, joins_hw,
  pushes_null, joins_writer, Reach, here, next,
}

-- Slots, with what follows them.
abbrev pub and_then : List ℕ → List (Option ℕ) → List (Option ℕ)
and_then [] q = q
and_then (k ∷ ks) q = some k ∷ and_then ks q

-- Before the null pointer is pushed, only slots are queued and the writer goes on.
pub data Before (s : Threads) : Type 0 where
  plain :
      (ks : List ℕ)
      → s.queue ≡ and_then ks []
      → s.writer ≢ writer_ended
      → s.stop ≢ joining_writer
      → s.stop ≢ returned
      → (s.stop ≡ pushing_null → s.hw ≡ hw_ended)
      → length s.queue + s.taken + s.thrown ≡ s.pushed
      → Before s

-- HWThread has ended, and the null pointer is the last that is queued.
pub data Sent (s : Threads) : Type 0 where
  closed :
      (ks : List ℕ)
      → s.queue ≡ and_then ks (none ∷ [])
      → s.writer ≢ writer_ended
      → s.stop ≡ joining_writer
      → s.hw ≡ hw_ended
      → length s.queue + s.taken + s.thrown ≡ s.pushed + 1
      → Sent s

-- The null pointer has ended the writer.
pub data Over (s : Threads) : Type 0 where
  drained :
      s.queue ≡ []
      → s.writer ≡ writer_ended
      → (s.stop ≡ joining_writer) ⊎ (s.stop ≡ returned)
      → s.hw ≡ hw_ended
      → s.taken + s.thrown ≡ s.pushed
      → Over s

pub data Phase (s : Threads) : Type 0 where
  before : Before s → Phase s
  sent : Sent s → Phase s
  over : Over s → Phase s

and_then-append : (ks : List ℕ) (k : ℕ) → and_then ks [] ++ some k ∷ [] ≡ and_then (ks ++ k ∷ []) []
and_then-append [] k = refl
and_then-append (j ∷ ks) k = ap (◌∷◌ (some j)) (and_then-append ks k)

and_then-null : (ks : List ℕ) → and_then ks [] ++ none ∷ [] ≡ and_then ks (none ∷ [])
and_then-null [] = refl
and_then-null (j ∷ ks) = ap (◌∷◌ (some j)) (and_then-null ks)

Before-next : {s t : Threads} → Before s → Step s t → Phase t
Before-next (plain ks q w j r h n) (interrupt a b) =
    before (plain ks q w j r (λ e. absurd (cc (a, e))) n)
Before-next (plain ks q w j r h n) (sees_stop a b) = before (plain ks q w j r (λ e. refl) n)
Before-next {s} (plain ks q w j r h n) (queues k a b) = before (
    plain (ks ++ k ∷ []) (ap (λ l. l ++ some k ∷ []) q ∙ and_then-append ks k) w j r
      (λ e. absurd (cc (a, h e))) (omega (arith, length-append s.queue (some k ∷ []), n)))
Before-next (plain ks q w j r h n) (fails a b) =
    before (plain ks q w j r (λ e. absurd (cc (a, h e))) n)
Before-next (plain ks q w j r h n) (bus_busy a) = before (plain ks q w j r (λ e. refl) n)
Before-next (plain [] q w j r h n) (takes a b) = absurd (cc (q, b))
Before-next (plain (k ∷ ks) q w j r h n) (takes a b) =
    before (plain ks (cc (q, b)) (λ e. absurd (cc e)) j r h (omega (arith, ap length b, n)))
Before-next (plain ks q w j r h n) (writes a) = before (plain ks q (λ e. absurd (cc e)) j r h n)
Before-next (plain [] q w j r h n) (ends a b) = absurd (cc (q, b))
Before-next (plain (k ∷ ks) q w j r h n) (ends a b) = absurd (cc (q, b))
Before-next (plain ks q w j r h n) (calls a) =
    before (plain ks q w (λ e. cc e) (λ e. cc e) (λ e. cc e) n)
Before-next (plain ks q w j r h n) (many a b) =
    before (plain ks q w (λ e. cc e) (λ e. cc e) (λ e. cc e) n)
Before-next (plain [] q w j r h n) (throws a b) = absurd (cc (q, b))
Before-next (plain (k ∷ ks) q w j r h n) (throws a b) =
    before
      (plain ks (cc (q, b)) w (λ e. cc e) (λ e. cc e) (λ e. cc e) (omega (arith, ap length b, n)))
Before-next (plain ks q w j r h n) (few a b) =
    before (plain ks q w (λ e. cc e) (λ e. cc e) (λ e. cc e) n)
Before-next (plain ks q w j r h n) (joins_hw a b) =
    before (plain ks q w (λ e. cc e) (λ e. cc e) (λ e. b) n)
Before-next {s} (plain ks q w j r h n) (pushes_null a b) = sent (
    closed ks (ap (λ l. l ++ none ∷ []) q ∙ and_then-null ks) w refl (h a)
      (omega (arith, length-append s.queue (none ∷ []), n)))
Before-next (plain ks q w j r h n) (joins_writer a b) = absurd (j a)

Sent-next : {s t : Threads} → Sent s → Step s t → Phase t
Sent-next (closed ks q w j h n) (interrupt a b) = absurd (cc (j, a))
Sent-next (closed ks q w j h n) (sees_stop a b) = absurd (cc (h, b))
Sent-next (closed ks q w j h n) (queues k a b) = absurd (cc (h, a))
Sent-next (closed ks q w j h n) (fails a b) = absurd (cc (h, a))
Sent-next (closed ks q w j h n) (bus_busy a) = absurd (cc (h, a))
Sent-next (closed [] q w j h n) (takes a b) = absurd (cc (q, b))
Sent-next (closed (k ∷ ks) q w j h n) (takes a b) =
    sent (closed ks (cc (q, b)) (λ e. absurd (cc e)) j h (omega (arith, ap length b, n)))
Sent-next (closed ks q w j h n) (writes a) = sent (closed ks q (λ e. absurd (cc e)) j h n)
Sent-next (closed [] q w j h n) (ends a b) =
    over (drained (cc (q, b)) refl (inl j) h (omega (arith, ap length q, n)))
Sent-next (closed (k ∷ ks) q w j h n) (ends a b) = absurd (cc (q, b))
Sent-next (closed ks q w j h n) (calls a) = absurd (cc (j, a))
Sent-next (closed ks q w j h n) (many a b) = absurd (cc (j, a))
Sent-next (closed ks q w j h n) (throws a b) = absurd (cc (j, a))
Sent-next (closed ks q w j h n) (few a b) = absurd (cc (j, a))
Sent-next (closed ks q w j h n) (joins_hw a b) = absurd (cc (j, a))
Sent-next (closed ks q w j h n) (pushes_null a b) = absurd (cc (j, a))
Sent-next (closed ks q w j h n) (joins_writer a b) = absurd (w b)

Over-next : {s t : Threads} → Over s → Step s t → Phase t
Over-next (drained q w j h n) (interrupt a b) = absurd (cc (h, b))
Over-next (drained q w j h n) (sees_stop a b) = absurd (cc (h, b))
Over-next (drained q w j h n) (queues k a b) = absurd (cc (h, a))
Over-next (drained q w j h n) (fails a b) = absurd (cc (h, a))
Over-next (drained q w j h n) (bus_busy a) = absurd (cc (h, a))
Over-next (drained q w j h n) (takes a b) = absurd (cc (w, a))
Over-next (drained q w j h n) (writes a) = absurd (cc (w, a))
Over-next (drained q w j h n) (ends a b) = absurd (cc (w, a))
Over-next (drained q w (inl j) h n) (calls a) = absurd (cc (j, a))
Over-next (drained q w (inr j) h n) (calls a) = absurd (cc (j, a))
Over-next (drained q w j h n) (many a b) = absurd (omega (arith, ap length q, b))
Over-next (drained q w j h n) (throws a b) = absurd (cc (q, b))
Over-next (drained q w (inl j) h n) (few a b) = absurd (cc (j, a))
Over-next (drained q w (inr j) h n) (few a b) = absurd (cc (j, a))
Over-next (drained q w (inl j) h n) (joins_hw a b) = absurd (cc (j, a))
Over-next (drained q w (inr j) h n) (joins_hw a b) = absurd (cc (j, a))
Over-next (drained q w (inl j) h n) (pushes_null a b) = absurd (cc (j, a))
Over-next (drained q w (inr j) h n) (pushes_null a b) = absurd (cc (j, a))
Over-next (drained q w j h n) (joins_writer a b) = over (drained q w (inr refl) h n)

pub Reach-Phase : {s : Threads} → Reach s → Phase s
Reach-Phase here = before (plain [] refl (λ e. cc e) (λ e. cc e) (λ e. cc e) (λ e. cc e) refl)
Reach-Phase (next r step) = elim (Reach-Phase r) [
  | before v ↦ Before-next v step
  | sent v ↦ Sent-next v step
  | over v ↦ Over-next v step
]
