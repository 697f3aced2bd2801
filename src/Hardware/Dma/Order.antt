-- ===== src/Hardware/Dma/Order.antt =====
-- What HWThread leaves in the log, whatever the FPGA, the scheduler and the other threads do: which
-- slots it queues, in which order, and what it has seen before it starts a transfer.
use mzntapp_cpp.Base.{
  ℕ, zero, suc, ◌+◌, ◌*◌, ◌%◌, ◌^◌, ◌<◌, ◌≡◌, ◌≢◌, ◌⊎◌, inl, inr, refl, sym, Bool, true, false, not,
  arith, ◌==◌, if◌then◌else◌, List, [], ◌∷◌, some, ap, subst, ◌∙◌,
}
use mzntapp_cpp.Io.{
  Io, Log, Env, Outcome, done, exited, hung, faulted, Ensures, Ensures-bind, Stable, log_of,
}
use mzntapp_cpp.Hardware.Calls.{
  cdma, Call, loads, stores, sets_priority, stop_signal, queue_size, pushes, buffer_bytesize,
  ddr_q_size, pushes_of, stores_of, value_at,
}
use mzntapp_cpp.Hardware.Dma.{
  Target, HwState, Next, again, stopped, after_round, hw_round, hw_loop, hw_thread, initial,
  btt_offset, dstaddr_offset,
}
use mzntapp_cpp.Hardware.Dma.Rounds.{is_quiet, Moved, Rule, hw_round-Ensures}

-- The addresses of the first `n` slots in ring order, the newest first.
unfoldable pub slots : ℕ → ℕ → List ℕ
slots base zero = []
slots base (suc n) = (base + n % ddr_q_size * buffer_bytesize) ∷ slots base n

-- A queue size other than the limit has been read since a transfer was started or a slot queued.
abbrev pub room_seen : Log Call → Bool
room_seen [] = false
room_seen ((queue_size, n) ∷ l) = not (n == ddr_q_size)
room_seen ((stores cdma r v, n) ∷ l) = if r == btt_offset then false else room_seen l
room_seen ((pushes p, n) ∷ l) = false
room_seen (_ ∷ l) = room_seen l

-- A transfer has been started since the last slot was queued.
abbrev pub transferring : Log Call → Bool
transferring [] = false
transferring ((stores cdma r v, n) ∷ l) = if r == btt_offset then true else transferring l
transferring ((pushes p, n) ∷ l) = false
transferring (_ ∷ l) = transferring l

-- A queued pointer is a slot of the ring, and the physical address of that slot is what the DMA
-- engine's destination register holds.
abbrev pub IsTarget : Target → ℕ → Log Call → Type 0
IsTarget t p l =
    (k : ℕ) × (k < ddr_q_size)
    × (p ≡ t.ddr_base + k * buffer_bytesize)
    × (value_at cdma dstaddr_offset (stores_of l) ≡ some ((t.paddr + k * buffer_bytesize) % 2 ^ 32))

-- Every transfer was started after room had been seen, and every queued slot was its target.
abbrev pub Checked : Target → Log Call → Type 0
Checked t [] = Unit
Checked t ((stores cdma r v, n) ∷ l) = Checked t l × ((r ≢ btt_offset) ⊎ (room_seen l ≡ true))
Checked t ((pushes p, n) ∷ l) = Checked t l × (transferring l ≡ true) × IsTarget t p l
Checked t (_ ∷ l) = Checked t l

abbrev state_of : Next → HwState
state_of (again s) = s
state_of (stopped s) = s

module _ (t : Target) where
  -- `n` slots have been queued.
  record Queued (n : ℕ) (l : Log Call) : Type 0 where
    pub order : pushes_of l ≡ slots t.ddr_base n
    pub checked : Checked t l

  record Ready (n : ℕ) (l : Log Call) : Type 0 where
    pub queued : Queued n l
    pub room : room_seen l ≡ true

  record Running (n : ℕ) (l : Log Call) : Type 0 where
    pub queued : Queued n l
    pub begun : transferring l ≡ true
    pub aim :
        value_at cdma dstaddr_offset (stores_of l)
        ≡ some ((t.paddr + n % ddr_q_size * buffer_bytesize) % 2 ^ 32)

  quiet : (n : ℕ) (c : Call) → is_quiet c ≡ true → Stable (Queued n) c
  quiet n (stores cdma r v) h a l q = record {
    order = q.order;
    checked = (q.checked, inl (ground arith));
  }
  quiet n (stores _ r v) h a l q = record { order = q.order; checked = q.checked }
  quiet n (pushes p) h a l q = cc
  quiet n _ h a l q = record { order = q.order; checked = q.checked }

  rule : (n : ℕ) → Rule t (n % ddr_q_size) (Queued n) (Ready n) (Running n) (Queued (suc n))
  unfolding slots value_at
  rule n = record {
    quiet = quiet n;
    sees_room = λ a l ne q. record { queued = quiet n queue_size refl a l q; room = ground arith };
    keeps_room = λ r v a l ne j. record {
      queued = record { order = j.queued.order; checked = (j.queued.checked, inl ne) };
      room = ground arith;
    };
    starts = λ a b l j. record {
      queued = record {
        order = j.queued.order;
        checked = ((j.queued.checked, inl (omega arith)), inr j.room);
      };
      begun = refl;
      aim = refl;
    };
    runs = λ r a l m. record {
      queued = quiet n (loads cdma r) refl a l m.queued;
      begun = m.begun;
      aim = m.aim;
    };
    ends = λ l m. m.queued;
    queues = λ a l m. record {
      order = ap (◌∷◌ (t.ddr_base + n % ddr_q_size * buffer_bytesize)) m.queued.order;
      checked = (m.queued.checked, m.begun, (n % ddr_q_size, omega arith, refl, m.aim));
    };
  }

  abbrev Reached : Log Call → Type 0
  Reached l = (n : ℕ) × Queued n l

  abbrev Counted : HwState → Log Call → Type 0
  Counted s l = (n : ℕ) × Queued n l × (s.queue_index ≡ n % ddr_q_size) × (s.loop_cnt ≡ n % 2 ^ 32)

  reached :
      {A : Type 0} (n : ℕ) (Q : A → Log Call → Type 0) (o : Outcome Call A)
      → Ensures (Queued n) Q o
      → Ensures Reached Q o
  reached n Q (done a l) h = h
  reached n Q (exited l) h = (n, h)
  reached n Q (hung l) h = (n, h)
  reached n Q (faulted l) h = (n, h)

  -- What the next rounds start from.
  resumes :
      (n : ℕ) (s : HwState) (next : Next) (l : Log Call)
      → s.queue_index ≡ n % ddr_q_size
      → s.loop_cnt ≡ n % 2 ^ 32
      → Moved (Queued n) (Queued (suc n)) s.queue_index s.loop_cnt next l
      → Counted (state_of next) l
  resumes n s (stopped s') l e c (q, e', c') = (n, q, e' ∙ e, c' ∙ c)
  resumes n s (again s') l e c (inl (q, e', c')) = (n, q, e' ∙ e, c' ∙ c)
  resumes n s (again s') l e c (inr (q, e', c')) = (suc n, q, omega arith, omega arith)

  after_round-Counted :
      (next : Next) (loop : HwState → Io Call HwState) (env : Env Call) (l : Log Call)
      → ((s : HwState) → Counted s l → Ensures Reached Counted (loop s env l))
      → Counted (state_of next) l
      → Ensures Reached Counted (after_round loop next env l)
  after_round-Counted (again s) loop env l h c = h s c
  after_round-Counted (stopped s) loop env l h c = c

  hw_loop-Counted :
      (fuel : ℕ) (s : HwState) (env : Env Call) (log : Log Call)
      → Counted s log
      → Ensures Reached Counted (hw_loop fuel t s env log)
  unfolding hw_loop
  hw_loop-Counted zero s env log (n, q, _, _) = (n, q)
  hw_loop-Counted (suc fuel) s env log (n, q, e, c) =
      let l1 : Log Call = (stop_signal, env log stop_signal) ∷ log in
      let q1 : Queued n l1 = quiet n stop_signal refl (env log stop_signal) log q in
      ground (
        arith,
        (let r : Reached l1 = (n, q1) in r),
        Ensures-bind Reached (Moved (Queued n) (Queued (suc n)) s.queue_index s.loop_cnt) Counted
            (hw_round fuel t s) (after_round (hw_loop fuel t)) env l1
            (reached n _ (hw_round fuel t s env l1) (
              hw_round-Ensures t s (Queued n) (Ready n) (Running n) (Queued (suc n))
                (subst (λ k. Rule t k (Queued n) (Ready n) (Running n) (Queued (suc n))) (sym e)
                  (rule n))
                fuel env l1 q1))
            (λ next l m.
              after_round-Counted next (hw_loop fuel t) env l
                (λ s' h. hw_loop-Counted fuel s' env l h) (resumes n s next l e c m)),
      )

from_outcome :
    {A : Type 0} (t : Target) (Q : A → Log Call → Type 0) (o : Outcome Call A)
    → ((a : A) (l : Log Call) → Q a l → Reached t l)
    → Ensures (Reached t) Q o
    → Reached t (log_of o)
from_outcome t Q (done a l) up h = up a l h
from_outcome t Q (exited l) up h = h
from_outcome t Q (hung l) up h = h
from_outcome t Q (faulted l) up h = h

hw_thread-Counted :
    (fuel : ℕ) (t : Target) (env : Env Call)
    → Ensures (Reached t) (Counted t) (hw_thread fuel t env [])
unfolding hw_thread slots
hw_thread-Counted fuel t env =
    let l1 : Log Call = (sets_priority, env [] sets_priority) ∷ [] in
    let c : Counted t initial l1 = (0, record { order = refl; checked = tt }, refl, refl) in
    ground (arith, c, hw_loop-Counted t fuel initial env l1 c)

-- However long HWThread runs and whatever the FPGA answers, the slots that it has queued are the
-- slots of the ring in order, none skipped or repeated; each was the destination of the DMA engine
-- when it was queued, with a transfer started since the slot before it; and each transfer was started
-- after a reading of the queue's size other than 494, with no slot queued since.
pub hw_thread-Checked :
    (fuel : ℕ) (t : Target) (env : Env Call)
    → let l = log_of (hw_thread fuel t env []) in
      (n : ℕ) × (pushes_of l ≡ slots t.ddr_base n) × Checked t l
hw_thread-Checked fuel t env =
    let (n, q) =
      from_outcome t (Counted t) (hw_thread fuel t env []) (λ s l c. (c.0, c.1))
        (hw_thread-Counted fuel t env) in
    (n, q.order, q.checked)
