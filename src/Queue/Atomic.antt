-- ===== src/Queue/Atomic.antt =====
-- ThreadSafeQueue as its callers see it: a bounded queue with a put, a get and a size that happen at once.
use native.Mathlib.Decide.{ℕ_discrete}
use mzntapp_cpp.Base.Count.{update, update_same, update_ne, le-count}
use mzntapp_cpp.Base.{
  ℕ, ◌<◌, ◌≡◌, ◌≢◌, ap, sym, subst, ◌∙◌, List, [], ◌∷◌, ◌++◌, arith, length, ◌⊎◌, inl, inr,
}
use mzntapp_cpp.Queue.{
  Pc, push_put, pop_take, Queue, Move, push_call, push_locks, push_full, push_room, push_puts,
  pop_call, pop_locks, pop_empty, pop_some, pop_takes, size_call, size_locks, size_reads,
  size_returns, System, Step, moves, wakes_pop, no_pop_waits, wakes_push, no_push_waits,
  spurious_pop, spurious_push, Reach,
}
use mzntapp_cpp.Queue.Inv.{puts, Inv, Reach-Inv}

-- What is in the queue, and what went in and came out so far.
pub record Fifo : Type 0 where
  pub items : List ℕ
  pub entered : List ℕ
  pub left : List ℕ

-- Where a thread stands in a call: it is to put a value, to get one or to read the size, it has done so, or it is in
-- no call.
pub data Stand : Type 0 where
  idle : Stand
  to_put : ℕ → Stand
  to_get : Stand
  finished : Stand
  to_size : Stand
  answered : ℕ → Stand

-- A thread's step: the operations, each at once, and the calls and returns around them.
pub data Atomic (size : ℕ) (q : Fifo) : Stand → Fifo → Stand → Type 0 where
  put :
      {v : ℕ}
      → length q.items < size
      → Atomic size q
          (to_put v)
          (record q { items = q.items ++ v ∷ []; entered = q.entered ++ v ∷ [] })
          finished
  get :
      {v : ℕ} {rest : List ℕ}
      → q.items ≡ v ∷ rest
      → Atomic size q to_get (record q { items = rest; left = q.left ++ v ∷ [] }) finished
  get_size : Atomic size q to_size q (answered (length q.items))
  calls_put : (v : ℕ) → Atomic size q idle q (to_put v)
  calls_get : Atomic size q idle q to_get
  calls_size : Atomic size q idle q to_size
  returns_size : {k : ℕ} → Atomic size q (answered k) q idle
  returns : Atomic size q finished q idle
  waits : {p : Stand} → Atomic size q p q p

abbrev pub fifo_of : Queue → Fifo
fifo_of q = record { items = q.items; entered = q.entered; left = q.left }

abbrev pub stand_of : Pc → Stand
stand_of Pc.outside = idle
stand_of (Pc.push_lock v) = to_put v
stand_of (Pc.push_test v) = to_put v
stand_of (Pc.push_wait v) = to_put v
stand_of (push_put v) = to_put v
stand_of Pc.push_signal = finished
stand_of Pc.pop_lock = to_get
stand_of Pc.pop_test = to_get
stand_of Pc.pop_wait = to_get
stand_of pop_take = to_get
stand_of Pc.pop_signal = finished
stand_of Pc.size_lock = to_size
stand_of Pc.size_read = to_size
stand_of (Pc.sized k) = answered k

Move-Atomic :
    {size : ℕ} {q q' : Queue} {p p' : Pc}
    → Move q p q' p'
    → (puts p ≡ 0) ⊎ (length q.items < size)
    → Atomic size (fifo_of q) (stand_of p) (fifo_of q') (stand_of p')
Move-Atomic (push_call v) h = calls_put v
Move-Atomic (push_locks free) h = waits
Move-Atomic (push_full full) h = waits
Move-Atomic (push_room ne) h = waits
Move-Atomic push_puts (inl zeros) = absurd (omega (arith, zeros))
Move-Atomic push_puts (inr room) = put room
Move-Atomic pop_call h = calls_get
Move-Atomic (pop_locks free) h = waits
Move-Atomic (pop_empty e) h = waits
Move-Atomic (pop_some ne) h = waits
Move-Atomic (pop_takes e) h = get e
Move-Atomic size_call h = calls_size
Move-Atomic (size_locks free) h = waits
Move-Atomic size_reads h = get_size
Move-Atomic size_returns h = returns_size

Inv-Atomic :
    {n size : ℕ} {s : System} (i : ℕ) {q : Queue} {p : Pc}
    → Inv n size s.queue s.pc
    → i < n
    → Move s.queue (s.pc i) q p
    → Atomic size (fifo_of s.queue) (stand_of (s.pc i)) (fifo_of q) (stand_of p)
Inv-Atomic {n} {s = s} i h lt m = Move-Atomic m (elim h.room [
  | inl none_puts ↦ inl (omega (arith, le-count puts n s.pc i lt, none_puts))
  | inr room ↦ inr room
])

-- One thread makes a step of the bounded queue, and the others stay where they stand.
abbrev pub Steps : ℕ → ℕ → System → System → Type 0
Steps n size s t =
    (i : ℕ) × (i < n)
    × Atomic size (fifo_of s.queue) (stand_of (s.pc i)) (fifo_of t.queue) (stand_of (t.pc i))
    × ((j : ℕ) → j ≢ i → stand_of (t.pc j) ≡ stand_of (s.pc j))

-- A thread that goes to a place that stands as its own does.
stands :
    (f : ℕ → Pc) (j : ℕ) (p : Pc)
    → stand_of (f j) ≡ stand_of p
    → (k : ℕ) → stand_of (update f j p k) ≡ stand_of (f k)
stands f j p e k = elim (ℕ_discrete j k) [
  | yes same ↦
      subst (λ m. stand_of (update f j p m) ≡ stand_of (f m)) same
        (ap stand_of (update_same f j p) ∙ sym e)
  | no other ↦ ap stand_of (update_ne f j k p (λ e. other (sym e)))
]

module _ (n size : ℕ) (s : System) where
  moved-Steps :
      (i : ℕ) (q : Queue) (p : Pc)
      → i < n
      → Atomic size (fifo_of s.queue) (stand_of (s.pc i)) (fifo_of q) (stand_of p)
      → Steps n size s (record { queue = q; pc = update s.pc i p })
  moved-Steps i q p lt a =
      (i, lt, rw (update_same s.pc i p) a, λ j ne. ap stand_of (update_ne s.pc i j p ne))

  -- A thread that waits goes back to the lock.
  spurious-Steps :
      (j : ℕ) (p : Pc)
      → j < n
      → stand_of (s.pc j) ≡ stand_of p
      → Steps n size s (record s { pc = update s.pc j p })
  spurious-Steps j p lt e = moved-Steps j s.queue p lt (rw e waits)

  -- A thread has signalled and returns.
  returned-Steps :
      (i : ℕ)
      → i < n
      → stand_of (s.pc i) ≡ finished
      → Steps n size s (record s { pc = update s.pc i Pc.outside })
  returned-Steps i lt e = moved-Steps i s.queue Pc.outside lt (rw e returns)

  -- It has let thread `j` go on, which stands as it did.
  woken-Steps :
      (i j : ℕ) (p : Pc)
      → i < n
      → stand_of (s.pc i) ≡ finished
      → stand_of (s.pc j) ≡ stand_of p
      → stand_of p ≢ finished
      → Steps n size s (record s { pc = update (update s.pc i Pc.outside) j p })
  woken-Steps i j p lt ei ej ne =
      let other : j ≢ i = λ e. ne (sym ej ∙ ap (λ k. stand_of (s.pc k)) e ∙ ei) in
      let (k, below, a, rest) = returned-Steps i lt ei in
      let same : (k : ℕ)
          → stand_of (update (update s.pc i Pc.outside) j p k)
            ≡ stand_of (update s.pc i Pc.outside k) =
        stands (update s.pc i Pc.outside) j p
          (ap stand_of (update_ne s.pc i j Pc.outside other) ∙ ej) in
      (k, below, rw (same k) a, λ m ne. same m ∙ rest m ne)

-- In every reachable state, whatever happens next between two accesses to the shared state is, for the
-- callers, one step of a bounded queue whose put, get and size happen at once (a put only while the
-- queue has room, a get only of its oldest value, and the size is the number of its values) or of a
-- call or return, or no step: one thread makes it, and the others stay where they stand.
pub step_refines : {n size : ℕ} {s t : System} → Reach n size s → Step n s t → Steps n size s t
step_refines {n} {size} {s} r (moves i {q} {p} lt m) =
    moved-Steps n size s i q p lt (Inv-Atomic i (Reach-Inv r) lt m)
step_refines {n} {size} {s} r (wakes_pop i j li lj ei ej) =
    woken-Steps n size s i j Pc.pop_lock li (ap stand_of ei) (ap stand_of ej) (λ e. absurd (cc e))
step_refines {n} {size} {s} r (no_pop_waits i li ei alone) =
    returned-Steps n size s i li (ap stand_of ei)
step_refines {n} {size} {s} r (wakes_push i j {v} li lj ei ej) =
    woken-Steps n size s i j (Pc.push_lock v) li (ap stand_of ei) (ap stand_of ej)
      (λ e. absurd (cc e))
step_refines {n} {size} {s} r (no_push_waits i li ei alone) =
    returned-Steps n size s i li (ap stand_of ei)
step_refines {n} {size} {s} r (spurious_pop j lj ej) =
    spurious-Steps n size s j Pc.pop_lock lj (ap stand_of ej)
step_refines {n} {size} {s} r (spurious_push j {v} lj ej) =
    spurious-Steps n size s j (Pc.push_lock v) lj (ap stand_of ej)
