-- ===== src/Queue/Inv.antt =====
-- What every reachable state of the queue satisfies.
use native.Mathlib.Decide.{dec_lt}
use mzntapp_cpp.Base.Count.{update, count, count-update, count-eq-zero, count-le-count, count_pos}
use mzntapp_cpp.Base.{
  ℕ, ◌+◌, ◌≤◌, ◌<◌, ◌≡◌, ◌≢◌, refl, [], ◌∷◌, ◌++◌, arith, length, length-append, append_assoc, ◌⊎◌,
  inl, subst,
}
use mzntapp_cpp.Queue.{
  Pc, outside, push_lock, push_test, push_wait, push_put, push_signal, pop_lock, pop_test, pop_wait,
  pop_take, pop_signal, size_read, size_call, size_locks, size_reads, size_returns, Queue, Move,
  push_call, push_locks, push_full, push_room, push_puts, pop_call, pop_locks, pop_empty, pop_some,
  pop_takes, System, Step, moves, wakes_pop, no_pop_waits, wakes_push, no_push_waits, spurious_pop,
  spurious_push, Reach, here, next,
}

abbrev pub holds : Pc → ℕ
holds (push_test _) = 1
holds (push_put _) = 1
holds pop_test = 1
holds pop_take = 1
holds size_read = 1
holds _ = 0

abbrev pub puts : Pc → ℕ
puts (push_put _) = 1
puts _ = 0

abbrev pub takes : Pc → ℕ
takes pop_take = 1
takes _ = 0

-- On the way from a call of `pop_front` to its pop, and not waiting.
abbrev pub popping : Pc → ℕ
popping pop_lock = 1
popping pop_test = 1
popping pop_take = 1
popping _ = 0

abbrev pub pop_waits : Pc → ℕ
pop_waits pop_wait = 1
pop_waits _ = 0

abbrev pub push_signals : Pc → ℕ
push_signals push_signal = 1
push_signals _ = 0

abbrev pub pushing : Pc → ℕ
pushing (push_lock _) = 1
pushing (push_test _) = 1
pushing (push_put _) = 1
pushing _ = 0

abbrev pub push_waits : Pc → ℕ
push_waits (push_wait _) = 1
push_waits _ = 0

abbrev pub pop_signals : Pc → ℕ
pop_signals pop_signal = 1
pop_signals _ = 0

pub record Inv (n size : ℕ) (q : Queue) (pc : ℕ → Pc) : Type 0 where
  pub limit : q.max_size ≡ size
  pub lock : q.locked ≡ count holds n pc
  pub one : q.locked ≤ 1
  pub bound : length q.items ≤ size
  pub fifo : q.entered ≡ q.left ++ q.items
  pub room : (count puts n pc ≡ 0) ⊎ (length q.items < size)
  pub stock : (count takes n pc ≡ 0) ⊎ (0 < length q.items)
  pub pops :
      (count pop_waits n pc ≡ 0) ⊎ (length q.items ≤ count popping n pc + count push_signals n pc)
  pub pushes :
      (count push_waits n pc ≡ 0)
      ⊎ (size ≤ length q.items + count pushing n pc + count pop_signals n pc)

-- The sums after thread `i` went from `p` to `p'`.
record Counts (n : ℕ) (pc pc' : ℕ → Pc) (p p' : Pc) : Type 0 where
  held : count holds n pc' + holds p ≡ count holds n pc + holds p'
  put : count puts n pc' + puts p ≡ count puts n pc + puts p'
  take : count takes n pc' + takes p ≡ count takes n pc + takes p'
  pop : count popping n pc' + popping p ≡ count popping n pc + popping p'
  pop_wait : count pop_waits n pc' + pop_waits p ≡ count pop_waits n pc + pop_waits p'
  push_sig : count push_signals n pc' + push_signals p ≡ count push_signals n pc + push_signals p'
  push : count pushing n pc' + pushing p ≡ count pushing n pc + pushing p'
  push_wt : count push_waits n pc' + push_waits p ≡ count push_waits n pc + push_waits p'
  pop_sig : count pop_signals n pc' + pop_signals p ≡ count pop_signals n pc + pop_signals p'
  puts_hold : count puts n pc' ≤ count holds n pc'
  takes_hold : count takes n pc' ≤ count holds n pc'

counts : (n : ℕ) (pc : ℕ → Pc) (i : ℕ) (p' : Pc) → i < n → Counts n pc (update pc i p') (pc i) p'
counts n pc i p' lt = record {
  held = count-update holds n pc i p' lt;
  put = count-update puts n pc i p' lt;
  take = count-update takes n pc i p' lt;
  pop = count-update popping n pc i p' lt;
  pop_wait = count-update pop_waits n pc i p' lt;
  push_sig = count-update push_signals n pc i p' lt;
  push = count-update pushing n pc i p' lt;
  push_wt = count-update push_waits n pc i p' lt;
  pop_sig = count-update pop_signals n pc i p' lt;
  puts_hold = count-le-count puts holds (λ p. ground arith) n (update pc i p');
  takes_hold = count-le-count takes holds (λ p. ground arith) n (update pc i p');
}

Move-Inv :
    {n size : ℕ} {q q' : Queue} {pc pc' : ℕ → Pc} {p p' : Pc}
    → Move q p q' p'
    → Counts n pc pc' p p'
    → Inv n size q pc
    → Inv n size q' pc'
Move-Inv (push_call v) k h = ground arith
Move-Inv (push_locks free) k h = ground arith
Move-Inv (push_full full) k h = ground arith
Move-Inv (push_room ne) k h = ground arith
Move-Inv {q} (push_puts {v}) k h =
    ground (arith, length-append q.items (v ∷ []), append_assoc q.left q.items (v ∷ []))
Move-Inv pop_call k h = ground arith
Move-Inv (pop_locks free) k h = ground arith
Move-Inv (pop_empty e) k h = ground arith
Move-Inv (pop_some ne) k h = ground arith
Move-Inv {q} (pop_takes {v} {rest} e) k h = ground (arith, append_assoc q.left (v ∷ []) rest)
Move-Inv size_call k h = ground arith
Move-Inv (size_locks free) k h = ground arith
Move-Inv size_reads k h = ground arith
Move-Inv size_returns k h = ground arith

-- A thread that only changes its place, with the queue as it was.
Wake-Inv :
    {n size : ℕ} {q : Queue} {pc pc' : ℕ → Pc} {p p' : Pc}
    → Counts n pc pc' p p'
    → (holds p ≡ 0) × (holds p' ≡ 0) × (push_signals p ≡ 0) × (pop_signals p ≡ 0)
    → (popping p ≤ popping p') × (pushing p ≤ pushing p')
    → (pop_waits p' ≤ pop_waits p) × (push_waits p' ≤ push_waits p)
    → Inv n size q pc
    → Inv n size q pc'
Wake-Inv k quiet more fewer h = ground arith

count_at :
    (n : ℕ) (pc : ℕ → Pc) (i : ℕ) (p p' : Pc) → i < n → pc i ≡ p → Counts n pc (update pc i p') p p'
count_at n pc i p p' lt e = subst (λ k. Counts n pc (update pc i p') k p') e (counts n pc i p' lt)

update_other :
    (pc : ℕ → Pc) (i j : ℕ) (p p' a : Pc) → pc i ≡ p → pc j ≡ p' → p ≢ p' → update pc i a j ≡ p'
update_other pc i j p p' a ei ej ne = ground arith

wakes_pop-Inv :
    {n size : ℕ} {q : Queue} {pc pc1 pc2 : ℕ → Pc}
    → Counts n pc pc1 push_signal outside
    → Counts n pc1 pc2 pop_wait pop_lock
    → Inv n size q pc
    → Inv n size q pc2
wakes_pop-Inv k1 k2 h = ground arith

wakes_push-Inv :
    {n size : ℕ} {q : Queue} {pc pc1 pc2 : ℕ → Pc} (v : ℕ)
    → Counts n pc pc1 pop_signal outside
    → Counts n pc1 pc2 (push_wait v) (push_lock v)
    → Inv n size q pc
    → Inv n size q pc2
wakes_push-Inv v k1 k2 h = ground arith

no_pop_waits-Inv :
    {n size : ℕ} {q : Queue} {pc pc1 : ℕ → Pc}
    → Counts n pc pc1 push_signal outside
    → count pop_waits n pc ≡ 0
    → Inv n size q pc
    → Inv n size q pc1
no_pop_waits-Inv k none_waits h = ground arith

no_push_waits-Inv :
    {n size : ℕ} {q : Queue} {pc pc1 : ℕ → Pc}
    → Counts n pc pc1 pop_signal outside
    → count push_waits n pc ≡ 0
    → Inv n size q pc
    → Inv n size q pc1
no_push_waits-Inv k none_waits h = ground arith

pub pop_waits_pos : (p : Pc) → 0 < pop_waits p → p ≡ pop_wait
pop_waits_pos p h = ground arith

pub push_waits_pos : (p : Pc) → 0 < push_waits p → (v : ℕ) × (p ≡ push_wait v)
push_waits_pos (push_wait v) h = (v, refl)
push_waits_pos (push_lock v) h = absurd (omega arith)
push_waits_pos _ h = absurd (omega arith)

none_count :
    (w : Pc → ℕ) (n : ℕ) (pc : ℕ → Pc) → ((j : ℕ) → j < n → 0 < w (pc j) → ⊥) → count w n pc ≡ 0
none_count w n pc h = elim (dec_lt 0 (count w n pc)) [
  | yes pos ↦ let (j, lt, q) = count_pos w n pc pos in absurd (h j lt q)
  | no nothing ↦ omega arith
]

pub Step-Inv :
    {n size : ℕ} {s t : System} → Step n s t → Inv n size s.queue s.pc → Inv n size t.queue t.pc
Step-Inv {n} {s = s} (moves i {p = p'} lt mv) h = Move-Inv mv (counts n s.pc i p' lt) h
Step-Inv {n} {s = s} (wakes_pop i j li lj ei ej) h =
    wakes_pop-Inv (count_at n s.pc i push_signal outside li ei)
      (count_at n (update s.pc i outside) j pop_wait pop_lock lj
        (update_other s.pc i j push_signal pop_wait outside ei ej (λ e. cc)))
      h
Step-Inv {n} {s = s} (no_pop_waits i li ei quiet) h =
    no_pop_waits-Inv (count_at n s.pc i push_signal outside li ei)
      (none_count pop_waits n s.pc (λ j lj pos. quiet j lj (pop_waits_pos (s.pc j) pos))) h
Step-Inv {n} {s = s} (wakes_push i j {v} li lj ei ej) h =
    wakes_push-Inv v (count_at n s.pc i pop_signal outside li ei)
      (count_at n (update s.pc i outside) j (push_wait v) (push_lock v) lj
        (update_other s.pc i j pop_signal (push_wait v) outside ei ej (λ e. cc)))
      h
Step-Inv {n} {s = s} (no_push_waits i li ei quiet) h =
    no_push_waits-Inv (count_at n s.pc i pop_signal outside li ei)
      (none_count push_waits n s.pc
        (λ j lj pos. let (v, e) = push_waits_pos (s.pc j) pos in quiet j v lj e))
      h
Step-Inv {n} {s = s} (spurious_pop j lj ej) h =
    Wake-Inv (count_at n s.pc j pop_wait pop_lock lj ej) (omega arith) (omega arith) (omega arith) h
Step-Inv {n} {s = s} (spurious_push j {v} lj ej) h =
    Wake-Inv (count_at n s.pc j (push_wait v) (push_lock v) lj ej) (omega arith) (omega arith)
      (omega arith) h

pub Reach-Inv : {n size : ℕ} {s : System} → Reach n size s → Inv n size s.queue s.pc
Reach-Inv {n} {size} here =
    let zero_of : (w : Pc → ℕ) → w outside ≡ 0 → count w n (λ _. outside) ≡ 0 =
      λ w e. count-eq-zero w n (λ _. outside) (λ _. e) in
    record {
      limit = refl;
      lock = omega (arith, zero_of holds refl);
      one = omega arith;
      bound = omega arith;
      fifo = refl;
      room = inl (zero_of puts refl);
      stock = inl (zero_of takes refl);
      pops = inl (zero_of pop_waits refl);
      pushes = inl (zero_of push_waits refl);
    }
Reach-Inv (next r st) = Step-Inv st (Reach-Inv r)
