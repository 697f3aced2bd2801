-- ===== src/Pool/Inv.antt =====
-- What every reachable state of the pool satisfies: where each task is, and where the null pointers are.
use mzntapp_cpp.Base.Count.{update, count, count-update, count-eq-zero}
use mzntapp_cpp.Base.{
  ℕ, ◌+◌, ◌≤◌, ◌<◌, ◌≡◌, refl, arith, ◌==◌, if◌then◌else◌, List, [], ◌∷◌, ◌++◌, Option, none, some,
  length, length-append, ap, subst, ◌⊎◌, inl, inr,
}
use mzntapp_cpp.Pool.{
  Worker, waiting, working, ended, Pool, Step, adds, takes, runs, ends, closes, Reach, here, next,
}

-- How often a task is in a list, and in the queue.
abbrev pub times : ℕ → List ℕ → ℕ
times t [] = 0
times t (x ∷ xs) = (if x == t then 1 else 0) + times t xs

abbrev pub queued_times : ℕ → List (Option ℕ) → ℕ
queued_times t [] = 0
queued_times t (none ∷ q) = queued_times t q
queued_times t (some x ∷ q) = (if x == t then 1 else 0) + queued_times t q

abbrev pub nulls : List (Option ℕ) → ℕ
nulls [] = 0
nulls (none ∷ q) = 1 + nulls q
nulls (some x ∷ q) = nulls q

-- No task stands behind a null pointer.
abbrev pub IsShaped : List (Option ℕ) → Type 0
IsShaped [] = Unit
IsShaped (some x ∷ q) = IsShaped q
IsShaped (none ∷ q) = length q ≡ nulls q

abbrev pub works_on : ℕ → Worker → ℕ
works_on t waiting = 0
works_on t (working x) = if x == t then 1 else 0
works_on t ended = 0

abbrev pub has_ended : Worker → ℕ
has_ended waiting = 0
has_ended (working x) = 0
has_ended ended = 1

pub record Inv (n : ℕ) (s : Pool) : Type 0 where
  -- a task that was added was run, is queued, or is being run
  pub tasks :
      (t : ℕ)
      → times t s.added ≡ times t s.ran + queued_times t s.queue + count (works_on t) n s.workers
  -- a null pointer that was pushed is queued or has ended a worker
  pub ends : s.closing ≡ nulls s.queue + count has_ended n s.workers
  pub limit : s.closing ≤ n
  pub shaped : IsShaped s.queue
  -- once a worker has ended, only null pointers are queued
  pub drained : (count has_ended n s.workers ≡ 0) ⊎ (length s.queue ≡ nulls s.queue)

times-append :
    (t x : ℕ) (xs : List ℕ) → times t (xs ++ x ∷ []) ≡ times t xs + (if x == t then 1 else 0)
times-append t x [] = omega arith
times-append t x (y ∷ xs) = omega (arith, times-append t x xs)

queued_times-append :
    (t x : ℕ) (q : List (Option ℕ))
    → queued_times t (q ++ some x ∷ []) ≡ queued_times t q + (if x == t then 1 else 0)
queued_times-append t x [] = omega arith
queued_times-append t x (none ∷ q) = queued_times-append t x q
queued_times-append t x (some y ∷ q) = omega (arith, queued_times-append t x q)

queued_times-null :
    (t : ℕ) (q : List (Option ℕ)) → queued_times t (q ++ none ∷ []) ≡ queued_times t q
queued_times-null t [] = refl
queued_times-null t (none ∷ q) = queued_times-null t q
queued_times-null t (some y ∷ q) = omega (arith, queued_times-null t q)

nulls-append_null : (q : List (Option ℕ)) → nulls (q ++ none ∷ []) ≡ nulls q + 1
nulls-append_null [] = refl
nulls-append_null (none ∷ q) = omega (arith, nulls-append_null q)
nulls-append_null (some y ∷ q) = nulls-append_null q

nulls-append_task : (x : ℕ) (q : List (Option ℕ)) → nulls (q ++ some x ∷ []) ≡ nulls q
nulls-append_task x [] = refl
nulls-append_task x (none ∷ q) = omega (arith, nulls-append_task x q)
nulls-append_task x (some y ∷ q) = nulls-append_task x q

pub nulls-le-length : (q : List (Option ℕ)) → nulls q ≤ length q
nulls-le-length [] = omega arith
nulls-le-length (none ∷ q) = omega (arith, nulls-le-length q)
nulls-le-length (some y ∷ q) = omega (arith, nulls-le-length q)

task-IsShaped : (x : ℕ) (q : List (Option ℕ)) → nulls q ≡ 0 → IsShaped (q ++ some x ∷ [])
task-IsShaped x [] h = tt
task-IsShaped x (none ∷ q) h = absurd (omega (arith, h))
task-IsShaped x (some y ∷ q) h = task-IsShaped x q h

null-IsShaped : (q : List (Option ℕ)) → IsShaped q → IsShaped (q ++ none ∷ [])
null-IsShaped [] h = refl
null-IsShaped (none ∷ q) h = omega (arith, h, nulls-append_null q, length-append q (none ∷ []))
null-IsShaped (some y ∷ q) h = null-IsShaped q h

nulls-IsShaped : (q : List (Option ℕ)) → length q ≡ nulls q → IsShaped q
nulls-IsShaped [] h = tt
nulls-IsShaped (none ∷ q) h = omega (arith, h)
nulls-IsShaped (some y ∷ q) h = absurd (omega (arith, h, nulls-le-length q))

-- The sums after worker `i` went from a state to another.
pub changed :
    (w : Worker → ℕ) (n : ℕ) (f : ℕ → Worker) (i : ℕ) (a b : Worker)
    → i < n
    → f i ≡ a
    → count w n (update f i b) + w a ≡ count w n f + w b
changed w n f i a b lt e =
    subst (λ x. count w n (update f i b) + w x ≡ count w n f + w b) e (count-update w n f i b lt)

pub Step-Inv : {n : ℕ} {s t : Pool} → Step n s t → Inv n s → Inv n t
Step-Inv {n} {s} (adds t early room) v = record {
  tasks = λ x. omega (arith, v.tasks x, times-append x t s.added, queued_times-append x t s.queue);
  ends = omega (arith, v.ends, nulls-append_task t s.queue);
  limit = v.limit;
  shaped = task-IsShaped t s.queue (omega (arith, v.ends, early));
  drained = inl (omega (arith, v.ends, early));
}
Step-Inv {n} {s} (takes i {t} {rest} lt idle e) v =
    let same = changed has_ended n s.workers i waiting (working t) lt idle in
    record {
      tasks = λ x.
          let moved = changed (works_on x) n s.workers i waiting (working t) lt idle in
          omega (arith, v.tasks x, ap (queued_times x) e, moved);
      ends = omega (arith, v.ends, ap nulls e, same);
      limit = v.limit;
      shaped = subst IsShaped e v.shaped;
      drained = elim v.drained [
        | inl before ↦ inl (omega (arith, before, same))
        | inr all ↦ absurd (omega (arith, all, ap length e, ap nulls e, nulls-le-length rest))
      ];
    }
Step-Inv {n} {s} (runs i {t} lt busy) v =
    let same = changed has_ended n s.workers i (working t) waiting lt busy in
    record {
      tasks = λ x.
          let moved = changed (works_on x) n s.workers i (working t) waiting lt busy in
          omega (arith, v.tasks x, times-append x t s.ran, moved);
      ends = omega (arith, v.ends, same);
      limit = v.limit;
      shaped = v.shaped;
      drained = elim v.drained [
        | inl before ↦ inl (omega (arith, before, same))
        | inr all ↦ inr all
      ];
    }
Step-Inv {n} {s} (ends i {rest} lt idle e) v =
    let more = changed has_ended n s.workers i waiting ended lt idle in
    let all : length rest ≡ nulls rest = subst IsShaped e v.shaped in
    record {
      tasks = λ x.
          let moved = changed (works_on x) n s.workers i waiting ended lt idle in
          omega (arith, v.tasks x, ap (queued_times x) e, moved);
      ends = omega (arith, v.ends, ap nulls e, more);
      limit = v.limit;
      shaped = nulls-IsShaped rest all;
      drained = inr all;
    }
Step-Inv {n} {s} (closes lt room) v = record {
  tasks = λ x. omega (arith, v.tasks x, queued_times-null x s.queue);
  ends = omega (arith, v.ends, nulls-append_null s.queue);
  limit = omega arith;
  shaped = null-IsShaped s.queue v.shaped;
  drained = elim v.drained [
    | inl before ↦ inl before
    | inr all ↦
        inr (omega (arith, all, nulls-append_null s.queue, length-append s.queue (none ∷ [])))
  ];
}

pub Reach-Inv : {n : ℕ} {s : Pool} → Reach n s → Inv n s
Reach-Inv {n} here = record {
  tasks = λ x. omega (arith, count-eq-zero (works_on x) n (λ _. waiting) (λ i. refl));
  ends = omega (arith, count-eq-zero has_ended n (λ _. waiting) (λ i. refl));
  limit = omega arith;
  shaped = tt;
  drained = inr refl;
}
Reach-Inv (next r s) = Step-Inv s (Reach-Inv r)
