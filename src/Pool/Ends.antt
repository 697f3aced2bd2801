-- ===== src/Pool/Ends.antt =====
-- ~ThreadPool: once it has begun, the workers run what is queued and end.
use mathlib.Core.Quot
use mathlib.Core.Quot.{Quot}
use native.Mathlib.Decide.{dec_lt, ℕ_discrete}
use mzntapp_cpp.Base.Count.{count, count-const, count-lt}
use mzntapp_cpp.Base.{
  ℕ, zero, suc, ◌+◌, ◌-◌, ◌*◌, ◌≤◌, ◌<◌, ◌≡◌, ◌≢◌, refl, arith, List, [], ◌∷◌, Option, none, some,
  length, length-append, ap, subst, ◌⊎◌, inl, inr,
}
use mzntapp_cpp.Pool.{
  Worker, waiting, working, ended, Pool, Step, adds, takes, runs, ends, closes, Reach,
}
use mzntapp_cpp.Pool.Inv.{
  times, queued_times, nulls-le-length, works_on, has_ended, Inv, Reach-Inv, changed,
}

-- Lists that hold the same tasks, as often.
abbrev pub SameTasks : List ℕ → List ℕ → Type 0
SameTasks xs ys = (t : ℕ) → times t xs ≡ times t ys

-- Tasks without their order.
abbrev pub Tasks : Type 0
Tasks = Quot SameTasks

abbrev pub AllEnded : ℕ → Pool → Type 0
AllEnded n s = (i : ℕ) → i < n → s.workers i ≡ ended

queued_none : (t : ℕ) (q : List (Option ℕ)) → length q ≡ 0 → (q ≡ []) × (queued_times t q ≡ 0)
queued_none t [] h = (refl, refl)
queued_none t (x ∷ q) h = absurd (omega (arith, h))

-- When all workers of a pool that has any have ended, as after the joins, nothing is left in the queue,
-- and the tasks that were run are those that were added, each as often.
pub all_run :
    {n : ℕ} {s : Pool}
    → Reach n s
    → 0 < n
    → AllEnded n s
    → (s.queue ≡ []) × (◌≡◌ {A = Tasks} (Quot.mk s.ran) (Quot.mk s.added))
all_run {n} {s} r pos all =
    let v = Reach-Inv r in
    let done = count-const has_ended 1 n s.workers (λ i l. ap has_ended (all i l)) in
    let none_left : length s.queue ≡ 0 = elim v.drained [
      | inl zeros ↦ absurd (omega (arith, zeros, done))
      | inr only ↦ omega (arith, only, v.ends, v.limit, done)
    ] in
    (
      (queued_none 0 s.queue none_left).0,
      Quot.sound (λ t. omega (
        arith,
        v.tasks t,
        (queued_none t s.queue none_left).1,
        count-const (works_on t) 0 n s.workers (λ i l. ap (works_on t) (all i l)),
      )),
    )

abbrev busy : Worker → ℕ
busy waiting = 0
busy (working t) = 1
busy ended = 0

-- What is left to do: each null pointer is to be pushed and popped, each task popped and run.
abbrev pub left_to_do : ℕ → Pool → ℕ
left_to_do n s = 3 * (n - s.closing) + 2 * length s.queue + count busy n s.workers

step_down : {n : ℕ} {s t : Pool} → 0 < s.closing → Step n s t → left_to_do n t < left_to_do n s
step_down pos (adds t zero_closing room) = absurd (omega arith)
step_down {n} {s} pos (takes i {t} {rest} lt idle e) =
    omega (arith, changed busy n s.workers i waiting (working t) lt idle, ap length e)
step_down {n} {s} pos (runs i {t} lt active) =
    omega (arith, changed busy n s.workers i (working t) waiting lt active)
step_down {n} {s} pos (ends i {rest} lt idle e) =
    omega (arith, changed busy n s.workers i waiting ended lt idle, ap length e)
step_down {n} {s} pos (closes lt room) = omega (arith, length-append s.queue (none ∷ []))

Worker-cases : (w : Worker) → (w ≡ waiting) ⊎ ((t : ℕ) × (w ≡ working t)) ⊎ (w ≡ ended)
Worker-cases waiting = inl refl
Worker-cases (working t) = inr (inl (t, refl))
Worker-cases ended = inr (inr refl)

-- A worker at the queue takes what stands first.
pops_head :
    {n : ℕ} {s : Pool} (i : ℕ)
    → i < n
    → s.workers i ≡ waiting
    → (q : List (Option ℕ)) → s.queue ≡ q
    → 0 < length q
    → (t : Pool) × Step n s t
pops_head i lt idle [] e h = absurd (omega arith)
pops_head i lt idle (none ∷ q) e h = (_, ends i lt idle e)
pops_head i lt idle (some t ∷ q) e h = (_, takes i lt idle e)

-- A worker that has not ended can go on, or the destructor can.
can_step :
    {n : ℕ} {s : Pool} → Inv n s → (i : ℕ) → i < n → s.workers i ≢ ended → (t : Pool) × Step n s t
can_step {n} {s} v i lt alive = elim (Worker-cases (s.workers i)) [
  | inr (inl (t, active)) ↦ (_, runs i lt active)
  | inr (inr over) ↦ absurd (alive over)
  | inl idle ↦ elim (dec_lt s.closing n) [
    | no all_pushed ↦
        let some_left = count-lt has_ended at_most_one n s.workers i lt (ap has_ended idle) in
        pops_head i lt idle s.queue refl
          (omega (arith, v.ends, v.limit, some_left, nulls-le-length s.queue))
    | yes more ↦ elim (ℕ_discrete (length s.queue) (n * 2)) [
      | yes full ↦ pops_head i lt idle s.queue refl (omega (arith, full))
      | no room ↦ (_, closes more room)
    ]
  ]
]
  where
    at_most_one : (w : Worker) → has_ended w ≤ 1
    at_most_one w = ground arith

ended_or_not :
    (n : ℕ) (f : ℕ → Worker) → ((i : ℕ) → i < n → f i ≡ ended) ⊎ ((i : ℕ) × (i < n) × (f i ≢ ended))
ended_or_not zero f = inl (λ i l. absurd (omega arith))
ended_or_not (suc n) f = elim (ended_or_not n f) [
  | inr (i, l, ne) ↦ inr (i, omega arith, ne)
  | inl all ↦ elim (Worker-cases (f n)) [
    | inl idle ↦ inr (n, omega arith, λ e. absurd (cc (idle, e)))
    | inr (inl (t, active)) ↦ inr (n, omega arith, λ e. absurd (cc (active, e)))
    | inr (inr over) ↦ inl (λ i l. elim (dec_lt i n) [
      | yes below ↦ all i below
      | no last ↦ subst (λ k. f k ≡ ended) (omega arith) over
    ])
  ]
]

-- Once the destructor has begun, no step of any thread leaves as much to do as before it, and until all
-- workers have ended some thread can step: the joins return, after at most `left_to_do` steps.
pub destructor_ends :
    {n : ℕ} {s : Pool}
    → Reach n s
    → 0 < s.closing
    → ((t : Pool) → Step n s t → left_to_do n t < left_to_do n s)
      × (AllEnded n s ⊎ ((t : Pool) × Step n s t))
destructor_ends {n} {s} r pos = (
  λ t step. step_down pos step,
  elim (ended_or_not n s.workers) [
    | inl all ↦ inl all
    | inr (i, lt, alive) ↦ inr (can_step (Reach-Inv r) i lt alive)
  ],
)
