-- ===== src/Hardware/Shutdown/Race.antt =====
-- Stop may wait for ever: the state in which it pops from an empty queue can be reached.
use mzntapp_cpp.Base.{
  ℕ, zero, suc, ◌+◌, ◌≤◌, ◌≡◌, refl, ap, subst, arith, List, [], ◌∷◌, ◌++◌, Option, some, length,
}
use mzntapp_cpp.Hardware.Shutdown.{
  hw_ended, waiting, popping, Threads, all_started, interrupt, sees_stop, queues, takes, writes,
  calls, many, Reach, here, next,
}
use mzntapp_cpp.Hardware.Shutdown.Ends.{IsRaced}

abbrev copies : ℕ → List (Option ℕ)
copies zero = []
copies (suc n) = some 0 ∷ copies n

copies-append : (n : ℕ) → copies n ++ some 0 ∷ [] ≡ copies (suc n)
copies-append zero = refl
copies-append (suc n) = ap (◌∷◌ (some 0)) (copies-append n)

copies-length : (n : ℕ) → length (copies n) ≡ n
copies-length zero = refl
copies-length (suc n) = ap suc (copies-length n)

-- HWThread has queued `n` slots, and none was popped.
abbrev filled : ℕ → Threads
filled n = record all_started { queue = copies n; pushed = n }

fills : (n : ℕ) → n ≤ 300 → Reach (filled n)
fills zero h = here
fills (suc n) h =
    subst (λ q. Reach (record all_started { queue = q; pushed = suc n })) (copies-append n)
      (subst (λ k. Reach (record all_started { queue = copies n ++ some 0 ∷ []; pushed = k }))
        (omega arith)
        (next (next (fills n (omega arith)) (interrupt refl refl))
          (queues 0 refl (λ full. omega (arith, copies-length n, full, h)))))

-- Stop is about to pop, HWThread has ended, and the writer has popped `t` slots.
abbrev left : ℕ → ℕ → Threads
left n t = record {
  queue = copies n;
  hw = hw_ended;
  writer = waiting;
  stop = popping;
  pushed = 300;
  taken = t;
  thrown = 0;
}

empties : (n t : ℕ) → Reach (left n t) → Reach (left 0 (t + n))
empties zero t r = subst (λ k. Reach (left 0 k)) (omega arith) r
empties (suc n) t r =
    subst (λ k. Reach (left 0 k)) (omega arith)
      (empties n (t + 1) (next (next r (takes refl refl)) (writes refl)))

-- There is a run of the threads to the state in which Stop waits for ever.
pub race_reached : (s : Threads) × Reach s × IsRaced s
race_reached =
    let seen =
      next (next (fills 300 (omega arith)) (calls refl))
        (many refl (omega (arith, copies-length 300))) in
    (
      left 0 300,
      empties 300 0 (next seen (sees_stop (λ e. cc e) refl)),
      record { stop_pops = refl; hw_gone = refl; writer_waits = refl; queue_empty = refl },
    )
