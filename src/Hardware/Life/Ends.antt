-- ===== src/Hardware/Life/Ends.antt =====
-- HardwareManager.cpp: Stop comes to an end.
use mzntapp_cpp.Base.{
  ℕ, zero, suc, ◌+◌, ◌-◌, ◌≤◌, ◌<◌, ◌≡◌, refl, true, arith, ltb, lt→ltb, Bool-cases, inl, inr, [],
  ◌∷◌,
}
use mzntapp_cpp.Io.{Env, Log, Returns, Returns-bind, Returns-Ensures}
use mzntapp_cpp.Hardware.Calls.{
  Call, opens, queue_size, pops, sets_stop_signal, joins_thread, pushes,
}
use mzntapp_cpp.Hardware.Life.{drain, join_threads, drain_and_join, stop, stop_order, thread_calls}

-- How many slots were thrown away.
abbrev popped : Log Call → ℕ
popped [] = 0
popped ((pops, _) ∷ l) = popped l + 1
popped ((opens _, _) ∷ l) = popped l
popped (_ ∷ l) = popped l

-- The queue starts with at most `m` slots, and each one that is thrown away makes it shorter.
abbrev IsBounded : ℕ → Env Call → Type 0
IsBounded m env = (log : Log Call) → env log queue_size ≤ m - popped log

drain-Returns :
    (fuel m : ℕ) (env : Env Call) (log : Log Call)
    → IsBounded m env
    → m < popped log + 300 + fuel
    → Returns (drain (suc fuel) env log) (λ _ _. Unit)
unfolding drain
drain-Returns zero m env log b h =
    let few : ltb (env log queue_size) 300 ≡ true = lt→ltb _ 300 (omega (arith, b log)) in rw few tt
drain-Returns (suc fuel) m env log b h = elim (Bool-cases (ltb (env log queue_size) 300)) [
  | inl few ↦ rw few tt
  | inr many ↦
      let l : Log Call = (queue_size, env log queue_size) ∷ log in
      rw many (drain-Returns fuel m env ((pops, env l pops) ∷ l) b (omega arith))
]

stop-Succeeds :
    (fuel m : ℕ) (env : Env Call)
    → IsBounded m env
    → m < 300 + fuel
    → Returns (stop (suc fuel) env []) (λ ok _. ok ≡ true)
unfolding stop drain_and_join join_threads
stop-Succeeds fuel m env b h =
    let l : Log Call = (sets_stop_signal, env [] sets_stop_signal) ∷ [] in
    Returns-bind (λ _ _. Unit) (λ ok _. ok ≡ true) (drain (suc fuel)) (λ _. join_threads) env l
      (drain-Returns fuel m env l b h) (λ _ _ _. refl)

-- When the queue has at most `m` slots, less those that Stop has thrown away (so that `HWThread`
-- queues no more), Stop returns true with more rounds of fuel than `m` exceeds 299 by. It has then set
-- the stop signal, joined the DMA thread, only then sent the null pointer that ends the writer, and
-- joined the writer last.
stop-Returns :
    (fuel m : ℕ) (env : Env Call)
    → IsBounded m env
    → m < 300 + fuel
    → Returns (stop (suc fuel) env []) (λ ok l.
      (ok ≡ true)
      × (thread_calls l ≡ joins_thread 0 ∷ pushes 0 ∷ joins_thread 1 ∷ sets_stop_signal ∷ []))
stop-Returns fuel m env b h =
    Returns-Ensures (λ l. thread_calls l ≡ sets_stop_signal ∷ [])
      (λ _ l. thread_calls l ≡ joins_thread 0 ∷ pushes 0 ∷ joins_thread 1 ∷ sets_stop_signal ∷ [])
      (λ ok _. ok ≡ true) (stop (suc fuel) env []) (stop_order (suc fuel) env [])
      (stop-Succeeds fuel m env b h)
