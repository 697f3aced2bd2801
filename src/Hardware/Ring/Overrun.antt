-- ===== src/Hardware/Ring/Overrun.antt =====
-- The slot that the writer reads has left the queue, so the size test does not protect it.
use mzntapp_cpp.Base.{
  false, ℕ, zero, suc, ◌+◌, ◌%◌, ◌≤◌, ◌≡◌, refl, [], ◌∷◌, ◌++◌, none, some, arith, length, ap, ap₂,
  ◌∙◌, subst,
}
use mzntapp_cpp.Hardware.Calls.{ddr_q_size}
use mzntapp_cpp.Hardware.Ring.{Ring, Step, start, queued, take, Reach, here, next, window}
use mzntapp_cpp.Hardware.Ring.Safety.{length-window, window-append, Inv-length, Reach-Inv}

-- The first `n` slots are queued and nobody is at work.
abbrev pub filled : ℕ → Ring
filled n = record {
  queue = window 0 n;
  pushed = n;
  filling = none;
  held = none;
  discarding = false;
}

grown : (n : ℕ) → window 0 n ++ (n % ddr_q_size) ∷ [] ≡ window 0 (suc n)
grown n = ap (λ k. window 0 n ++ k % ddr_q_size ∷ []) (omega arith) ∙ window-append 0 n

pub filled-Reach : (n : ℕ) → n ≤ ddr_q_size → Reach (filled n)
unfolding window
filled-Reach zero h = here
filled-Reach (suc n) h =
    next (next (filled-Reach n (omega arith)) (start (omega (arith, length-window 0 n)) refl)) (
      subst (Step (record (filled n) { filling = some (n % ddr_q_size) }))
        (ap₂
          (λ q m. record { queue = q; pushed = m; filling = none; held = none; discarding = false })
          (grown n) (omega arith))
        (queued refl))

-- Whenever the queue has filled up, while no transfer runs and the writer holds no slot, the writer's
-- next pop makes HWThread's size test pass, and the slot that it then fills is the one that the writer
-- has just begun to read.
pub overrun :
    {r : Ring}
    → Reach r
    → length r.queue ≡ ddr_q_size
    → r.filling ≡ none
    → r.held ≡ none
    → (s t : Ring) × Step r s × Step s t × (k : ℕ) × (t.filling ≡ some k) × (t.held ≡ some k)
overrun {r} reach full idle free =
    let v = Reach-Inv reach in
    let n : v.count ≡ suc 493 = omega (arith, Inv-length v) in
    let head : r.queue ≡ (v.first % ddr_q_size) ∷ window (v.first + 1) 493 =
      v.slots ∙ ap (window v.first) n ∙ unfold window in refl in
    let k = v.first % ddr_q_size in
    let s : Ring = record r { queue = window (v.first + 1) 493; held = some k } in
    (
      s,
      record s { filling = some (r.pushed % ddr_q_size) },
      take head free,
      start (omega (arith, length-window (v.first + 1) 493)) idle,
      k,
      ap some (omega (arith, v.ends, n)),
      refl,
    )
