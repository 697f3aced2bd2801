-- ===== src/Hardware/Ring/Safety.antt =====
-- No queued slot is ever overwritten, and HWThread never finds the queue full when it pushes.
use mzntapp_cpp.Base.{
  ℕ, zero, suc, ◌+◌, ◌%◌, ◌≤◌, ◌<◌, ◌≡◌, ◌≢◌, refl, List, [], ◌∷◌, ◌++◌, Option, some, arith,
  length, All, Bool, false, ap, ◌∙◌, sym,
}
use mzntapp_cpp.Hardware.Calls.{ddr_q_size}
use mzntapp_cpp.Hardware.Ring.{
  Ring, Step, start, queued, dropped, take, written, finds_many, discard, Reach, here, next, window,
}

pub length-window : (s n : ℕ) → length (window s n) ≡ n
unfolding window
length-window s zero = refl
length-window s (suc n) = ap suc (length-window (s + 1) n)

pub window-append : (s n : ℕ) → window s n ++ ((s + n) % ddr_q_size) ∷ [] ≡ window s (suc n)
unfolding window
window-append s zero = ap (λ k. k % ddr_q_size ∷ []) (omega arith)
window-append s (suc n) =
    ap (◌∷◌ (s % ddr_q_size))
      (ap (λ k. window (s + 1) n ++ k % ddr_q_size ∷ []) (omega arith) ∙ window-append (s + 1) n)

-- A slot is none of the fewer than 494 slots before it.
window-ne :
    (s n p : ℕ) → s + n ≤ p → p < s + ddr_q_size → All (λ k. k ≢ p % ddr_q_size) (window s n)
unfolding window
window-ne s zero p h below = tt
window-ne s (suc n) p h below = (omega arith, window-ne (s + 1) n p (omega arith) (omega arith))

pub record Inv (r : Ring) : Type 0 where
  -- the oldest queued slot
  pub first : ℕ
  pub count : ℕ
  pub slots : r.queue ≡ window first count
  pub ends : first + count ≡ r.pushed
  pub fits : count ≤ ddr_q_size
  pub room : (k : ℕ) → r.filling ≡ some k → (k ≡ r.pushed % ddr_q_size) × (count < ddr_q_size)

pub Inv-length : {r : Ring} (v : Inv r) → length r.queue ≡ v.count
Inv-length v = ap length v.slots ∙ length-window v.first v.count

-- A queue with a head is the window of its first slot and the rest.
window_head :
    (s n : ℕ) (k : ℕ) (rest : List ℕ)
    → window s n ≡ k ∷ rest
    → (m : ℕ) × (n ≡ suc m) × (rest ≡ window (s + 1) m)
unfolding window
window_head s zero k rest e = absurd (cc)
window_head s (suc n) k rest e = (n, refl, cc)

popped :
    (r : Ring) (k : ℕ) (rest : List ℕ) (held : Option ℕ) (discarding : Bool)
    → r.queue ≡ k ∷ rest
    → Inv r
    → Inv (record r { queue = rest; held = held; discarding = discarding })
popped r k rest held discarding e v =
    let (m, n, w) = window_head v.first v.count k rest (sym v.slots ∙ e) in
    record {
      first = v.first + 1;
      count = m;
      slots = w;
      ends = omega (arith, v.ends, n);
      fits = omega (arith, v.fits, n);
      room = λ q f. ((v.room q f).0, omega (arith, n, (v.room q f).1));
    }

pub Step-Inv : {r s : Ring} → Step r s → Inv r → Inv s
Step-Inv {r} (start ne idle) v = record {
  first = v.first;
  count = v.count;
  slots = v.slots;
  ends = v.ends;
  fits = v.fits;
  room = λ k e. (cc, omega (arith, Inv-length v));
}
Step-Inv {r} (queued {k} e) v = record {
  first = v.first;
  count = suc v.count;
  slots = rw (v.slots, (v.room k e).0, ← v.ends) (window-append v.first v.count);
  ends = omega (arith, v.ends);
  fits = omega (arith, v.room k e);
  room = λ k e. absurd (cc);
}
Step-Inv (dropped e) v = record {
  first = v.first;
  count = v.count;
  slots = v.slots;
  ends = v.ends;
  fits = v.fits;
  room = λ k e. absurd (cc);
}
Step-Inv {r} (take {k} {rest} e idle) v = popped r k rest (some k) r.discarding e v
Step-Inv written v = record {
  first = v.first;
  count = v.count;
  slots = v.slots;
  ends = v.ends;
  fits = v.fits;
  room = v.room;
}
Step-Inv (finds_many many) v = record {
  first = v.first;
  count = v.count;
  slots = v.slots;
  ends = v.ends;
  fits = v.fits;
  room = v.room;
}
Step-Inv {r} (discard {k} {rest} found e) v = popped r k rest r.held false e v

pub Reach-Inv : {r : Ring} → Reach r → Inv r
unfolding window
Reach-Inv here = record {
  first = 0;
  count = 0;
  slots = refl;
  ends = refl;
  fits = omega arith;
  room = λ k e. absurd (cc);
}
Reach-Inv (next r s) = Step-Inv s (Reach-Inv r)

-- In every reachable state the slot that the DMA engine fills is none of the queued slots, and the
-- queue has room for it, so that the push which follows neither waits nor loses a slot.
pub filling-safe :
    {r : Ring} (k : ℕ)
    → Reach r
    → r.filling ≡ some k
    → All (λ q. q ≢ k) r.queue × (length r.queue < ddr_q_size)
filling-safe {r} k reach e =
    let v = Reach-Inv reach in
    (
      rw (v.slots, (v.room k e).0)
          (window-ne v.first v.count r.pushed (omega (arith, v.ends))
            (omega (arith, v.ends, (v.room k e).1))),
      omega (arith, Inv-length v, (v.room k e).1),
    )
