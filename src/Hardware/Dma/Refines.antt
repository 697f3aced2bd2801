-- ===== src/Hardware/Dma/Refines.antt =====
-- HWThread beside the other threads: its calls, with steps of WriterThread and of Stop between them,
-- are steps of the shared ring.
use mzntapp_cpp.Base.{
  ℕ, zero, suc, ◌+◌, ◌%◌, ◌≤◌, ◌≡◌, ◌≢◌, refl, Bool, true, false, arith, [], ◌∷◌, ◌++◌, none, some,
  length, inl, inr, ◌⊎◌, Option-cases, ap, ◌∙◌, sym,
}
use mzntapp_cpp.Io.{Log, Env, log_of}
use mzntapp_cpp.Hardware.Calls.{
  cdma, Call, stores, queue_size, pushes, pushes_of, ddr_q_size, opens,
}
use mzntapp_cpp.Hardware.Dma.{Target, hw_thread, btt_offset}
use mzntapp_cpp.Hardware.Dma.Rounds.{is_quiet}
use mzntapp_cpp.Hardware.Dma.Order.{slots, room_seen, transferring, Checked, hw_thread-Checked}
use mzntapp_cpp.Hardware.Ring.{
  Ring, Step, start, queued, dropped, take, written, finds_many, discard, Reach, here, next, empty,
}
use mzntapp_cpp.Hardware.Ring.Safety.{Inv-length, Reach-Inv}

-- The steps that are not of HWThread.
abbrev pub IsOther : {r s : Ring} → Step r s → Type 0
IsOther (start _ _) = ⊥
IsOther (queued _) = ⊥
IsOther (dropped _) = ⊥
IsOther (take _ _) = Unit
IsOther written = Unit
IsOther (finds_many _) = Unit
IsOther (discard _ _) = Unit

-- Calls that neither look at the ring nor change it.
abbrev is_plain : Call → Bool
is_plain queue_size = false
is_plain (opens f) = true
is_plain c = is_quiet c

-- A log of HWThread's calls during which the ring came to a state: the other threads step at any
-- time, a read of the queue's size is answered by its length at that time, and a started transfer or
-- a queued slot changes the ring without any test.
pub data Follows : Log Call → Ring → Type 0 where
  begins : Follows [] empty
  moves : {l : Log Call} {r s : Ring} → Follows l r → (step : Step r s) → IsOther step → Follows l s
  reads : {l : Log Call} {r : Ring} → Follows l r → Follows ((queue_size, length r.queue) ∷ l) r
  transfers :
      {l : Log Call} {r : Ring} (v n : ℕ)
      → Follows l r
      → Follows
          ((stores cdma btt_offset v, n) ∷ l)
          (record r { filling = some (r.pushed % ddr_q_size) })
  queues :
      {l : Log Call} {r : Ring} (p n : ℕ)
      → Follows l r
      → Follows ((pushes p, n) ∷ l) (record r {
        queue = r.queue ++ (r.pushed % ddr_q_size) ∷ [];
        pushed = r.pushed + 1;
        filling = none;
      })
  plain :
      {l : Log Call} {r : Ring} (c : Call) (n : ℕ)
      → is_plain c ≡ true
      → Follows l r
      → Follows ((c, n) ∷ l) r

-- The log explains the state: it is one of the ring's, with room if room was seen, and with a
-- transfer if one was started.
record Explained (l : Log Call) (r : Ring) : Type 0 where
  reach : Reach r
  room : room_seen l ≡ true → length r.queue ≢ ddr_q_size
  filling : transferring l ≡ true → r.filling ≡ some (r.pushed % ddr_q_size)
  count : length (pushes_of l) ≡ r.pushed

-- What a plain call leaves.
plain_kept :
    (t : Target) (c : Call) (n : ℕ) (l : Log Call)
    → is_plain c ≡ true
    → (room_seen ((c, n) ∷ l) ≡ room_seen l)
      × (transferring ((c, n) ∷ l) ≡ transferring l)
      × (pushes_of ((c, n) ∷ l) ≡ pushes_of l)
      × (Checked t ((c, n) ∷ l) → Checked t l)
plain_kept t (stores cdma r v) n l h = (ground arith, ground arith, refl, λ c. c.0)
plain_kept t (stores _ r v) n l h = (refl, refl, refl, λ c. c)
plain_kept t (pushes p) n l h = absurd (cc h)
plain_kept t queue_size n l h = absurd (cc h)
plain_kept t _ n l h = (refl, refl, refl, λ c. c)

-- What the other threads do leaves the transfer and the count as they are, and makes the queue no
-- longer.
other_kept :
    {r s : Ring} (step : Step r s)
    → IsOther step
    → (s.filling ≡ r.filling) × (s.pushed ≡ r.pushed) × (length s.queue ≤ length r.queue)
other_kept (start _ _) h = absurd h
other_kept (queued _) h = absurd h
other_kept (dropped _) h = absurd h
other_kept (take e _) h = (refl, refl, rw e (omega arith))
other_kept written h = (refl, refl, omega arith)
other_kept (finds_many _) h = (refl, refl, omega arith)
other_kept (discard _ e) h = (refl, refl, rw e (omega arith))

-- A transfer that starts with room is a step; one that was running has been dropped.
restart :
    (r : Ring)
    → Reach r
    → length r.queue ≢ ddr_q_size
    → Reach (record r { filling = some (r.pushed % ddr_q_size) })
restart r reach room = elim (Option-cases r.filling) [
  | inl idle ↦ next reach (start room idle)
  | inr (k, busy) ↦ next (next reach (dropped busy)) (start room refl)
]

room_of : {p : ℕ} {A : Type 0} → (p ≢ btt_offset) ⊎ A → p ≡ btt_offset → A
room_of (inl ne) e = absurd (ne e)
room_of (inr h) e = h

module _ (t : Target) where
  explains : {l : Log Call} {r : Ring} → Follows l r → Checked t l → Explained l r
  explains begins c = record {
    reach = here;
    room = λ h. absurd (cc h);
    filling = λ h. absurd (cc h);
    count = refl;
  }
  explains {l} (moves {r = r} f step other) c =
      let x = explains f c in
      let (same, pushed, shorter) = other_kept step other in
      record {
        reach = next x.reach step;
        room = λ h e.
            let v = Reach-Inv x.reach in x.room h (omega (arith, shorter, e, Inv-length v, v.fits));
        filling = λ h. same ∙ x.filling h ∙ ap (λ k. some (k % ddr_q_size)) (sym pushed);
        count = x.count ∙ sym pushed;
      }
  explains (reads {r = r} f) c =
      let x = explains f c in
      record {
        reach = x.reach;
        room = λ h e. ground (arith, h, e);
        filling = x.filling;
        count = x.count;
      }
  explains (transfers {r = r} v n f) (c, seen) =
      let x = explains f c in
      record {
        reach = restart r x.reach (x.room (room_of seen refl));
        room = λ h. absurd (cc h);
        filling = λ h. refl;
        count = x.count;
      }
  explains (queues {r = r} p n f) (c, begun, target) =
      let x = explains f c in
      record {
        reach = next x.reach (queued (x.filling begun));
        room = λ h. absurd (cc h);
        filling = λ h. absurd (cc h);
        count = omega (arith, x.count);
      }
  explains (plain {l} {r} call n h f) c =
      let (room, transfer, pushed, down) = plain_kept t call n l h in
      let x = explains f (down c) in
      record {
        reach = x.reach;
        room = λ e. x.room (sym room ∙ e);
        filling = λ e. x.filling (sym transfer ∙ e);
        count = ap length pushed ∙ x.count;
      }

length-slots : (base n : ℕ) → length (slots base n) ≡ n
unfolding slots
length-slots base zero = refl
length-slots base (suc n) = ap suc (length-slots base n)

-- Wherever HWThread has come to, and whatever WriterThread and Stop did to the ring between its calls,
-- the state of the ring is reached by steps of the ring, in which a transfer starts only while the
-- queue is not full and fills the slot that is queued next; and the pointers that HWThread has queued
-- are the addresses of the slots that were queued.
pub hw_thread_refines :
    (fuel : ℕ) (t : Target) (env : Env Call) (r : Ring)
    → Follows (log_of (hw_thread fuel t env [])) r
    → Reach r × (pushes_of (log_of (hw_thread fuel t env [])) ≡ slots t.ddr_base r.pushed)
hw_thread_refines fuel t env r f =
    let (n, order, checked) = hw_thread-Checked fuel t env in
    let x = explains t f checked in
    let same : n ≡ r.pushed = sym (length-slots t.ddr_base n) ∙ sym (ap length order) ∙ x.count in
    (x.reach, order ∙ ap (slots t.ddr_base) same)
