-- ===== src/Hardware/Dma/Rounds.antt =====
-- A rule for one round of HWThread, over any invariant of the log. `I` holds between rounds, `J` once
-- room in the queue has been seen, `M` while a transfer runs, and `I'` once its slot is queued.
use Prim.Native.Nat.{bit_or}
use mzntapp_cpp.Base.{
  subst, sym, ℕ, zero, suc, ◌+◌, ◌*◌, ◌%◌, ◌^◌, ◌≡◌, ◌≢◌, ◌⊎◌, refl, Bool, true, false, not, arith,
  ◌==◌, bit, ◌∷◌,
}
use mathlib.Core.Path.{subst₂}
use mzntapp_cpp.Io.{Log, Env, poll, Ensures, Ensures-bind, Stable}
use mzntapp_cpp.Hardware.Calls.{
  intc, cdma, Call, loads, stores, sleeps, stop_signal, queue_size, pushes, counts_error,
  buffer_bytesize, ddr_q_size,
}
use mzntapp_cpp.Hardware.Dma.{
  Target, HwState, Next, again, stopped, wait_interrupt, acknowledge, doubled, reset_dma,
  finish_transfer, start_transfer, program_dma, run_transfer, enable_dma, transfer, serve,
  after_interrupt, hw_round, btt_offset, srcaddr_offset, dstaddr_offset,
}

-- Calls that neither start a transfer nor queue a slot.
abbrev pub is_quiet : Call → Bool
is_quiet (pushes p) = false
is_quiet (stores cdma r v) = not (r == btt_offset)
is_quiet _ = true

abbrev pub dst_of : Target → HwState → ℕ
dst_of t st = (t.paddr + st.queue_index * buffer_bytesize) % 2 ^ 32

-- What a round returns: the same slot again, or the next one if a slot was queued.
abbrev pub Moved : (Log Call → Type 0) → (Log Call → Type 0) → ℕ → ℕ → Next → Log Call → Type 0
Moved I I' qi cnt (stopped s) l = I l × (s.queue_index ≡ qi) × (s.loop_cnt ≡ cnt)
Moved I I' qi cnt (again s) l =
    (I l × (s.queue_index ≡ qi) × (s.loop_cnt ≡ cnt))
    ⊎ (I' l × (s.queue_index ≡ (qi + 1) % ddr_q_size) × (s.loop_cnt ≡ (cnt + 1) % 2 ^ 32))

pub record Rule (t : Target) (qi : ℕ) (I J M I' : Log Call → Type 0) : Type 0 where
  pub quiet : (c : Call) → is_quiet c ≡ true → Stable I c
  pub sees_room : (n : ℕ) (l : Log Call) → n ≢ ddr_q_size → I l → J ((queue_size, n) ∷ l)
  pub keeps_room : (r v n : ℕ) (l : Log Call) → r ≢ btt_offset → J l → J ((stores cdma r v, n) ∷ l)
  pub starts :
      (n m : ℕ) (l : Log Call)
      → J l
      → M (
          (stores cdma btt_offset buffer_bytesize, n)
          ∷ (stores cdma dstaddr_offset ((t.paddr + qi * buffer_bytesize) % 2 ^ 32), m)
          ∷ l)
  pub runs : (r n : ℕ) (l : Log Call) → M l → M ((loads cdma r, n) ∷ l)
  pub ends : (l : Log Call) → M l → I l
  pub queues :
      (n : ℕ) (l : Log Call) → M l → I' ((pushes (t.ddr_base + qi * buffer_bytesize), n) ∷ l)

module _ (t : Target) (st : HwState) (I J M I' : Log Call → Type 0)
    (rule : Rule t st.queue_index I J M I') where
  open rule use {quiet, sees_room, keeps_room, starts, runs, ends, queues}

  wait_interrupt-Ensures :
      (fuel : ℕ) (env : Env Call) (log : Log Call)
      → I log
      → Ensures I (λ _ l. I l) (wait_interrupt fuel env log)
  unfolding wait_interrupt
  wait_interrupt-Ensures zero env log h = h
  wait_interrupt-Ensures (suc fuel) env log h =
      let l1 : Log Call = (loads intc 0, env log (loads intc 0)) ∷ log in
      let l2 : Log Call = (sleeps 10, env l1 (sleeps 10)) ∷ l1 in
      let l3 : Log Call = (stop_signal, env l2 stop_signal) ∷ l2 in
      let h3 : I l3 =
        quiet stop_signal refl _ _ (quiet (sleeps 10) refl _ _ (quiet (loads intc 0) refl _ _ h)) in
      ground (arith, h3, wait_interrupt-Ensures fuel env l3 h3)

  reset_dma-Ensures :
      (fuel : ℕ) (env : Env Call) (log : Log Call)
      → I log
      → Ensures I (λ _ l. I l) (reset_dma fuel env log)
  unfolding reset_dma
  reset_dma-Ensures zero env log h = h
  reset_dma-Ensures (suc fuel) env log h =
      let c1 = stores cdma 0 4 in
      let l1 : Log Call = (c1, env log c1) ∷ log in
      let l2 : Log Call = (loads cdma 0, env l1 (loads cdma 0)) ∷ l1 in
      let h2 : I l2 = quiet (loads cdma 0) refl _ _ (quiet c1 refl _ _ h) in
      ground (arith, h2, reset_dma-Ensures fuel env l2 h2)

  poll_room-Ensures :
      (fuel : ℕ) (env : Env Call) (log : Log Call)
      → I log
      → Ensures I (λ _ l. J l) (poll fuel queue_size (λ n. not (n == ddr_q_size)) env log)
  unfolding poll
  poll_room-Ensures zero env log h = h
  poll_room-Ensures (suc fuel) env log h =
      let n = env log queue_size in
      let h1 : I ((queue_size, n) ∷ log) = quiet queue_size refl _ _ h in
      ground (arith, sees_room n log, poll_room-Ensures fuel env ((queue_size, n) ∷ log) h1)

  finish_transfer-Ensures :
      (reg : ℕ) (env : Env Call) (log : Log Call)
      → M log
      → Ensures I (Moved I I' st.queue_index st.loop_cnt) (finish_transfer t st reg env log)
  unfolding finish_transfer
  finish_transfer-Ensures reg env log h =
      let c = pushes (t.ddr_base + st.queue_index * buffer_bytesize) in
      ground (
        arith,
        queues (env log c) log h,
        quiet counts_error refl (env log counts_error) log (ends log h),
      )

  poll_idle-Ensures :
      (fuel : ℕ) (env : Env Call) (log : Log Call)
      → M log
      → Ensures I (λ _ l. M l) (poll fuel (loads cdma 4) (bit 1) env log)
  unfolding poll
  poll_idle-Ensures zero env log h = ends log h
  poll_idle-Ensures (suc fuel) env log h =
      let h1 = runs 4 (env log (loads cdma 4)) log h in
      ground
        (arith, h1, poll_idle-Ensures fuel env ((loads cdma 4, env log (loads cdma 4)) ∷ log) h1)

  program_dma-Ensures :
      (fuel : ℕ) (env : Env Call) (log : Log Call)
      → J log
      → Ensures I (λ _ l. M l) (program_dma fuel t st env log)
  unfolding program_dma
  program_dma-Ensures fuel env log j =
      poll_idle-Ensures fuel env _ (starts _ _ _ (keeps_room srcaddr_offset _ _ _ (omega arith) j))

  run_transfer-Ensures :
      (fuel : ℕ) (env : Env Call) (log : Log Call)
      → I log
      → Ensures I (Moved I I' st.queue_index st.loop_cnt) (run_transfer fuel t st env log)
  unfolding run_transfer start_transfer
  run_transfer-Ensures fuel env log h =
      Ensures-bind I (λ _ l. M l) (Moved I I' st.queue_index st.loop_cnt) (start_transfer fuel t st)
        (finish_transfer t st) env log
        (Ensures-bind I (λ _ l. J l) (λ _ l. M l)
          (poll fuel queue_size (λ n. not (n == ddr_q_size))) (λ _. program_dma fuel t st) env log
          (poll_room-Ensures fuel env log h) (λ _ l. program_dma-Ensures fuel env l))
        (λ reg l. finish_transfer-Ensures reg env l)

  enable_dma-Ensures :
      (fuel : ℕ) (env : Env Call) (log : Log Call)
      → I log
      → Ensures I (Moved I I' st.queue_index st.loop_cnt) (enable_dma fuel t st env log)
  unfolding enable_dma
  enable_dma-Ensures fuel env log h =
      let l1 : Log Call = (loads cdma 0, env log (loads cdma 0)) ∷ log in
      let c2 = stores cdma 0 (bit_or (env log (loads cdma 0)) 0x7000) in
      let l2 : Log Call = (c2, env l1 c2) ∷ l1 in
      let l3 : Log Call = (loads cdma 4, env l2 (loads cdma 4)) ∷ l2 in
      let h3 : I l3 =
        quiet (loads cdma 4) refl _ _ (quiet c2 refl _ _ (quiet (loads cdma 0) refl _ _ h)) in
      ground (arith, h3, run_transfer-Ensures fuel env l3 h3)

  transfer-Ensures :
      (fuel : ℕ) (env : Env Call) (log : Log Call)
      → I log
      → Ensures I (Moved I I' st.queue_index st.loop_cnt) (transfer fuel t st env log)
  unfolding transfer
  transfer-Ensures fuel env log h =
      Ensures-bind I (λ _ l. I l) (Moved I I' st.queue_index st.loop_cnt) (reset_dma fuel)
        (λ _. enable_dma fuel t st) env log (reset_dma-Ensures fuel env log h)
        (λ _ l. enable_dma-Ensures fuel env l)

  doubled-Ensures :
      (env : Env Call) (log : Log Call)
      → I log
      → Ensures I (Moved I I' st.queue_index st.loop_cnt) (doubled st env log)
  unfolding doubled
  doubled-Ensures env log h = ground (
    arith,
    quiet (stores intc 0xC 3) refl (env log (stores intc 0xC 3)) log h,
    quiet counts_error refl
        (env ((stores intc 0xC 3, env log (stores intc 0xC 3)) ∷ log) counts_error)
        ((stores intc 0xC 3, env log (stores intc 0xC 3)) ∷ log)
        (quiet (stores intc 0xC 3) refl (env log (stores intc 0xC 3)) log h),
  )

  serve-Ensures :
      (fuel reg : ℕ) (env : Env Call) (log : Log Call)
      → I log
      → Ensures I (Moved I I' st.queue_index st.loop_cnt) (serve fuel t reg st env log)
  unfolding serve
  serve-Ensures fuel reg env log h =
      ground (arith, doubled-Ensures env log h, transfer-Ensures fuel env log h)

abbrev SameSlot : (Log Call → Type 0) → HwState → HwState → Log Call → Type 0
SameSlot I st s l = I l × (s.queue_index ≡ st.queue_index) × (s.loop_cnt ≡ st.loop_cnt)

module _ (t : Target) (st : HwState) (I J M I' : Log Call → Type 0)
    (rule : Rule t st.queue_index I J M I') where
  open rule use {quiet}

  acknowledge-Ensures :
      (reg : ℕ) (env : Env Call) (log : Log Call)
      → I log
      → Ensures I (SameSlot I st) (acknowledge reg st env log)
  unfolding acknowledge
  acknowledge-Ensures reg env log h =
      let c1 = stores intc 0xC 1 in
      let c2 = stores intc 0xC 2 in
      let l1 : Log Call = (c1, env log c1) ∷ log in
      let h1 : I l1 = quiet c1 refl (env log c1) log h in
      ground (arith, h1, quiet c2 refl (env log c2) log h, quiet c2 refl (env l1 c2) l1 h1)

  served :
      (fuel reg : ℕ) (s : HwState) (env : Env Call) (l : Log Call)
      → SameSlot I st s l
      → Ensures I (Moved I I' st.queue_index st.loop_cnt) (serve fuel t reg s env l)
  served fuel reg s env l same =
      subst₂ (λ q c. Ensures I (Moved I I' q c) (serve fuel t reg s env l)) same.1 same.2
        (serve-Ensures t s I J M I' (subst (λ q. Rule t q I J M I') (sym same.1) rule) fuel reg env
          l same.0)

  after_interrupt-Ensures :
      (fuel reg : ℕ) (env : Env Call) (log : Log Call)
      → I log
      → Ensures I (Moved I I' st.queue_index st.loop_cnt) (after_interrupt fuel t st reg env log)
  unfolding after_interrupt
  after_interrupt-Ensures fuel reg env log h =
      let l1 : Log Call = (stop_signal, env log stop_signal) ∷ log in
      let h1 : I l1 = quiet stop_signal refl (env log stop_signal) log h in
      ground (
        arith,
        h1,
        Ensures-bind I (SameSlot I st) (Moved I I' st.queue_index st.loop_cnt) (acknowledge reg st)
            (serve fuel t reg) env l1 (acknowledge-Ensures reg env l1 h1)
            (λ s l. served fuel reg s env l),
      )

  -- A round keeps the invariant, and either leaves the slot or queues it and moves to the next one.
  pub hw_round-Ensures :
      (fuel : ℕ) (env : Env Call) (log : Log Call)
      → I log
      → Ensures I (Moved I I' st.queue_index st.loop_cnt) (hw_round fuel t st env log)
  unfolding hw_round
  hw_round-Ensures fuel env log h =
      Ensures-bind I (λ _ l. I l) (Moved I I' st.queue_index st.loop_cnt) (wait_interrupt fuel)
        (after_interrupt fuel t st) env log
        (wait_interrupt-Ensures t st I J M I' rule fuel env log h)
        (λ reg l. after_interrupt-Ensures fuel reg env l)
