-- ===== src/Hardware/Dma/Lively/Ends.antt =====
-- HWThread beside an FPGA that answers ends when it is told to, out of its wait for an interrupt.
use mzntapp_cpp.Base.{
  ℕ, zero, suc, ◌+◌, ◌-◌, ◌*◌, ◌%◌, ◌^◌, ◌≤◌, ◌<◌, ◌≡◌, refl, true, arith, ltb, ◌==◌, [], ◌∷◌, ap,
  ◌∙◌, subst, sym, Bool-cases, inl, inr, ltb→lt,
}
use mzntapp_cpp.Io.{Io, Log, Env, Returns, Returns-bind}
use mzntapp_cpp.Hardware.Calls.{
  intc, Call, loads, sleeps, stop_signal, pushes_of, buffer_bytesize, ddr_q_size,
}
use mzntapp_cpp.Hardware.Dma.{
  Target, HwState, Next, again, stopped, initial, wait_interrupt, after_interrupt, hw_round,
  after_round, hw_loop, hw_thread,
}
use mzntapp_cpp.Hardware.Dma.Order.{slots}
use mzntapp_cpp.Hardware.Dma.Lively.{
  status_reads, IsLively, goes_on, stops, Advances, hw_round-Returns,
}

module _ (n last : ℕ) (later : n < last) (env : Env Call) (lively : IsLively n last env)
    (t : Target) where
  -- `m` slots are queued.
  Stands : ℕ → HwState → Log Call → Type 0
  Stands m st l =
      (pushes_of l ≡ slots t.ddr_base m)
      × (st.queue_index ≡ m % ddr_q_size)
      × (st.loop_cnt ≡ m % 2 ^ 32)

  -- No interrupt is left: the wait goes on until the stop signal is set.
  wait_interrupt-stops :
      (fuel : ℕ) (st : HwState) (log : Log Call)
      → n ≤ status_reads log
      → status_reads log < last
      → last - status_reads log ≤ fuel
      → Stands n st log
      → Returns (wait_interrupt fuel env log) (λ _ l. (status_reads l ≡ last) × Stands n st l)
  unfolding wait_interrupt Stands
  wait_interrupt-stops zero st log h k enough s = absurd (omega arith)
  wait_interrupt-stops (suc fuel) st log h k enough s =
      let l1 : Log Call = (loads intc 0, env log (loads intc 0)) ∷ log in
      let l2 : Log Call = (sleeps 10, env l1 (sleeps 10)) ∷ l1 in
      let l3 : Log Call = (stop_signal, env l2 stop_signal) ∷ l2 in
      let none : (env log (loads intc 0) % 4 == 0) ≡ true = rw (lively.quiet log h) refl in
      elim (Bool-cases (ltb (suc (status_reads log)) last)) [
        | inl more ↦
            rw
              (
                goes_on n last later env lively [] (suc (status_reads log)) l2 (ltb→lt _ _ more)
                    refl,
                none,
              )
              (wait_interrupt-stops fuel st l3 (omega arith) (ltb→lt _ _ more) (omega arith) s)
        | inr over ↦
            rw
              (stops n last later env lively [] (suc (status_reads log)) l2 (ground (arith, over))
                refl)
              (ground (arith, over, k), s)
      ]

  hw_round-stops :
      (fuel : ℕ) (st : HwState) (log : Log Call)
      → n ≤ status_reads log
      → status_reads log < last
      → last - status_reads log ≤ fuel
      → Stands n st log
      → Returns
          (hw_round fuel t st env log)
          (λ next l. (s : HwState) × (next ≡ stopped s) × Stands n s l)
  unfolding hw_round after_interrupt Stands
  hw_round-stops fuel st log h k enough s =
      Returns-bind (λ _ l. (status_reads l ≡ last) × Stands n st l)
        (λ next l. (s : HwState) × (next ≡ stopped s) × Stands n s l) (wait_interrupt fuel)
        (after_interrupt fuel t st) env log (wait_interrupt-stops fuel st log h k enough s)
        (λ reg l (all, stands).
          rw (stops n last later env lively [] last l (omega arith) all) (st, refl, stands))

  after_stop :
      (loop : HwState → Io Call HwState) (next : Next) (l : Log Call)
      → (s : HwState) × (next ≡ stopped s) × Stands n s l
      → Returns (after_round loop next env l) (Stands n)
  after_stop loop (again st) l (s, e, h) = cc e
  after_stop loop (stopped st) l (s, e, h) =
      subst (λ next. Returns (after_round loop next env l) (Stands n)) (sym e) h

  resumes :
      (m fuel : ℕ) (st : HwState) (next : Next) (log l : Log Call)
      → Stands m st log
      → Advances n last later env lively
          (slots t.ddr_base m)
          (suc m)
          t
          fuel
          st.queue_index
          st.loop_cnt
          next
          l
      → ((s : HwState)
          → Stands (suc m) s l
          → status_reads l ≡ suc m
          → Returns (hw_loop (suc fuel) t s env l) (Stands n))
      → Returns (after_round (hw_loop (suc fuel) t) next env l) (Stands n)
  unfolding Advances Stands slots
  resumes m fuel st (stopped s) log l (_, index, cnt) a loop = absurd a
  resumes m fuel st (again s) log l (_, index, cnt) (queued, reads, index', cnt') loop =
      loop s
        (
          queued ∙ ap (λ j. (t.ddr_base + j * buffer_bytesize) ∷ slots t.ddr_base m) index,
          omega (arith, index, index'),
          omega (arith, cnt, cnt'),
        )
        reads

  hw_loop-Returns :
      (left m fuel : ℕ) (st : HwState) (log : Log Call)
      → m + left ≡ n
      → left + 2 ≤ fuel
      → last + 2 ≤ fuel + m
      → Stands m st log
      → status_reads log ≡ m
      → Returns (hw_loop fuel t st env log) (Stands n)
  unfolding hw_loop Stands
  hw_loop-Returns left m zero st log e enough waits h r = absurd (omega arith)
  hw_loop-Returns left m (suc zero) st log e enough waits h r = absurd (omega arith)
  hw_loop-Returns zero m (suc (suc fuel)) st log e enough waits h r =
      let same : m ≡ n = omega (arith, e) in
      rw (goes_on n last later env lively [] m log (omega (arith, e, later)) r) (
        Returns-bind (λ next l. (s : HwState) × (next ≡ stopped s) × Stands n s l) (Stands n)
          (hw_round (suc fuel) t st) (after_round (hw_loop (suc fuel) t)) env _
          (hw_round-stops (suc fuel) st _ (omega (arith, r, same)) (omega (arith, r, same, later))
            (omega (arith, r, waits)) (subst (λ k. Stands k st log) same h))
          (λ next l a. after_stop (hw_loop (suc fuel) t) next l a))
  hw_loop-Returns (suc left) m (suc (suc fuel)) st log e enough waits h r =
      rw (goes_on n last later env lively [] m log (omega (arith, e, later)) r) (
        Returns-bind
          (Advances n last later env lively (slots t.ddr_base m) (suc m) t fuel st.queue_index
            st.loop_cnt)
          (Stands n) (hw_round (suc fuel) t st) (after_round (hw_loop (suc fuel) t)) env _
          (hw_round-Returns n last later env lively (slots t.ddr_base m) (suc m) t fuel st _
            (omega (arith, e)) h.0 (ap suc r))
          (λ next l a. resumes m fuel st next log l h a (λ s h' r'.
            hw_loop-Returns left (suc m) (suc fuel) s l (omega (arith, e)) (omega arith)
              (omega arith) h' r')))

-- With its priority given, beside an FPGA and a DMA engine that always answer at once, without errors,
-- and with room in the queue: the first `n` reads of the interrupt status find one buffer full each, the later ones none, and
-- the stop signal is set once the status was read `last` times, which is more than `n`. With a fuel of
-- at least `last + 2`, HWThread then ends, out of its wait for an interrupt; it has queued exactly `n`
-- slots, one for each interrupt, in ring order, and its counters say so.
pub hw_thread-Returns :
    (fuel n last : ℕ) (t : Target) (env : Env Call)
    → n < last
    → IsLively n last env
    → last + 2 ≤ fuel
    → Returns (hw_thread fuel t env []) λ st l.
      (pushes_of l ≡ slots t.ddr_base n)
      × (st.queue_index ≡ n % ddr_q_size)
      × (st.loop_cnt ≡ n % 2 ^ 32)
unfolding hw_thread Stands slots
hw_thread-Returns fuel n last t env later lively enough = rw (lively.priority []) (
    hw_loop-Returns n last later env lively t n 0 fuel initial _ (omega arith) (omega arith)
      (omega arith) (refl, refl, refl) refl)
